-- ===== src/Tool/Options.antt =====
-- The command line of main.cpp: its Args, parse_hex_bytes, run_demo and main, as the calls that follow.
-- Args, its lookups and its two maps are those of src/nanlang_cpp.cpp.
use optimized_nan_lang.Base.{
  ltb, leb, same, ℤ, pos, negsuc, Bytes, codes, ℕ, Bool, true, false, Option, none, some, List, [],
  map, ◌-◌, ◌%◌, ◌^◌, ◌&&◌, ◌||◌, ◌∷◌, ◌==◌, if◌then◌else◌,
}
use optimized_nan_lang.Text.{skip_spaces}
use optimized_nan_lang.Text.Numbers.{digit_value, some_digits, stoul}
use optimized_nan_lang.Npi.Shell.{split_ws}
use optimized_nan_lang.Command.{
  Args, find, has, get, get_int, no_args, set_value, set_flag, is_value,
}

-- The key of a token of more than two bytes that begins with two dashes.
option_key : Bytes → Option Bytes
option_key (a ∷ b ∷ c ∷ cs) = if a == 0x2d && b == 0x2d then some (c ∷ cs) else none
option_key short = none

unfoldable pub parse_args : List Bytes → Args → Args
unfolding option_key set_value set_flag is_value
parse_args [] a = a
parse_args (tok ∷ []) a = elim (option_key tok) [ some key ↦ set_flag key a | none ↦ a ]
parse_args (tok ∷ next ∷ rest) a = elim (option_key tok) [
  | none ↦ parse_args (next ∷ rest) a
  | some key ↦ elim (is_value next) [
    | true ↦ parse_args rest (set_value key next a)
    | false ↦ parse_args (next ∷ rest) (set_flag key a)
  ]
]

-- `std::stoull` with base 0 takes what `std::stoul` takes.
unfoldable pub get_u64 : Args → Bytes → ℕ → ℕ
unfolding find stoul
get_u64 a k def = elim (find a.kv k) [
  | none ↦ def
  | some text ↦ elim (stoul text) [ none ↦ def | some v ↦ v ]
]

unfoldable pub flag : Args → Bytes → Bool
unfolding find
flag a k = elim (find a.flags k) [ none ↦ false | some v ↦ true ]

-- Base 16, where "0x" may stand before a digit.
hex_digits : Bytes → Option (ℕ × Bytes)
unfolding some_digits digit_value
hex_digits (z ∷ x ∷ d ∷ cs) =
    if z == 0x30 && ((x == 0x78 || x == 0x58) && ltb (digit_value d) 16)
    then some_digits 16 (d ∷ cs)
    else some_digits 16 (z ∷ x ∷ d ∷ cs)
hex_digits short = some_digits 16 short

-- `none` is an exception; a minus sign negates modulo 2^64.
hex_value : Bool → Option (ℕ × Bytes) → Option ℕ
hex_value neg none = none
hex_value neg (some (v, rest)) =
    if leb (2 ^ 64) v then none else some (if neg then (2 ^ 64 - v) % 2 ^ 64 else v)

unfoldable pub stoul_hex : Bytes → Option ℕ
unfolding hex_digits hex_value skip_spaces
stoul_hex s = elim (skip_spaces s) [
  | [] ↦ none
  | ◌∷◌ c cs ↦
      if c == 0x2d
      then hex_value true (hex_digits cs)
      else hex_value false (hex_digits (if c == 0x2b then cs else c ∷ cs))
]

-- A token that is no number is left out.
hex_bytes : List Bytes → Bytes
unfolding stoul_hex
hex_bytes [] = []
hex_bytes (tok ∷ toks) = elim (stoul_hex tok) [
  | none ↦ hex_bytes toks
  | some v ↦ v % 256 ∷ hex_bytes toks
]

unfoldable pub parse_hex_bytes : Bytes → Bytes
unfolding hex_bytes split_ws
parse_hex_bytes s = hex_bytes (split_ws s)

pub data Demo : Type 0 where
  pulse : ℤ → ℕ → Demo
  signal_buffer simd wait_free branch_predictor : ℤ → Demo
  dma obfuscation self_heal : ℕ → Demo
  zero_copy : ℕ → ℕ → Demo
  linker : ℤ → Bool → Demo
  register_map compression jit register_coloring constant_fold cross_platform fingerprint : Demo
  deadlock pipeline_reorder out_of_order : Demo
  unknown : Bytes → Demo

-- `static_cast<uint8_t>` of an `int`.
abbrev byte_of : ℤ → ℕ
byte_of (pos n) = n % 256
byte_of (negsuc n) = 255 - n % 256

-- A demo that is not "all".
one_demo : Bytes → Args → Demo
unfolding get_int get_u64 flag same
one_demo name args =
    let count = get_int args (codes "count") (pos 64) in
    if same name (codes "pulse")
    then pulse count (byte_of (get_int args (codes "pattern") (pos 0xaa)))
    else if same name (codes "sigbuf")
    then signal_buffer count
    else if same name (codes "simd")
    then simd (get_int args (codes "iterations") (pos 100))
    else if same name (codes "dma")
    then dma (get_u64 args (codes "size") 4096)
    else if same name (codes "zerocopy")
    then zero_copy (get_u64 args (codes "offset") 0) (get_u64 args (codes "len") 4)
    else if same name (codes "regmap")
    then register_map
    else if same name (codes "binary")
    then obfuscation (get_u64 args (codes "cpu-key") 0xcafebabedeadbeef)
    else if same name (codes "compress")
    then compression
    else if same name (codes "selfheal")
    then self_heal (byte_of (get_int args (codes "nibble") (pos 0x0b)) % 16)
    else if same name (codes "jit")
    then jit
    else if same name (codes "linker")
    then linker (get_int args (codes "segments") (pos 3)) (flag args (codes "strip-nops"))
    else if same name (codes "color")
    then register_coloring
    else if same name (codes "fold")
    then constant_fold
    else if same name (codes "xplatform")
    then cross_platform
    else if same name (codes "hwfp")
    then fingerprint
    else if same name (codes "waitfree")
    then wait_free count
    else if same name (codes "deadlock")
    then deadlock
    else if same name (codes "branch")
    then branch_predictor (get_int args (codes "rounds") (pos 256))
    else if same name (codes "pipeline")
    then pipeline_reorder
    else if same name (codes "ooo")
    then out_of_order
    else unknown name

abbrev pub demo_names : List Bytes
demo_names =
    codes "pulse"
    ∷ codes "sigbuf"
    ∷ codes "simd"
    ∷ codes "dma"
    ∷ codes "zerocopy"
    ∷ codes "regmap"
    ∷ codes "binary"
    ∷ codes "compress"
    ∷ codes "selfheal"
    ∷ codes "jit"
    ∷ codes "linker"
    ∷ codes "color"
    ∷ codes "fold"
    ∷ codes "xplatform"
    ∷ codes "hwfp"
    ∷ codes "waitfree"
    ∷ codes "deadlock"
    ∷ codes "branch"
    ∷ codes "pipeline"
    ∷ codes "ooo"
    ∷ []

unfoldable pub run_demo : Bytes → Args → List Demo
unfolding one_demo same
run_demo name args =
    if same name (codes "all")
    then map (λ d. one_demo d args) demo_names
    else one_demo name args ∷ []

-- What `main` does. A path that is not there is a message and the exit status 1.
pub data Task : Type 0 where
  show_help show_version invalid_arguments : Task
  missing_file run_bytecode : Bytes → Task
  compile : Bytes → Bytes → Task
  build_native : Bytes → Bytes → Bool → Task
  patch_file : Bytes → ℕ → Bytes → Task
  demos : List Demo → Task

unfoldable pub choose : (Bytes → Bool) → Args → Task
unfolding has get get_u64 flag parse_hex_bytes run_demo
choose exists args =
    if has args (codes "help")
    then show_help
    else if has args (codes "version")
    then show_version
    else if has args (codes "compile")
    then (let src = get args (codes "compile") [] in
        if exists src
        then compile src (get args (codes "output") (codes "output.nb"))
        else missing_file src)
    else if has args (codes "run")
    then (let nb = get args (codes "run") [] in
        if exists nb then run_bytecode nb else missing_file nb)
    else if has args (codes "build-native")
    then (let src = get args (codes "build-native") [] in
        if exists src
        then build_native src (get args (codes "output") (codes "app.elf"))
            (flag args (codes "opt"))
        else missing_file src)
    else if has args (codes "patch")
    then patch_file (get args (codes "patch") []) (get_u64 args (codes "offset") 0)
        (parse_hex_bytes (get args (codes "bytes") (codes "90")))
    else if has args (codes "demo")
    then demos (run_demo (get args (codes "demo") []) args)
    else invalid_arguments

unfoldable pub tool_main : (Bytes → Bool) → List Bytes → Task
unfolding parse_args choose
tool_main exists [] = show_help
tool_main exists (word ∷ words) = choose exists (parse_args (word ∷ words) no_args)
