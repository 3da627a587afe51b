-- ===== src/Command.antt =====
-- The command line of src/nanlang_cpp.cpp: Args, resolve_compile_mode and parse_flag_output_mode.
pub mod Lookup
pub mod Options
pub mod Main
pub mod Choices
pub mod Entry
pub mod Front
mod Tests
use optimized_nan_lang.Base.{
  ltb, leb, same, ℤ, with_minus, Bytes, codes, ℕ, Bool, true, false, Option, none, some, List, [],
  ◌+◌, ◌^◌, ◌||◌, ◌∷◌, ◌==◌, if◌then◌else◌,
}
use optimized_nan_lang.Cache.{CompileOutputMode, bin, elf, asm, sh}
use optimized_nan_lang.Text.{after_prefix}
use optimized_nan_lang.Text.Numbers.{signed_number}
use optimized_nan_lang.Npi.Config.{ConfigMap, assign}

-- The words of `argv` behind the name of the program. The two maps are association lists, where an
-- assignment keeps one entry for a key.
pub record Args : Type 0 where
  pub kv : ConfigMap
  pub flags : ConfigMap

unfoldable pub find : ConfigMap → Bytes → Option Bytes
unfolding same
find [] key = none
find ((k, v) ∷ rest) key = if same k key then some v else find rest key

abbrev is_some : Option Bytes → Bool
is_some none = false
is_some (some v) = true

unfoldable pub has : Args → Bytes → Bool
unfolding find
has a k = is_some (find a.kv k) || is_some (find a.flags k)

unfoldable pub get : Args → Bytes → Bytes → Bytes
unfolding find
get a k def = elim (find a.kv k) [ none ↦ def | some v ↦ v ]

-- What `std::stoi` throws is caught: no number, and one that an `int` does not hold.
unfoldable pub get_int : Args → Bytes → ℤ → ℤ
unfolding find signed_number
get_int a k def = elim (find a.kv k) [
  | none ↦ def
  | some text ↦ elim (signed_number text) [
    | none ↦ def
    | some (neg, v, rest) ↦
        if (if neg then leb v (2 ^ 31) else ltb v (2 ^ 31)) then with_minus neg v else def
  ]
]

-- `a.kv[key] = value` and `a.flags[key] = true`.
unfoldable pub set_value : Bytes → Bytes → Args → Args
unfolding assign
set_value key value a = record { kv = assign key value a.kv; flags = a.flags }

unfoldable pub set_flag : Bytes → Args → Args
unfolding assign
set_flag key a = record { kv = a.kv; flags = assign key (codes "true") a.flags }

-- `argv[i + 1][0] != '-'`: an empty word has a zero byte there.
unfoldable pub is_value : Bytes → Bool
is_value [] = true
is_value (c ∷ cs) = if c == 0x2d then false else true

-- What a word is on its own.
pub data Word : Type 0 where
  option command : Bytes → Word
  help version ignored : Word

abbrev bare_word : Bytes → Word
bare_word tok =
    if same tok (codes "compile") || (same tok (codes "run") || same tok (codes "demo"))
    then command tok
    else if same tok (codes "help") || same tok (codes "-h")
    then help
    else if same tok (codes "version") || same tok (codes "-v")
    then version
    else ignored

unfoldable pub classify : Bytes → Word
unfolding same after_prefix
classify tok = elim (after_prefix (codes "--") tok) [ some key ↦ option key | none ↦ bare_word tok ]

-- The loop over the words. A command takes the word behind it, whatever that is.
unfoldable pub parse_words : List Bytes → Args → Args
unfolding classify set_value set_flag is_value
parse_words [] a = a
parse_words (tok ∷ []) a = elim (classify tok) [
  | option key ↦ set_flag key a
  | command name ↦ set_value name (codes "true") a
  | help ↦ set_flag (codes "help") a
  | version ↦ set_flag (codes "version") a
  | ignored ↦ a
]
parse_words (tok ∷ next ∷ rest) a = elim (classify tok) [
  | option key ↦ elim (is_value next) [
    | true ↦ parse_words rest (set_value key next a)
    | false ↦ parse_words (next ∷ rest) (set_flag key a)
  ]
  | command name ↦ parse_words rest (set_value name next a)
  | help ↦ parse_words (next ∷ rest) (set_flag (codes "help") a)
  | version ↦ parse_words (next ∷ rest) (set_flag (codes "version") a)
  | ignored ↦ parse_words (next ∷ rest) a
]

abbrev pub no_args : Args
no_args = record { kv = []; flags = [] }

unfoldable pub parse : List Bytes → Args
unfolding parse_words
parse argv = parse_words argv no_args

-- One of the tests: the mode so far, and how many were selected.
abbrev select : Args → Bytes → CompileOutputMode → CompileOutputMode × ℕ → CompileOutputMode × ℕ
select args name mode (m, selected) = if has args name then (mode, selected + 1) else (m, selected)

-- `none` is `valid = false`, whose message is always the same.
unfoldable pub resolve_compile_mode : Args → Option CompileOutputMode
unfolding has
resolve_compile_mode args =
    let (mode, selected) = select args (codes "sh") sh (
      select args (codes "asm") asm
        (select args (codes "elf") elf (select args (codes "bin") bin (elf, 0)))) in
    if ltb 1 selected then none else some mode

unfoldable pub parse_flag_output_mode : Bytes → Option CompileOutputMode
unfolding same
parse_flag_output_mode token =
    if same token (codes "--bin")
    then some bin
    else if same token (codes "--elf")
    then some elf
    else if same token (codes "--asm")
    then some asm
    else if same token (codes "--sh")
    then some sh
    else none
