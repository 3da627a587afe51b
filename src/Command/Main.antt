-- ===== src/Command/Main.antt =====
-- fast_path_compile_run and main of src/nanlang_cpp.cpp: what the program does with the words behind its
-- name, as a value. `is_nan3` says of a path whether its file begins with the magic of NAN3 bytecode.
use optimized_nan_lang.Base.{
  ltb, same, ℤ, pos, negsuc, Bytes, codes, ℕ, Bool, true, false, Option, none, some, List, [], ◌+◌,
  ◌-◌, ◌/◌, ◌%◌, ◌||◌, ◌∷◌, ◌==◌, if◌then◌else◌,
}
use optimized_nan_lang.Text.{after_prefix}
use optimized_nan_lang.Cache.{CompileOutputMode, bin, elf}
use optimized_nan_lang.Command.{Args, has, get, get_int, parse, parse_flag_output_mode}

pub data Complaint : Type 0 where
  missing_scene missing_source missing_output_value many_modes missing_target bytecode_removed :
      Complaint
  unknown_demo : Bytes → Complaint
  invalid_arguments : Complaint

-- The calls that follow; a complaint is printed, and its exit status is 1. Without words the help is
-- printed with that status too.
pub data Action : Type 0 where
  render_ui_scene run_native_file : Bytes → Action
  compile_to_binary compile_to_elf : Bytes → Bytes → Action
  print_help print_version usage : Action
  pulse_demo : ℤ → ℕ → Action
  signal_buffer_demo : ℤ → Action
  complain : Complaint → Action

-- The variables of the loop over the options of `--compile`.
pub record FastOptions : Type 0 where
  pub out : Bytes
  pub mode : CompileOutputMode
  pub mode_count : ℕ

unfoldable pub set_mode : CompileOutputMode → FastOptions → FastOptions
set_mode mode o = record o { mode = mode; mode_count = o.mode_count + 1 }

unfoldable pub set_out : Bytes → FastOptions → FastOptions
set_out out o = record o { out = out }

pub data FastWord : Type 0 where
  mode_word : CompileOutputMode → FastWord
  output_word skipped_word : FastWord
  output_equals : Bytes → FastWord

-- The tests of the loop, in their order.
unfoldable pub fast_word : Bytes → FastWord
unfolding parse_flag_output_mode same after_prefix
fast_word tok = elim (parse_flag_output_mode tok) [
  | some mode ↦ mode_word mode
  | none ↦
      if same tok (codes "--aot")
      then skipped_word
      else if same tok (codes "--output")
      then output_word
      else elim (after_prefix (codes "--output=") tok) [
        | some out ↦ output_equals out
        | none ↦ skipped_word
      ]
]

-- `none` is a missing value of `--output`.
unfoldable pub fast_options : List Bytes → FastOptions → Option FastOptions
unfolding fast_word set_mode set_out
fast_options [] o = some o
fast_options (tok ∷ []) o = elim (fast_word tok) [
  | mode_word mode ↦ some (set_mode mode o)
  | skipped_word ↦ some o
  | output_word ↦ none
  | output_equals out ↦ some (set_out out o)
]
fast_options (tok ∷ next ∷ rest) o = elim (fast_word tok) [
  | mode_word mode ↦ fast_options (next ∷ rest) (set_mode mode o)
  | skipped_word ↦ fast_options (next ∷ rest) o
  | output_word ↦ fast_options rest (set_out next o)
  | output_equals out ↦ fast_options (next ∷ rest) (set_out out o)
]

abbrev pub first_options : FastOptions
first_options = record { out = codes "output.elf"; mode = elf; mode_count = 0 }

abbrev pub is_bin : CompileOutputMode → Bool
is_bin bin = true
is_bin other = false

-- Every mode but `--bin` makes an executable.
unfoldable pub compile_action : Bool → Bytes → Bytes → Action
compile_action binary src out = if binary then compile_to_binary src out else compile_to_elf src out

abbrev pub is_empty : Bytes → Bool
is_empty [] = true
is_empty (c ∷ cs) = false

unfoldable pub fast_compile : Bytes → List Bytes → Action
unfolding fast_options compile_action
fast_compile src rest =
    if is_empty src then complain missing_source else elim (fast_options rest first_options) [
      | none ↦ complain missing_output_value
      | some o ↦
          if ltb 1 o.mode_count
          then complain many_modes
          else compile_action (is_bin o.mode) src o.out
    ]

-- The exit status of `waitpid`: a signal gives 128 and its number.
unfoldable pub decode_wait_status : ℤ → ℕ
decode_wait_status (negsuc n) = 1
decode_wait_status (pos n) =
    if n % 128 == 0 then n / 256 % 256 else if n % 128 == 127 then 1 else 128 + n % 128

unfoldable pub run_target : (Bytes → Bool) → Bytes → Action
run_target is_nan3 target =
    if is_nan3 target then complain bytecode_removed else run_native_file target

-- `none` leaves the words to `main`.
unfoldable pub fast_path_compile_run : (Bytes → Bool) → List Bytes → Option Action
unfolding fast_compile run_target same
fast_path_compile_run is_nan3 (verb ∷ target ∷ rest) =
    if same verb (codes "--ui-render")
    then some (if is_empty target then complain missing_scene else render_ui_scene target)
    else if same verb (codes "--compile")
    then some (fast_compile target rest)
    else if same verb (codes "--run")
    then some (if is_empty target then complain missing_target else run_target is_nan3 target)
    else none
fast_path_compile_run is_nan3 short = none

-- `src.empty() || src == "true"`
abbrev pub is_missing : Bytes → Bool
is_missing text = is_empty text || same text (codes "true")

-- `& 0xFF` of an `int`.
abbrev low_byte : ℤ → ℕ
low_byte (pos n) = n % 256
low_byte (negsuc n) = 255 - n % 256

demo_action : Args → Action
unfolding get get_int same
demo_action args =
    let name = get args (codes "demo") (codes "pulse") in
    if same name (codes "pulse")
    then pulse_demo (get_int args (codes "count") (pos 64))
        (low_byte (get_int args (codes "pattern") (pos 0xaa)))
    else if same name (codes "sigbuf")
    then signal_buffer_demo (get_int args (codes "count") (pos 64))
    else complain (unknown_demo name)

unfoldable pub args_action : (Bytes → Bool) → Args → Action
unfolding has get compile_action run_target demo_action same
args_action is_nan3 args =
    if has args (codes "help")
    then print_help
    else if has args (codes "version")
    then print_version
    else if has args (codes "ui-render")
    then (let src = get args (codes "ui-render") [] in
        if is_missing src then complain missing_scene else render_ui_scene src)
    else if has args (codes "compile")
    then (let src = get args (codes "compile") [] in
        if is_missing src
        then complain missing_source
        else compile_action (has args (codes "bin")) src
            (get args (codes "output") (codes "output.elf")))
    else if has args (codes "run")
    then (let target = get args (codes "run") [] in
        if is_missing target then complain missing_target else run_target is_nan3 target)
    else if has args (codes "demo")
    then demo_action args
    else complain invalid_arguments

unfoldable pub main : (Bytes → Bool) → List Bytes → Action
unfolding fast_path_compile_run args_action parse
main is_nan3 [] = usage
main is_nan3 (word ∷ words) = elim (fast_path_compile_run is_nan3 (word ∷ words)) [
  | some action ↦ action
  | none ↦ args_action is_nan3 (parse (word ∷ words))
]
