-- ===== src/Native/Parse.antt =====
-- `parse_native_program` and `source_contains_ui_directives` of src/nanlang_cpp.cpp.
use optimized_nan_lang.Base.{
  same, Bytes, codes, ℕ, Bool, true, false, not, Option, none, some, List, [], ◌+◌, ◌||◌, ◌∷◌, ◌++◌,
  ◌==◌, if◌then◌else◌,
}
use optimized_nan_lang.Text.{normalize_source_line, starts_with_keyword, extract_quoted_string}
use optimized_nan_lang.Native.Program.{
  NativeProgram, linearized_if, linearized_loop, return_ignored, unsupported_ui,
  unsupported_statement, warn_native, write_text,
}
use optimized_nan_lang.Ui.Directive.{handle_ui_directive}
use optimized_nan_lang.Signal.{parse_pulse_or_emit, signal_name}
use optimized_nan_lang.Bytecode.Source.{starts_brace, ignored_keyword}
use optimized_nan_lang.Bytecode.Compile.{
  source_not_found, malformed_say, malformed_signal, Result, ok, err, ◌>>=◌,
}

-- The variables of the loop.
pub record Reader : Type 0 where
  pub program : NativeProgram
  pub warned_if : Bool
  pub warned_loop : Bool
  pub warned_return : Bool

abbrev pub update : (NativeProgram → NativeProgram) → Reader → Reader
update f r = record r { program = f r.program }

unfoldable pub port_message : Bool → ℕ → Bytes
unfolding signal_name
port_message is_pulse signal =
    (if is_pulse then codes "[pulse] " else codes "[emit] ") ++ (signal_name signal ++ 10 ∷ [])

unfoldable pub starts_at : Bytes → Bool
starts_at [] = false
starts_at (c ∷ cs) = c == 0x40

unfoldable pub read_ui : ℕ → Bytes → Reader → Reader
unfolding handle_ui_directive
read_ui line_no line r =
    let (p, known) = handle_ui_directive line line_no r.program in
    record r { program = if known then p else warn_native (unsupported_ui line_no) p }

-- The statements that write, from `say` on.
unfoldable pub read_writer : ℕ → Bytes → Reader → Result Reader
unfolding read_ui starts_with_keyword extract_quoted_string parse_pulse_or_emit port_message
    starts_at
read_writer line_no line r =
    if starts_with_keyword line (codes "say")
    then elim (extract_quoted_string line) [
      | none ↦ err (malformed_say line_no)
      | some text ↦ ok (update (write_text (text ++ 10 ∷ []) 1) r)
    ]
    else if starts_with_keyword line (codes "ui")
    then ok (read_ui line_no line r)
    else if starts_with_keyword line (codes "pulse") || starts_with_keyword line (codes "emit")
    then elim (parse_pulse_or_emit line) [
      | none ↦ err (malformed_signal line_no)
      | some (is_pulse, signal) ↦ ok (update (write_text (port_message is_pulse signal) 2) r)
    ]
    else if starts_with_keyword line (codes "halt")
    then ok (update (λ p. record p { has_halt = true; emitted_ops = p.emitted_ops + 1 }) r)
    else if starts_at line
    then ok (update (write_text (codes "[mmio] " ++ (line ++ 10 ∷ [])) 1) r)
    else if starts_with_keyword line (codes "@macro")
        || (starts_with_keyword line (codes "NAN3")
            || starts_with_keyword line (codes "@nan_magic"))
    then ok r
    else ok (update (warn_native (unsupported_statement line_no)) r)

-- A normalized line.
unfoldable pub read_native_line : ℕ → Bytes → Reader → Result Reader
unfolding same starts_brace ignored_keyword read_writer
read_native_line line_no line r =
    if same line []
      || (same line (codes "{") || (same line (codes "}") || same line (codes "};")))
      || starts_brace line
    then ok r
    else if starts_with_keyword line (codes "if") || starts_with_keyword line (codes "else")
    then ok (
        if r.warned_if
        then r
        else record (update (warn_native (linearized_if line_no)) r) { warned_if = true })
    else if starts_with_keyword line (codes "loop") || starts_with_keyword line (codes "break")
    then ok (
        if r.warned_loop
        then r
        else record (update (warn_native (linearized_loop line_no)) r) { warned_loop = true })
    else if starts_with_keyword line (codes "return")
    then ok (
        if r.warned_return
        then r
        else record (update (warn_native (return_ignored line_no)) r) { warned_return = true })
    else if ignored_keyword line
    then ok r
    else read_writer line_no line r

unfoldable pub read_native_lines : ℕ → List Bytes → Reader → Result Reader
unfolding read_native_line normalize_source_line
read_native_lines line_no [] r = ok r
read_native_lines line_no (raw ∷ lines) r =
    read_native_line line_no (normalize_source_line raw) r >>= read_native_lines (line_no + 1) lines

abbrev pub first_reader : Reader
first_reader = record {
  program = record { writes = []; warning_lines = []; emitted_ops = 0; has_halt = false };
  warned_if = false;
  warned_loop = false;
  warned_return = false;
}

-- `none` for the lines is a file that does not open.
unfoldable pub parse_native_program : Option (List Bytes) → Result NativeProgram
unfolding read_native_lines
parse_native_program none = err source_not_found
parse_native_program (some lines) = read_native_lines 1 lines first_reader >>= (λ r. ok (
    if not r.program.has_halt || r.program.emitted_ops == 0
    then record r.program { has_halt = true; emitted_ops = r.program.emitted_ops + 1 }
    else r.program))

unfoldable pub source_contains_ui_directives : List Bytes → Bool
unfolding normalize_source_line starts_with_keyword
source_contains_ui_directives [] = false
source_contains_ui_directives (raw ∷ lines) =
    starts_with_keyword (normalize_source_line raw) (codes "ui")
    || source_contains_ui_directives lines
