-- ===== src/Native/Counts.antt =====
-- The operation count of a native program covers its writes and its halt.
use optimized_nan_lang.Base.{
  Bool-cases, length, length-append, Bytes, ℕ, inl, inr, Bool, true, false, not, Option, none, some,
  List, [], arith, ◌+◌, ◌≤◌, ◌<◌, ◌≡◌, ◌||◌, ◌∷◌, ◌++◌, ◌==◌, if◌then◌else◌,
}
use optimized_nan_lang.Text.{extract_quoted_string, normalize_source_line}
use optimized_nan_lang.Signal.{parse_pulse_or_emit}
use optimized_nan_lang.Bytecode.Compile.{malformed_say, malformed_signal, ok, err}
use optimized_nan_lang.Native.Ok.{AllOk, if-AllOk, AllOk-ok, AllOk-of, then-AllOk}
use optimized_nan_lang.Native.Program.{
  NativeProgram, NativeWarning, linearized_if, linearized_loop, return_ignored, warn_native,
  write_text,
}
use optimized_nan_lang.Native.Parse.{
  first_reader, Reader, read_ui, update, port_message, read_writer, read_native_line,
  read_native_lines, parse_native_program,
}
use optimized_nan_lang.Ui.Directive.{handle_ui_directive}
use optimized_nan_lang.Ui.Balance.{IsBalanced, handle_ui_directive-IsBalanced}

-- Each write is counted, and the halt too.
IsCounted : NativeProgram → Type 0
IsCounted p = length p.writes + (if p.has_halt then 1 else 0) ≤ p.emitted_ops

IsCounted-of_balanced : (p q : NativeProgram) → IsBalanced p q → IsCounted p → IsCounted q
unfolding IsBalanced IsCounted
IsCounted-of_balanced p q (ops, halt) h = rw halt (omega (arith, ops, h))

write_text-IsCounted :
    (text : Bytes) (ops : ℕ) (p : NativeProgram)
    → 1 ≤ ops
    → IsCounted p
    → IsCounted (write_text text ops p)
unfolding IsCounted
write_text-IsCounted text ops p le h = omega (arith, length-append p.writes (text ∷ []), le, h)

halt-IsCounted :
    (p : NativeProgram)
    → IsCounted p
    → IsCounted (record p { has_halt = true; emitted_ops = p.emitted_ops + 1 })
unfolding IsCounted
halt-IsCounted p h = ground arith

if-IsCounted :
    (b : Bool) (r s : Reader)
    → IsCounted r.program
    → IsCounted s.program
    → IsCounted (if b then r else s).program
if-IsCounted true r s hr hs = hr
if-IsCounted false r s hr hs = hs

abbrev ReaderCounted : Reader → Type 0
ReaderCounted s = IsCounted s.program

module _ (line_no : ℕ) (line : Bytes) (r : Reader) (h : IsCounted r.program) where
  read_ui-IsCounted : IsCounted (read_ui line_no line r).program
  unfolding read_ui IsCounted
  read_ui-IsCounted = elim (Bool-cases (handle_ui_directive line line_no r.program).1) [
    | inl e ↦
        rw e (IsCounted-of_balanced _ _ (handle_ui_directive-IsBalanced line line_no r.program) h)
    | inr e ↦
        rw e (IsCounted-of_balanced _ _ (handle_ui_directive-IsBalanced line line_no r.program) h)
  ]

  say-IsCounted :
      (o : Option Bytes)
      → AllOk ReaderCounted (elim o [
        | none ↦ err (malformed_say line_no)
        | some text ↦ ok (update (write_text (text ++ 10 ∷ []) 1) r)
      ])
  unfolding AllOk
  say-IsCounted none = tt
  say-IsCounted (some text) = write_text-IsCounted _ 1 r.program (omega arith) h

  signal-IsCounted :
      (o : Option (Bool × ℕ))
      → AllOk ReaderCounted (elim o [
        | none ↦ err (malformed_signal line_no)
        | some (is_pulse, signal) ↦ ok (update (write_text (port_message is_pulse signal) 2) r)
      ])
  unfolding AllOk
  signal-IsCounted none = tt
  signal-IsCounted (some (is_pulse, signal)) = write_text-IsCounted _ 2 r.program (omega arith) h

  same-IsCounted : AllOk ReaderCounted (ok r)
  same-IsCounted = AllOk-ok ReaderCounted r h

  warn-IsCounted : (w : NativeWarning) → IsCounted (update (warn_native w) r).program
  unfolding IsCounted
  warn-IsCounted w = h

  read_writer-IsCounted : AllOk ReaderCounted (read_writer line_no line r)
  unfolding read_writer
  read_writer-IsCounted = if-AllOk _ _ _ _ (say-IsCounted (extract_quoted_string line)) (
      if-AllOk _ _ _ _ (AllOk-ok _ _ read_ui-IsCounted) (
        if-AllOk _ _ _ _ (signal-IsCounted (parse_pulse_or_emit line)) (
          if-AllOk _ _ _ _ (AllOk-ok _ _ (halt-IsCounted r.program h)) (
            if-AllOk _ _ _ _ (AllOk-ok _ _ (write_text-IsCounted _ 1 r.program (omega arith) h))
              (if-AllOk _ _ _ _ same-IsCounted (AllOk-ok _ _ (warn-IsCounted _)))))))

  read_native_line-IsCounted : AllOk ReaderCounted (read_native_line line_no line r)
  unfolding read_native_line IsCounted
  read_native_line-IsCounted = if-AllOk _ _ _ _ same-IsCounted (
      if-AllOk _ _ _ _
        (AllOk-ok _ _ (
          if-IsCounted r.warned_if r
            (record (update (warn_native (linearized_if line_no)) r) { warned_if = true }) h h))
        (if-AllOk _ _ _ _
          (AllOk-ok _ _ (
            if-IsCounted r.warned_loop r
              (record (update (warn_native (linearized_loop line_no)) r) { warned_loop = true }) h
              h))
          (if-AllOk _ _ _ _
            (AllOk-ok _ _ (
              if-IsCounted r.warned_return r
                (record (update (warn_native (return_ignored line_no)) r) { warned_return = true })
                h h))
            (if-AllOk _ _ _ _ same-IsCounted read_writer-IsCounted))))

read_native_lines-IsCounted :
    (line_no : ℕ) (lines : List Bytes) (r : Reader)
    → IsCounted r.program
    → AllOk ReaderCounted (read_native_lines line_no lines r)
unfolding read_native_lines
read_native_lines-IsCounted line_no [] r h = same-IsCounted line_no [] r h
read_native_lines-IsCounted line_no (raw ∷ lines) r h =
    then-AllOk ReaderCounted ReaderCounted _ _
      (read_native_line-IsCounted line_no (normalize_source_line raw) r h)
      (λ s hs. read_native_lines-IsCounted (line_no + 1) lines s hs)

-- A whole program: it halts, and the halt is counted besides the writes.
unfoldable pub IsClosed : NativeProgram → Type 0
IsClosed p = (p.has_halt ≡ true) × (length p.writes < p.emitted_ops)

-- The end of `parse_native_program`.
IsClosed-of_counted :
    (p : NativeProgram)
    → IsCounted p
    → IsClosed (
        if not p.has_halt || p.emitted_ops == 0
        then record p { has_halt = true; emitted_ops = p.emitted_ops + 1 }
        else p)
unfolding IsCounted IsClosed
IsClosed-of_counted p h = ground arith

first_reader-IsCounted : IsCounted first_reader.program
unfolding IsCounted
first_reader-IsCounted = omega arith

-- A native program that was read without an error has its halt, and its operation count is larger than
-- the number of its writes.
pub parse_native_program-IsClosed :
    (file : Option (List Bytes)) (p : NativeProgram) → parse_native_program file ≡ ok p → IsClosed p
unfolding parse_native_program
parse_native_program-IsClosed none p e = ground arith
parse_native_program-IsClosed (some lines) p e =
    AllOk-of IsClosed _ p
      (then-AllOk ReaderCounted IsClosed _ _
        (read_native_lines-IsCounted 1 lines first_reader first_reader-IsCounted)
        (λ r h. AllOk-ok IsClosed _ (IsClosed-of_counted r.program h)))
      e
