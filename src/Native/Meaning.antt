-- ===== src/Native/Meaning.antt =====
-- What an executable writes for the lines of a source, read as `compile_source` reads them.
use optimized_nan_lang.Base.{
  Bool-cases, same, Bytes, codes, ℕ, refl, sym, ap, inl, inr, Bool, true, false, not, Option, none,
  some, List, [], append-nil, append_assoc, arith, ◌+◌, ◌≡◌, ◌∙◌, ◌||◌, ◌∷◌, ◌++◌, ◌==◌,
  if◌then◌else◌,
}
use optimized_nan_lang.Text.{normalize_source_line, starts_with_keyword, extract_quoted_string}
use optimized_nan_lang.Signal.{parse_pulse_or_emit}
use optimized_nan_lang.Native.Ok.{
  AllOk, if-AllOk, AllOk-ok, AllOk-of, then-AllOk, AllOk-map, both-AllOk, either-AllOk,
  swapped-AllOk, if-not,
}
use optimized_nan_lang.Bytecode.Compile.{malformed_say, malformed_signal, Result, ok, err}
use optimized_nan_lang.Native.Layout.{flat}
use optimized_nan_lang.Bytecode.Source.{
  Statement, ignored, conditional, looping, returning, halts, unsupported, says, signals, mmio,
  classify, classify_rest, read_mmio, starts_brace, ignored_keyword, read_statement,
}
use optimized_nan_lang.Bytecode.Meaning.{shown}
use optimized_nan_lang.Native.Program.{
  NativeProgram, linearized_if, linearized_loop, return_ignored, unsupported_statement, warn_native,
  write_text,
}
use optimized_nan_lang.Native.Parse.{
  first_reader, Reader, update, port_message, read_ui, starts_at, read_writer, read_native_line,
  read_native_lines, parse_native_program, source_contains_ui_directives,
}

-- The bytecode machine prints the value of an MMIO write, and an executable the line.
unfoldable pub native_shown : Bytes → Statement → Bytes
unfolding shown
native_shown line (mmio m) = codes "[mmio] " ++ (line ++ 10 ∷ [])
native_shown line s = shown s

unfoldable pub native_printed : List Bytes → Bytes
unfolding native_shown
native_printed [] = []
native_printed (raw ∷ lines) =
    native_shown (normalize_source_line raw) (read_statement raw) ++ native_printed lines

-- `s` is what the reader `r` becomes at a line that is the statement `st`.
Writes : Reader → Bytes → Statement → Reader → Type 0
unfolding native_shown
Writes r line st s = flat s.program.writes ≡ flat r.program.writes ++ native_shown line st

flat-append : (a b : List Bytes) → flat (a ++ b) ≡ flat a ++ flat b
flat-append [] b = refl
flat-append (t ∷ a) b = ap (λ x. t ++ x) (flat-append a b) ∙ sym (append_assoc t (flat a) (flat b))

write-flat : (ws : List Bytes) (text : Bytes) → flat (ws ++ text ∷ []) ≡ flat ws ++ text
write-flat ws text = flat-append ws (text ∷ []) ∙ ap (λ x. flat ws ++ x) (append-nil text)

halt-not_signal :
    (line : Bytes)
    → starts_with_keyword line (codes "halt") ≡ true
    → (starts_with_keyword line (codes "pulse") || starts_with_keyword line (codes "emit")) ≡ false
unfolding starts_with_keyword
halt-not_signal [] h = refl
halt-not_signal (c ∷ cs) h = ground arith

module _ (line_no : ℕ) (line : Bytes) (r : Reader) where
  -- A line that writes nothing.
  same-Writes :
      (st : Statement) (s : Reader)
      → native_shown line st ≡ []
      → s.program.writes ≡ r.program.writes
      → Writes r line st s
  unfolding Writes
  same-Writes st s h e = rw h (rw append-nil (ap flat e))

  text-Writes :
      (st : Statement) (text : Bytes) (ops : ℕ)
      → native_shown line st ≡ text
      → Writes r line st (update (write_text text ops) r)
  unfolding Writes
  text-Writes st text ops h =
      write-flat r.program.writes text ∙ ap (λ x. flat r.program.writes ++ x) (sym h)

  say-Writes :
      (o : Option Bytes)
      → AllOk (Writes r line (says o)) (elim o as (λ o. Result Reader) [
        | none ↦ err (malformed_say line_no)
        | some text ↦ ok (update (write_text (text ++ 10 ∷ []) 1) r)
      ])
  unfolding AllOk native_shown
  say-Writes none = tt
  say-Writes (some text) = text-Writes (says (some text)) _ 1 refl

  signal-Writes :
      (o : Option (Bool × ℕ))
      → AllOk (Writes r line (signals o)) (elim o as (λ o. Result Reader) [
        | none ↦ err (malformed_signal line_no)
        | some (is_pulse, signal) ↦ ok (update (write_text (port_message is_pulse signal) 2) r)
      ])
  unfolding AllOk native_shown port_message
  signal-Writes none = tt
  signal-Writes (some (true, signal)) = text-Writes (signals (some (true, signal))) _ 2 refl
  signal-Writes (some (false, signal)) = text-Writes (signals (some (false, signal))) _ 2 refl

  quiet-AllOk :
      (st : Statement) (s : Reader)
      → native_shown line st ≡ []
      → s.program.writes ≡ r.program.writes
      → AllOk (Writes r line st) (ok s)
  quiet-AllOk st s h e = AllOk-ok (Writes r line st) s (same-Writes st s h e)

  if-quiet :
      (st : Statement) (b : Bool) (s : Reader)
      → native_shown line st ≡ []
      → s.program.writes ≡ r.program.writes
      → AllOk (Writes r line st) (ok (if b then r else s))
  if-quiet st true s h e = quiet-AllOk st r h refl
  if-quiet st false s h e = quiet-AllOk st s h e

rest-Writes :
    (line_no : ℕ) (line : Bytes) (r : Reader)
    → AllOk (Writes r line (classify_rest line)) (
        if starts_at line
        then ok (update (write_text (codes "[mmio] " ++ (line ++ 10 ∷ [])) 1) r)
        else if starts_with_keyword line (codes "@macro")
            || (starts_with_keyword line (codes "NAN3")
                || starts_with_keyword line (codes "@nan_magic"))
        then ok r
        else ok (update (warn_native (unsupported_statement line_no)) r))
unfolding classify_rest starts_at native_shown
rest-Writes line_no [] r =
    if-AllOk _ _ _ _ (quiet-AllOk line_no [] r unsupported _ refl refl)
      (quiet-AllOk line_no [] r unsupported _ refl refl)
rest-Writes line_no (c ∷ cs) r =
    both-AllOk (Writes r (c ∷ cs)) _ _ _ _ _
      (AllOk-ok _ _ (text-Writes line_no (c ∷ cs) r (mmio (read_mmio cs)) _ 1 refl))
      (both-AllOk (Writes r (c ∷ cs)) _ ignored unsupported _ _
        (quiet-AllOk line_no (c ∷ cs) r ignored _ refl refl)
        (quiet-AllOk line_no (c ∷ cs) r unsupported _ refl refl))

-- A line that is not a directive of the user interface.
read_native_line-Writes :
    (line_no : ℕ) (line : Bytes) (r : Reader)
    → starts_with_keyword line (codes "ui") ≡ false
    → AllOk (Writes r line (classify line)) (read_native_line line_no line r)
unfolding read_native_line read_writer classify native_shown
read_native_line-Writes line_no line r no_ui =
    either-AllOk w (same line [])
      (same line (codes "{") || (same line (codes "}") || same line (codes "};")))
      (starts_brace line) _ _ _ _ (quiet ignored r refl refl)
      (both-AllOk w
        (starts_with_keyword line (codes "if") || starts_with_keyword line (codes "else")) _ _ _ _
        (if-quiet line_no line r conditional r.warned_if
          (record (update (warn_native (linearized_if line_no)) r) { warned_if = true }) refl refl)
        (both-AllOk w
          (starts_with_keyword line (codes "loop") || starts_with_keyword line (codes "break")) _ _
          _ _
          (if-quiet line_no line r looping r.warned_loop
            (record (update (warn_native (linearized_loop line_no)) r) { warned_loop = true }) refl
            refl)
          (both-AllOk w (starts_with_keyword line (codes "return")) _ _ _ _
            (if-quiet line_no line r returning r.warned_return
              (record (update (warn_native (return_ignored line_no)) r) { warned_return = true })
              refl refl)
            (both-AllOk w (ignored_keyword line) _ _ _ _ (quiet ignored r refl refl) (
              both-AllOk w (starts_with_keyword line (codes "say"))
                (says (extract_quoted_string line)) _ _ _
                (say-Writes line_no line r (extract_quoted_string line))
                (if-not (AllOk (w _)) (starts_with_keyword line (codes "ui"))
                  (ok (read_ui line_no line r)) _ no_ui
                  (swapped-AllOk w (starts_with_keyword line (codes "halt"))
                    (starts_with_keyword line (codes "pulse")
                      || starts_with_keyword line (codes "emit"))
                    halts (signals (parse_pulse_or_emit line)) (classify_rest line)
                    (ok (
                      update (λ p. record p { has_halt = true; emitted_ops = p.emitted_ops + 1 })
                        r))
                    _ _ (halt-not_signal line)
                    (quiet halts
                      (update (λ p. record p { has_halt = true; emitted_ops = p.emitted_ops + 1 })
                        r)
                      refl refl)
                    (signal-Writes line_no line r (parse_pulse_or_emit line))
                    (rest-Writes line_no line r))))))))
  where
    w : Statement → Reader → Type 0
    w = Writes r line

    quiet :
        (st : Statement) (s : Reader)
        → native_shown line st ≡ []
        → s.program.writes ≡ r.program.writes
        → AllOk (w st) (ok s)
    quiet = quiet-AllOk line_no line r

read_native_lines-flat :
    (line_no : ℕ) (lines : List Bytes) (r : Reader)
    → source_contains_ui_directives lines ≡ false
    → AllOk
        (λ s. flat s.program.writes ≡ flat r.program.writes ++ native_printed lines)
        (read_native_lines line_no lines r)
unfolding Writes read_native_lines native_printed source_contains_ui_directives read_statement
read_native_lines-flat line_no [] r h = AllOk-ok _ r (sym (append-nil _))
read_native_lines-flat line_no (raw ∷ lines) r h =
    then-AllOk _ _ _ _
      (read_native_line-Writes line_no (normalize_source_line raw) r (ground (arith, h)))
      (λ s hs.
        AllOk-map _ _ _
          (λ t ht.
            ht
            ∙ ap (λ x. x ++ native_printed lines) hs
            ∙ append_assoc (flat r.program.writes) _ (native_printed lines))
          (read_native_lines-flat (line_no + 1) lines s (ground (arith, h))))

-- A source without UI directives that is read without an error: the texts of the program are what its lines
-- print.
pub flat-parse_native_program :
    (lines : List Bytes) (p : NativeProgram)
    → source_contains_ui_directives lines ≡ false
    → parse_native_program (some lines) ≡ ok p
    → flat p.writes ≡ native_printed lines
unfolding parse_native_program
flat-parse_native_program lines p h e =
    AllOk-of (λ p. flat p.writes ≡ native_printed lines) _ p
      (then-AllOk _ (λ p. flat p.writes ≡ native_printed lines) _ _
        (read_native_lines-flat 1 lines first_reader h)
        (λ r hr. AllOk-ok (λ p. flat p.writes ≡ native_printed lines) _ (closed r.program hr)))
      e
  where
    closed :
        (q : NativeProgram)
        → flat q.writes ≡ native_printed lines
        → flat
            (if not q.has_halt || q.emitted_ops == 0
              then record q { has_halt = true; emitted_ops = q.emitted_ops + 1 }
              else q).writes
          ≡ native_printed lines
    closed q hq = elim (Bool-cases (not q.has_halt || q.emitted_ops == 0)) [
      | inl b ↦ rw b hq
      | inr b ↦ rw b hq
    ]
