-- ===== src/Bytecode/Errors.antt =====
-- How `compile_source` and `run_bytecode` fail.
use optimized_nan_lang.Base.{
  ltb, same, length, take, drop, Bytes, codes, ℕ, zero, suc, refl, sym, ap, inl, inr, Bool, true,
  false, Option, none, some, List, [], map, arith, ◌+◌, ◌≤◌, ◌≡◌, ◌∙◌, ◌≢◌, ◌↔◌, ◌⊎◌, ◌∷◌, ◌==◌,
  if◌then◌else◌,
}
use optimized_nan_lang.Words.{read_u32_le_ptr}
use optimized_nan_lang.Bytecode.Source.{Statement, says, signals, mmio, too_large, read_statement}
use optimized_nan_lang.Bytecode.Compile.{
  Compile, Failure, Result, ok, err, start, compile_statement, compile_lines, compile_source,
  finish, malformed_say, malformed_signal, mmio_too_large,
}
use optimized_nan_lang.Bytecode.Run.{
  Outcome, Step, next, stop, stuck, say_step, load_step, store_step, run_step, run_loop,
  run_bytecode,
}

-- What is wrong with a statement at line `n`.
unfoldable pub fault : ℕ → Statement → Option Failure
fault n (says none) = some (malformed_say n)
fault n (signals none) = some (malformed_signal n)
fault n (mmio too_large) = some (mmio_too_large n)
fault n _ = none

unfoldable pub first_fault : ℕ → List Statement → Option Failure
first_fault n [] = none
first_fault n (s ∷ ss) = elim (fault n s) [ some f ↦ some f | none ↦ first_fault (n + 1) ss ]

compile_statement_cases :
    (n : ℕ) (s : Statement) (st : Compile)
    → ((f : Failure) × (fault n s ≡ some f) × (compile_statement n s st ≡ err f))
      ⊎ ((st' : Compile) × (fault n s ≡ none) × (compile_statement n s st ≡ ok st'))
unfolding fault compile_statement
compile_statement_cases n (says none) st = inl (_, refl, refl)
compile_statement_cases n (says (some t)) st = inr (_, refl, refl)
compile_statement_cases n (signals none) st = inl (_, refl, refl)
compile_statement_cases n (signals (some (p, s))) st = inr (_, refl, refl)
compile_statement_cases n (mmio too_large) st = inl (_, refl, refl)
compile_statement_cases n _ st = inr (_, refl, refl)

compile_lines_cases :
    (n : ℕ) (ls : List Bytes) (st : Compile)
    → ((f : Failure) × (first_fault n (map read_statement ls) ≡ some f)
        × (compile_lines n ls st ≡ err f))
      ⊎ ((st' : Compile) × (first_fault n (map read_statement ls) ≡ none)
          × (compile_lines n ls st ≡ ok st'))
unfolding compile_lines first_fault
compile_lines_cases n [] st = inr (st, refl, refl)
compile_lines_cases n (l ∷ ls) st = elim (compile_statement_cases n (read_statement l) st) [
  | inl (f, p, q) ↦ inl (f, rw (p, first_fault), rw (q, compile_lines))
  | inr (mid, p, q) ↦ elim (compile_lines_cases (n + 1) ls mid) [
    | inl (f, p', q') ↦ inl (f, rw (p, first_fault) p', rw (q, compile_lines) q')
    | inr (st', p', q') ↦ inr (st', rw (p, first_fault) p', rw (q, compile_lines) q')
  ]
]

-- `compile_source` fails exactly when a statement is malformed, with the error of the first such
-- statement and its line, counted from 1.
pub compile_source-err_iff :
    (lines : List Bytes) (f : Failure)
    → (compile_source lines ≡ err f) ↔ (first_fault 1 (map read_statement lines) ≡ some f)
compile_source-err_iff lines f = elim (compile_lines_cases 1 lines start) [
  | inl (g, p, q) ↦ (
    λ e. p ∙ ap some (same_failure g f (sym (failed g q) ∙ e)),
    λ e. failed g q ∙ ap err (same_some g f (sym p ∙ e)),
  )
  | inr (st, p, q) ↦ (
    λ e. absurd (ok_ne_err (finish st) f (sym (passed st q) ∙ e)),
    λ e. absurd (none_ne f (sym p ∙ e)),
  )
]
  where
    failed : (g : Failure) → compile_lines 1 lines start ≡ err g → compile_source lines ≡ err g
    failed g q = unfold compile_source in rw q

    passed :
        (st : Compile) → compile_lines 1 lines start ≡ ok st → compile_source lines ≡ ok (finish st)
    passed st q = unfold compile_source in rw q

    same_failure : (g f : Failure) → ◌≡◌ {A = Result Compile} (err g) (err f) → g ≡ f
    same_failure g f e = cc

    same_some : (g f : Failure) → some g ≡ some f → g ≡ f
    same_some g f e = cc

    ok_ne_err : (st : Compile) (f : Failure) → ◌≡◌ {A = Result Compile} (ok st) (err f) → ⊥
    ok_ne_err st f e = cc

    none_ne : (f : Failure) → ◌≡◌ {A = Option Failure} none (some f) → ⊥
    none_ne f e = cc

-- A round reads on behind what it read, or stops with an outcome of the program.
data Shrinks (n : ℕ) : Step → Type 0 where
  goes : {a : ℕ} {o : Bytes} {q : ℕ} {r : Bytes} → length r ≤ n → Shrinks n (next a o q r)
  stops : {r : Outcome} → r ≢ stuck → Shrinks n (stop r)

length-drop-le : (n : ℕ) (p : Bytes) → length (drop n p) ≤ length p
length-drop-le zero p = omega arith
length-drop-le (suc n) [] = omega arith
length-drop-le (suc n) (c ∷ p) = omega (arith, length-drop-le n p)

Shrinks-if :
    (b : Bool) {s t : Step} {n : ℕ} → Shrinks n s → Shrinks n t → Shrinks n (if b then s else t)
Shrinks-if true hs ht = hs
Shrinks-if false hs ht = ht

say_step-Shrinks : (pos acc : ℕ) (out p : Bytes) → Shrinks (length p) (say_step pos acc out p)
unfolding say_step
say_step-Shrinks pos acc out (a ∷ b ∷ c ∷ d ∷ p) =
    let len = read_u32_le_ptr a b c d in
    Shrinks-if (ltb (length p) len) (stops (λ e. cc)) (goes (omega (arith, length-drop-le len p)))
say_step-Shrinks pos acc out [] = stops (λ e. cc)
say_step-Shrinks pos acc out _ = stops (λ e. cc)

run_step-Shrinks :
    (pos acc : ℕ) (out : Bytes) (op : ℕ) (p : Bytes)
    → Shrinks (length p) (run_step pos acc out op p)
unfolding run_step
run_step-Shrinks pos acc out op p = Shrinks-if (op == 0x01) (stops (λ e. cc)) (
    Shrinks-if (op == 0x02) (say_step-Shrinks pos acc out p)
      (Shrinks-if (op == 0x03) (load p) (Shrinks-if (op == 0x04) (store p) (stops (λ e. cc)))))
  where
    load : (p : Bytes) → Shrinks (length p) (load_step pos out p)
    load [] = stops (λ e. cc)
    load (v ∷ p) = goes (omega arith)

    store : (p : Bytes) → Shrinks (length p) (store_step pos acc out p)
    store [] = stops (λ e. cc)
    store (a ∷ p) = goes (omega arith)

run_loop-ne-stuck :
    (fuel pos acc : ℕ) (out p : Bytes) → length p ≤ fuel → run_loop fuel pos acc out p ≢ stuck
unfolding run_loop
run_loop-ne-stuck fuel pos acc out [] h = λ e. cc
run_loop-ne-stuck zero pos acc out (op ∷ p) h = absurd (omega arith)
run_loop-ne-stuck (suc fuel) pos acc out (op ∷ p) h =
    go (run_step-Shrinks pos acc out op p) (λ a o q r h. run_loop-ne-stuck fuel q a o r h)
  where
    go :
        {s : Step}
        → Shrinks (length p) s
        → ((a : ℕ) (o : Bytes) (q : ℕ) (r : Bytes)
            → length r ≤ fuel
            → run_loop fuel q a o r ≢ stuck)
        → (elim s as (λ _. Outcome) [
          | stop r ↦ r
          | next acc' out' pos' p' ↦ run_loop fuel pos' acc' out' p'
        ])
          ≢ stuck
    go (stops ne) ih = ne
    go (goes le) ih = ih _ _ _ _ (omega arith)

-- The machine stops on every file: a round for each byte of the file is enough.
pub run_bytecode-ne-stuck : (bytes : Bytes) → run_bytecode bytes ≢ stuck
unfolding run_bytecode
run_bytecode-ne-stuck bytes =
    if_ne (ltb (length bytes) 4) (λ e. cc)
      (if_ne (same (take 4 bytes) (codes "NAN3"))
        (run_loop-ne-stuck (length bytes) 4 0 [] (drop 4 bytes) (length-drop-le 4 bytes)) (λ e. cc))
  where
    if_ne : (b : Bool) {r s : Outcome} → r ≢ stuck → s ≢ stuck → (if b then r else s) ≢ stuck
    if_ne true hr hs = hr
    if_ne false hr hs = hs
