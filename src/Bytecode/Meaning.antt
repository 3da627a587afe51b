-- ===== src/Bytecode/Meaning.antt =====
-- What the statements of a source file mean: the text that each prints, and the instructions that
-- print it. Nothing here comes from the compiler or the machine.
use optimized_nan_lang.Base.{
  length, Bytes, codes, ℕ, refl, ap, inl, inr, Bool, true, false, none, some, List, [], append-nil,
  append_assoc, ◌^◌, ◌<◌, ◌≡◌, ◌∙◌, ◌≢◌, ◌⊎◌, ◌||◌, ◌∷◌, ◌++◌, if◌then◌else◌,
}
use optimized_nan_lang.Signal.{signal_name}
use optimized_nan_lang.Bytecode.{Instr, say, load, store, halt}
use optimized_nan_lang.Bytecode.Source.{Statement, halts, says, signals, mmio, write}
use optimized_nan_lang.Bytecode.Run.{store_text, halted}
use optimized_nan_lang.Bytecode.Encoding.{exec}

unfoldable pub shown : Statement → Bytes
shown (says (some text)) = text ++ 10 ∷ []
shown (signals (some (true, s))) = codes "[pulse] " ++ signal_name s ++ 10 ∷ []
shown (signals (some (false, s))) = codes "[emit] " ++ signal_name s ++ 10 ∷ []
shown (mmio (write addr value)) = store_text addr value
shown _ = []

-- What a program prints: its statements in their order, up to the first `halt`.
unfoldable pub printed : List Statement → Bytes
unfolding shown
printed [] = []
printed (halts ∷ ss) = []
printed (s ∷ ss) = shown s ++ printed ss

unfoldable pub instrs : Statement → List Instr
instrs (says (some text)) = say text ∷ []
instrs (signals (some (is_pulse, s))) = load s ∷ store (if is_pulse then 0x10 else 0x11) ∷ []
instrs (mmio (write addr value)) = load value ∷ store addr ∷ []
instrs halts = halt ∷ []
instrs _ = []

unfoldable pub all_instrs : List Statement → List Instr
unfolding instrs
all_instrs [] = []
all_instrs (s ∷ ss) = instrs s ++ all_instrs ss

abbrev pub is_halts : Statement → Bool
is_halts halts = true
is_halts _ = false

unfoldable pub any_halt : List Statement → Bool
any_halt [] = false
any_halt (s ∷ ss) = is_halts s || any_halt ss

-- The text of a `say` fits the four bytes of its length.
abbrev pub SayFits : Statement → Type 0
SayFits (says (some text)) = length text < 2 ^ 32
SayFits _ = Unit

-- The instructions of one statement, run before others, print what the statement shows.
exec-instrs :
    (s : Statement) (acc : ℕ) (out : Bytes) (is : List Instr)
    → s ≢ halts
    → (acc' : ℕ) × (exec acc out (instrs s ++ is) ≡ exec acc' (out ++ shown s) is)
unfolding exec instrs shown
exec-instrs halts acc out is h = absurd (h refl)
exec-instrs (says (some text)) acc out is h = (acc, refl)
exec-instrs (says none) acc out is h = (acc, rw append-nil)
exec-instrs (signals (some (true, s))) acc out is h = (s, unfold store_text in refl)
exec-instrs (signals (some (false, s))) acc out is h = (s, unfold store_text in refl)
exec-instrs (signals none) acc out is h = (acc, rw append-nil)
exec-instrs (mmio (write addr value)) acc out is h = (value, refl)
exec-instrs (mmio _) acc out is h = (acc, rw append-nil)
exec-instrs _ acc out is h = (acc, rw append-nil)

halts_or_not : (s : Statement) → (s ≡ halts) ⊎ (s ≢ halts)
halts_or_not halts = inl refl
halts_or_not (says t) = inr (λ e. cc)
halts_or_not _ = inr (λ e. cc)

printed-cons :
    (s : Statement) (ss : List Statement)
    → s ≢ halts
    → (printed (s ∷ ss) ≡ shown s ++ printed ss) × (any_halt (s ∷ ss) ≡ any_halt ss)
unfolding printed any_halt
printed-cons halts ss h = absurd (h refl)
printed-cons _ ss h = (refl, refl)

printed-halts : (ss : List Statement) → printed (halts ∷ ss) ≡ []
unfolding printed
printed-halts ss = refl

-- The instructions of statements that halt, or that a HALT follows, print what the statements print.
pub exec-all_instrs :
    (ss : List Statement) (acc : ℕ) (out : Bytes) (is : List Instr)
    → (any_halt ss ≡ true) ⊎ (is ≡ halt ∷ [])
    → exec acc out (all_instrs ss ++ is) ≡ halted (out ++ printed ss)
exec-all_instrs [] acc out is (inl e) = unfold any_halt in cc
exec-all_instrs [] acc out is (inr e) = rw e (unfold exec all_instrs printed in rw append-nil)
exec-all_instrs (s ∷ ss) acc out is h = elim (halts_or_not s) [
  | inl e ↦ rw (e, printed-halts, append-nil) (unfold exec all_instrs in refl)
  | inr n ↦
      let (acc', e) = exec-instrs s acc out (all_instrs ss ++ is) n in
      let (p, q) = printed-cons s ss n in
      let rest : (any_halt ss ≡ true) ⊎ (is ≡ halt ∷ []) = rw q at h in
      opened
      ∙ e
      ∙ exec-all_instrs ss acc' (out ++ shown s) is rest
      ∙ rw p (ap halted (append_assoc out (shown s) (printed ss)))
]
  where
    opened :
        exec acc out (all_instrs (s ∷ ss) ++ is) ≡ exec acc out (instrs s ++ (all_instrs ss ++ is))
    opened = ap (exec acc out) (unfold all_instrs in append_assoc (instrs s) (all_instrs ss) is)
