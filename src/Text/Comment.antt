-- ===== src/Text/Comment.antt =====
-- What `strip_line_comment` keeps.
use optimized_nan_lang.Base.{
  length, Bytes, ℕ, suc, refl, ap, ap₂, inl, inr, Bool, true, false, not, none, some, [], arith,
  ◌≤◌, ◌≡◌, ◌⊎◌, ◌&&◌, ◌∷◌, ◌++◌, ◌==◌, if◌then◌else◌,
}
use optimized_nan_lang.Text.{comment_step, strip_from, strip_line_comment}

-- Whether a text ends inside a string, and behind a backslash there, without looking ahead.
abbrev pub lex_step : Bool × Bool → ℕ → Bool × Bool
lex_step (in_string, escaped) c =
    if escaped
    then (in_string, false)
    else if c == 0x5c && in_string
    then (in_string, true)
    else if c == 0x22
    then (not in_string, false)
    else (in_string, false)

unfoldable pub lex_state : Bool × Bool → Bytes → Bool × Bool
lex_state s [] = s
lex_state s (c ∷ cs) = lex_state (lex_step s c) cs

comment_step_cases :
    (q e : Bool) (c d : ℕ)
    → ((comment_step q e c d ≡ none) × (q ≡ false) × (e ≡ false) × (c ≡ 0x2f) × (d ≡ 0x2f))
      ⊎ (comment_step q e c d ≡ some (lex_step (q, e) c))
unfolding comment_step
comment_step_cases q true c d = inr refl
comment_step_cases true false c d = inr (ground arith)
comment_step_cases false false c d = ground arith

-- What the scan from a state leaves of `s`.
abbrev Kept : Bool × Bool → Bytes → Bytes → Type 0
Kept st s t =
    (t ≡ s) ⊎ ((rest : Bytes) × (s ≡ t ++ 0x2f ∷ 0x2f ∷ rest) × (lex_state st t ≡ (false, false)))

Kept-cons :
    (st : Bool × Bool) (c : ℕ) (s t : Bytes) → Kept (lex_step st c) s t → Kept st (c ∷ s) (c ∷ t)
unfolding lex_state
Kept-cons st c s t (inl e) = inl (ap (λ r. c ∷ r) e)
Kept-cons st c s t (inr (rest, e, h)) = inr (rest, ap (λ r. c ∷ r) e, h)

strip_from-Kept : (q e : Bool) (s : Bytes) → Kept (q, e) s (strip_from q e s)
unfolding strip_from lex_state
strip_from-Kept q e [] = inl refl
strip_from-Kept q e (c ∷ []) = inl refl
strip_from-Kept q e (c ∷ d ∷ cs) = elim (comment_step_cases q e c d) [
  | inl (n, hq, he, hc, hd) ↦
      rw (n, strip_from) (inr (cs, ap₂ (λ a b. a ∷ b ∷ cs) hc hd, ap₂ (λ a b. (a, b)) hq he))
  | inr n ↦
      rw (n, strip_from)
        (Kept-cons (q, e) c (d ∷ cs) _
          (strip_from-Kept (lex_step (q, e) c).0 (lex_step (q, e) c).1 (d ∷ cs)))
]

-- `strip_line_comment` keeps the line, or keeps what stands in front of a `//` that is outside every
-- string.
pub strip_line_comment_cases :
    (s : Bytes)
    → (strip_line_comment s ≡ s)
      ⊎ ((rest : Bytes) × (s ≡ strip_line_comment s ++ 0x2f ∷ 0x2f ∷ rest)
          × (lex_state (false, false) (strip_line_comment s) ≡ (false, false)))
unfolding strip_line_comment
strip_line_comment_cases s = strip_from-Kept false false s

strip_from-step :
    (q e : Bool) (c d : ℕ) (cs : Bytes)
    → let (q', e') = lex_step (q, e) c in
      length (strip_from q e (c ∷ d ∷ cs)) ≤ suc (length (strip_from q' e' (d ∷ cs)))
unfolding strip_from
strip_from-step q e c d cs = elim (comment_step_cases q e c d) [
  | inl (n, hq, he, hc, hd) ↦ rw (n, strip_from) (omega arith)
  | inr n ↦ rw (n, strip_from) (omega arith)
]

strip_from-cut :
    (q e : Bool) (pre rest : Bytes)
    → lex_state (q, e) pre ≡ (false, false)
    → length (strip_from q e (pre ++ 0x2f ∷ 0x2f ∷ rest)) ≤ length pre
unfolding lex_state
strip_from-cut q e [] rest h = unfold strip_from in ground arith
strip_from-cut q e (c ∷ []) rest h = omega (
  arith,
  strip_from-step q e c 0x2f (0x2f ∷ rest),
  strip_from-cut (lex_step (q, e) c).0 (lex_step (q, e) c).1 [] rest h,
)
strip_from-cut q e (c ∷ d ∷ pre) rest h = omega (
  arith,
  strip_from-step q e c d (pre ++ 0x2f ∷ 0x2f ∷ rest),
  strip_from-cut (lex_step (q, e) c).0 (lex_step (q, e) c).1 (d ∷ pre) rest h,
)

-- Of a line with a `//` outside every string, `strip_line_comment` keeps no more bytes than stand in
-- front of it.
pub strip_line_comment-cut :
    (pre rest : Bytes)
    → lex_state (false, false) pre ≡ (false, false)
    → length (strip_line_comment (pre ++ 0x2f ∷ 0x2f ∷ rest)) ≤ length pre
unfolding strip_line_comment
strip_line_comment-cut pre rest h = strip_from-cut false false pre rest h
