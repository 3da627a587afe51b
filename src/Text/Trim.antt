-- ===== src/Text/Trim.antt =====
-- What `trim` takes off.
use optimized_nan_lang.Base.{
  Bool-cases, All, All-append, Bytes, is_space, refl, sym, ap, inl, inr, true, false, [], ◌≡◌, ◌∙◌,
  ◌∷◌, ◌++◌,
}
use mathlib.Core.List.{reverse, reverse-append, reverse-reverse, reverse-cons}
use optimized_nan_lang.Text.{skip_spaces, trim}

abbrev pub IsSpaces : Bytes → Type 0
IsSpaces = All (λ c. is_space c ≡ true)

-- The text is empty, or begins with no space.
abbrev pub StartsClean : Bytes → Type 0
StartsClean [] = Unit
StartsClean (c ∷ cs) = is_space c ≡ false

skip_spaces-split :
    (s : Bytes)
    → (pre : Bytes) × (s ≡ pre ++ skip_spaces s) × IsSpaces pre × StartsClean (skip_spaces s)
unfolding skip_spaces
skip_spaces-split [] = ([], refl, tt, tt)
skip_spaces-split (c ∷ cs) = elim (Bool-cases (is_space c)) [
  | inl e ↦
      let (pre, p, q, r) = skip_spaces-split cs in
      (c ∷ pre, rw e (ap (λ t. c ∷ t) p), (e, q), rw e r)
  | inr e ↦ ([], rw e, tt, rw e e)
]

IsSpaces-reverse : (s : Bytes) → IsSpaces s → IsSpaces (reverse s)
IsSpaces-reverse [] h = h
IsSpaces-reverse (c ∷ cs) h =
    rw reverse-cons (
      All-append (λ d. is_space d ≡ true) (reverse cs) (c ∷ []) (IsSpaces-reverse cs h.1) (h.0, tt))

-- A part of the front of a text that begins with no space begins with none.
StartsClean-front : (xs ys : Bytes) → StartsClean (xs ++ ys) → StartsClean xs
StartsClean-front [] ys h = tt
StartsClean-front (x ∷ xs) ys h = h

-- `trim` takes spaces off both ends and nothing else: what is left begins and ends with no space.
pub trim_lem :
    (s : Bytes)
    → (pre post : Bytes) × (s ≡ pre ++ (trim s ++ post))
      × IsSpaces pre
      × IsSpaces post
      × StartsClean (trim s)
      × StartsClean (reverse (trim s))
unfolding trim
trim_lem s =
    let (pre, p, hp, cp) = skip_spaces-split s in
    let front = skip_spaces s in
    let (post, q, hq, cq) = skip_spaces-split (reverse front) in
    let back = skip_spaces (reverse front) in
    let whole : front ≡ reverse back ++ reverse post =
      sym (reverse-reverse front) ∙ ap reverse q ∙ reverse-append post back in
    (
      pre,
      reverse post,
      p ∙ ap (λ t. pre ++ t) whole,
      hp,
      IsSpaces-reverse post hq,
      StartsClean-front (reverse back) (reverse post) (rw (← whole) cp),
      rw reverse-reverse cq,
    )

skip_spaces-clean : (s : Bytes) → StartsClean s → skip_spaces s ≡ s
unfolding skip_spaces
skip_spaces-clean [] h = refl
skip_spaces-clean (c ∷ cs) h = rw h

-- A second `trim` changes nothing.
pub trim-trim : (s : Bytes) → trim (trim s) ≡ trim s
trim-trim s = let (pre, post, _, _, _, f, b) = trim_lem s in fixed (trim s) f b
  where
    fixed : (t : Bytes) → StartsClean t → StartsClean (reverse t) → trim t ≡ t
    fixed t f b =
        unfold trim in rw (skip_spaces-clean t f, skip_spaces-clean (reverse t) b, reverse-reverse)
