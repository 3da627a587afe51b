-- ===== src/Binary/Search.antt =====
-- The search of BinaryPatcher::find_and_patch.
use optimized_nan_lang.Base.{
  ==_refl, Option-cases, length, Bytes, ℕ, refl, ap, inl, inr, none, some, [], arith, ◌+◌, ◌≤◌, ◌≡◌,
  ◌∙◌, ◌∷◌, ◌++◌,
}
use optimized_nan_lang.Text.{after_prefix}
use native.Mathlib.Nat.{zero-add}
use optimized_nan_lang.Binary.Patch.{find_from}

after_prefix-append : (ks r : Bytes) → after_prefix ks (ks ++ r) ≡ some r
unfolding after_prefix
after_prefix-append [] r = refl
after_prefix-append (k ∷ ks) r = rw (==_refl k) (after_prefix-append ks r)

split-after_prefix : (ks line r : Bytes) → after_prefix ks line ≡ some r → line ≡ ks ++ r
unfolding after_prefix
split-after_prefix [] line r e = ground arith
split-after_prefix (k ∷ ks) [] r e = ground arith
split-after_prefix (k ∷ ks) (c ∷ cs) r e = ground (arith, split-after_prefix ks cs r)

found_here :
    (i : ℕ) (needle image r : Bytes)
    → after_prefix needle image ≡ some r
    → find_from i needle image ≡ some i
unfolding find_from
found_here i needle [] r e = ap (λ o. elim o [ none ↦ none | some rest ↦ some i ]) e
found_here i needle (b ∷ bs) r e =
    ap (λ o. elim o [ none ↦ find_from (i + 1) needle bs | some rest ↦ some i ]) e

found_later :
    (i : ℕ) (needle : Bytes) (b : ℕ) (bs : Bytes)
    → after_prefix needle (b ∷ bs) ≡ none
    → find_from i needle (b ∷ bs) ≡ find_from (i + 1) needle bs
unfolding find_from
found_later i needle b bs e =
    ap (λ o. elim o [ none ↦ find_from (i + 1) needle bs | some rest ↦ some i ]) e

-- A place from `i` on where `needle` stands, no later than `n`.
Found : ℕ → Bytes → Bytes → ℕ → Type 0
Found i needle image n =
    (p q : Bytes) × (find_from i needle image ≡ some (i + length p))
    × (image ≡ p ++ (needle ++ q))
    × (length p ≤ n)

find_from-Found :
    (i : ℕ) (needle pre post : Bytes) → Found i needle (pre ++ (needle ++ post)) (length pre)
unfolding Found
find_from-Found i needle [] post = (
  [],
  post,
  found_here i needle (needle ++ post) post (after_prefix-append needle post) ∙ ap some itself,
  refl,
  omega arith,
)
  where
    itself : i ≡ i + 0
    itself = omega arith
find_from-Found i needle (c ∷ pre) post =
    let (p, q, e, split, le) = find_from-Found (i + 1) needle pre post in
    elim (Option-cases (after_prefix needle (c ∷ (pre ++ (needle ++ post))))) [
      | inl none_here ↦ (
        c ∷ p,
        q,
        found_later i needle c (pre ++ (needle ++ post)) none_here ∙ e ∙ ap some (next p),
        ap (λ t. c ∷ t) split,
        omega arith,
      )
      | inr (r, here) ↦ (
        [],
        r,
        found_here i needle _ r here ∙ ap some itself,
        split-after_prefix needle _ r here,
        omega arith,
      )
    ]
  where
    itself : i ≡ i + 0
    itself = omega arith

    next : (p : Bytes) → i + 1 + length p ≡ i + length (c ∷ p)
    next p = omega arith

-- For every place at which `needle` stands in the image, the search finds a place at which it stands
-- and which is no later.
pub find_from-first :
    (needle pre post : Bytes)
    → (p q : Bytes) × (find_from 0 needle (pre ++ (needle ++ post)) ≡ some (length p))
      × (pre ++ (needle ++ post) ≡ p ++ (needle ++ q))
      × (length p ≤ length pre)
unfolding Found
find_from-first needle pre post =
    let (p, q, e, split, le) = find_from-Found 0 needle pre post in
    (p, q, e ∙ ap some (zero-add (length p)), split, le)
