-- ===== src/Coloring/Apart.antt =====
-- A coloring that succeeds gives every variable a register, and two variables in conflict different ones.
use optimized_nan_lang.Base.{
  Bool-cases, Option-cases, length, All, ℕ, zero, suc, refl, sym, ap, inl, inr, true, false, some,
  List, [], arith, ◌+◌, ◌<◌, ◌≡◌, ◌∙◌, ◌≢◌, ◌∷◌, ◌==◌,
}
use optimized_nan_lang.Coloring.{
  Variable, RegisterColoring, color_at, set_color, registers, choose, color_from, color_all,
}
use optimized_nan_lang.Coloring.Marks.{IsApartFrom, choose-IsApartFrom}

length-set_color : (vars : List Variable) (i c : ℕ) → length (set_color vars i c) ≡ length vars
length-set_color [] i c = refl
length-set_color (v ∷ vs) zero c = refl
length-set_color (v ∷ vs) (suc i) c = ap suc (length-set_color vs i c)

color_at-set_same :
    (vars : List Variable) (i c : ℕ) → i < length vars → color_at (set_color vars i c) i ≡ some c
color_at-set_same [] i c lt = absurd (omega arith)
color_at-set_same (v ∷ vs) zero c lt = refl
color_at-set_same (v ∷ vs) (suc i) c lt = color_at-set_same vs i c (omega arith)

color_at-set_other :
    (vars : List Variable) (i j c : ℕ) → i ≢ j → color_at (set_color vars i c) j ≡ color_at vars j
color_at-set_other [] i j c ne = refl
color_at-set_other (v ∷ vs) zero zero c ne = absurd (ne refl)
color_at-set_other (v ∷ vs) zero (suc j) c ne = refl
color_at-set_other (v ∷ vs) (suc i) zero c ne = refl
color_at-set_other (v ∷ vs) (suc i) (suc j) c ne = color_at-set_other vs i j c (λ e. ne (ap suc e))

color_at-set_at :
    (vars : List Variable) (i j c : ℕ)
    → i < length vars
    → i ≡ j
    → color_at (set_color vars i c) j ≡ some c
color_at-set_at vars i j c lt e =
    ap (color_at (set_color vars i c)) (sym e) ∙ color_at-set_same vars i c lt

-- The two ends of a conflict below `i` have different colors.
ApartBelow : ℕ → List Variable → ℕ × ℕ → Type 0
ApartBelow i vars (a, b) = a < i → b < i → color_at vars a ≢ color_at vars b

-- The variables below `i` have registers.
ColoredBelow : ℕ → List Variable → Type 0
ColoredBelow i vars = (j : ℕ) → j < i → (c : ℕ) × (color_at vars j ≡ some c) × (c < registers)

step-ColoredBelow :
    (i : ℕ) (vars : List Variable) (c : ℕ)
    → i < length vars
    → c < registers
    → ColoredBelow i vars
    → ColoredBelow (i + 1) (set_color vars i c)
unfolding ColoredBelow
step-ColoredBelow i vars c il cl h j lt = elim (Bool-cases (i == j)) [
  | inl e ↦ (c, color_at-set_at vars i j c il (ground (arith, e)), cl)
  | inr e ↦
      let (d, at, dl) = h j (ground arith) in
      (d, color_at-set_other vars i j c (ground arith) ∙ at, dl)
]

-- One conflict, after `i` got the color `c`.
step-ApartBelow :
    (i : ℕ) (vars : List Variable) (c a b : ℕ)
    → i < length vars
    → a ≢ b
    → IsApartFrom i vars c (a, b)
    → ApartBelow i vars (a, b)
    → ApartBelow (i + 1) (set_color vars i c) (a, b)
unfolding ApartBelow
step-ApartBelow i vars c a b il ne (left, right) h al bl e = elim (Bool-cases (i == a)) [
  | inl at ↦ left (ground (arith, at)) (
      sym (color_at-set_other vars i b c (ground (arith, at)))
      ∙ sym e
      ∙ color_at-set_at vars i a c il (ground (arith, at)))
  | inr off ↦ elim (Bool-cases (i == b)) [
    | inl at ↦ right (ground (arith, at)) (
        sym (color_at-set_other vars i a c (ground (arith, off)))
        ∙ e
        ∙ color_at-set_at vars i b c il (ground (arith, at)))
    | inr off_too ↦ h (ground (arith, off)) (ground (arith, off_too)) (
        sym (color_at-set_other vars i a c (ground (arith, off)))
        ∙ e
        ∙ color_at-set_other vars i b c (ground (arith, off_too)))
  ]
]

-- What `add_conflict` keeps out.
abbrev pub AreDistinct : ℕ × ℕ → Type 0
AreDistinct (a, b) = a ≢ b

step-All :
    (i : ℕ) (vars : List Variable) (c : ℕ) (conflicts : List (ℕ × ℕ))
    → i < length vars
    → All AreDistinct conflicts
    → All (IsApartFrom i vars c) conflicts
    → All (ApartBelow i vars) conflicts
    → All (ApartBelow (i + 1) (set_color vars i c)) conflicts
step-All i vars c [] il ds fs hs = tt
step-All i vars c ((a, b) ∷ rest) il (d, ds) (f, fs) (h, hs) =
    (step-ApartBelow i vars c a b il d f h, step-All i vars c rest il ds fs hs)

-- The end of a coloring of `n` variables.
unfoldable pub IsColored : ℕ → List (ℕ × ℕ) → List Variable → Type 0
unfolding ColoredBelow ApartBelow
IsColored n conflicts vars = ColoredBelow n vars × All (ApartBelow n vars) conflicts

step-IsColored :
    (i : ℕ) (vars : List Variable) (c : ℕ) (conflicts : List (ℕ × ℕ))
    → i < length vars
    → All AreDistinct conflicts
    → choose i conflicts vars ≡ some c
    → IsColored i conflicts vars
    → IsColored (i + 1) conflicts (set_color vars i c)
unfolding IsColored
step-IsColored i vars c conflicts il ds e (colored, apart) =
    let (cl, free) = choose-IsApartFrom i conflicts vars c e in
    (step-ColoredBelow i vars c il cl colored, step-All i vars c conflicts il ds free apart)

color_from-IsColored :
    (n i m : ℕ) (conflicts : List (ℕ × ℕ)) (vars : List Variable)
    → i + n ≡ m
    → m ≡ length vars
    → All AreDistinct conflicts
    → IsColored i conflicts vars
    → (color_from n i conflicts vars).1 ≡ true
    → IsColored m conflicts (color_from n i conflicts vars).0
unfolding color_from
color_from-IsColored zero i m conflicts vars end len ds h done = rw (last_index end) h
  where
    last_index : i + 0 ≡ m → m ≡ i
    last_index e = omega arith
color_from-IsColored (suc n) i m conflicts vars end len ds h done =
    elim (Option-cases (choose i conflicts vars)) [
      | inl e ↦ absurd (failed (rw (e, color_from) at done))
      | inr (c, e) ↦
          rw (e, color_from)
            (color_from-IsColored n (i + 1) m conflicts (set_color vars i c) (omega arith)
              (len ∙ sym (length-set_color vars i c)) ds
              (step-IsColored i vars c conflicts (omega arith) ds e h) (rw (e, color_from) at done))
    ]
  where
    failed : false ≡ true → ⊥
    failed e = ground arith

nothing-IsColored : (vars : List Variable) (conflicts : List (ℕ × ℕ)) → IsColored 0 conflicts vars
unfolding IsColored ColoredBelow
nothing-IsColored vars conflicts = (λ j lt. absurd (omega arith), none_below conflicts)
  where
    none_below : (conflicts : List (ℕ × ℕ)) → All (ApartBelow 0 vars) conflicts
    none_below [] = tt
    none_below ((a, b) ∷ rest) = (unfold ApartBelow in λ al bl e. omega arith, none_below rest)

-- If the coloring succeeds, where no variable is in conflict with itself, every variable has one of the 16
-- registers and the two variables of a conflict have different ones.
pub color_all-IsColored :
    (r : RegisterColoring)
    → All AreDistinct r.conflicts
    → (color_all r).1 ≡ true
    → IsColored (length r.vars) r.conflicts (color_all r).0
unfolding color_all
color_all-IsColored r ds done =
    color_from-IsColored (length r.vars) 0 (length r.vars) r.conflicts r.vars (omega arith) refl ds
      (nothing-IsColored r.vars r.conflicts) done
