-- ===== src/Coloring/Marks.antt =====
-- The color that a variable gets is none of its neighbors'.
use optimized_nan_lang.Base.{
  ==_iff, same, length, get_or, set, replicate, length-set, length-replicate, All, if-holds, ℕ,
  zero, suc, refl, sym, ap, Bool, true, false, Option, none, some, List, [], arith, ◌+◌, ◌-◌, ◌≤◌,
  ◌<◌, ◌≡◌, ◌∙◌, ◌≢◌, ◌∷◌, ◌==◌, if◌then◌else◌,
}
use optimized_nan_lang.Coloring.{
  Variable, color_at, mark, mark_neighbors, first_free, choose, registers,
}

abbrev pub IsUsed : List Bool → ℕ → Type 0
IsUsed used c = get_or used c false ≡ true

set-IsUsed : (used : List Bool) (c d : ℕ) → IsUsed used d → IsUsed (set used c true) d
set-IsUsed [] c d h = h
set-IsUsed (u ∷ used) zero zero h = refl
set-IsUsed (u ∷ used) zero (suc d) h = h
set-IsUsed (u ∷ used) (suc c) zero h = h
set-IsUsed (u ∷ used) (suc c) (suc d) h = set-IsUsed used c d h

mark-IsUsed : (o : Option ℕ) (used : List Bool) (d : ℕ) → IsUsed used d → IsUsed (mark o used) d
mark-IsUsed none used d h = h
mark-IsUsed (some c) used d h = set-IsUsed used c d h

set-IsUsed_here : (used : List Bool) (c : ℕ) → c < length used → IsUsed (set used c true) c
set-IsUsed_here [] c lt = absurd (omega arith)
set-IsUsed_here (u ∷ used) zero lt = refl
set-IsUsed_here (u ∷ used) (suc c) lt = set-IsUsed_here used c (omega arith)

length-mark : (o : Option ℕ) (used : List Bool) → length (mark o used) ≡ length used
length-mark none used = refl
length-mark (some c) used = length-set used c true

-- One conflict.
mark_pair : ℕ → List Variable → ℕ → ℕ → List Bool → List Bool
mark_pair i vars a b used =
    let first = if a == i then mark (color_at vars b) used else used in
    if b == i then mark (color_at vars a) first else first

length-mark_pair :
    (i : ℕ) (vars : List Variable) (a b : ℕ) (used : List Bool)
    → length (mark_pair i vars a b used) ≡ length used
unfolding mark_pair
length-mark_pair i vars a b used = ground (
  arith,
  length-mark (color_at vars b) used,
  length-mark (color_at vars a) used,
  length-mark (color_at vars a) (mark (color_at vars b) used),
)

mark_pair-IsUsed :
    (i : ℕ) (vars : List Variable) (a b : ℕ) (used : List Bool) (d : ℕ)
    → IsUsed used d
    → IsUsed (mark_pair i vars a b used) d
unfolding mark_pair
mark_pair-IsUsed i vars a b used d h =
    if-holds (λ u. IsUsed u d) (b == i) _ _ (mark-IsUsed (color_at vars a) _ d first) first
  where
    first : IsUsed (if a == i then mark (color_at vars b) used else used) d
    first = if-holds (λ u. IsUsed u d) (a == i) _ _ (mark-IsUsed (color_at vars b) used d h) h

mark_neighbors-IsUsed :
    (i : ℕ) (vars : List Variable) (conflicts : List (ℕ × ℕ)) (used : List Bool) (d : ℕ)
    → IsUsed used d
    → IsUsed (mark_neighbors i vars conflicts used) d
unfolding mark_neighbors mark_pair
mark_neighbors-IsUsed i vars [] used d h = h
mark_neighbors-IsUsed i vars ((a, b) ∷ rest) used d h =
    mark_neighbors-IsUsed i vars rest _ d (mark_pair-IsUsed i vars a b used d h)

length-mark_neighbors :
    (i : ℕ) (vars : List Variable) (conflicts : List (ℕ × ℕ)) (used : List Bool)
    → length (mark_neighbors i vars conflicts used) ≡ length used
unfolding mark_neighbors mark_pair
length-mark_neighbors i vars [] used = refl
length-mark_neighbors i vars ((a, b) ∷ rest) used =
    length-mark_neighbors i vars rest (mark_pair i vars a b used) ∙ length-mark_pair i vars a b used

mark-marks :
    (o : Option ℕ) (used : List Bool) (c : ℕ)
    → o ≡ some c
    → c < length used
    → IsUsed (mark o used) c
mark-marks none used c e lt = ground arith
mark-marks (some d) used c e lt = set-IsUsed_same (ground arith)
  where
    set-IsUsed_same : d ≡ c → IsUsed (set used d true) c
    set-IsUsed_same same = rw same (set-IsUsed_here used c lt)

-- The neighbor of `i` in a conflict has its color used.
abbrev pub IsMarked : ℕ → List Variable → List Bool → ℕ × ℕ → Type 0
IsMarked i vars used (a, b) =
    ((c : ℕ) → a ≡ i → color_at vars b ≡ some c → c < registers → IsUsed used c)
    × ((c : ℕ) → b ≡ i → color_at vars a ≡ some c → c < registers → IsUsed used c)

mark_pair-left :
    (i : ℕ) (vars : List Variable) (a b : ℕ) (used : List Bool) (c : ℕ)
    → a ≡ i
    → color_at vars b ≡ some c
    → c < length used
    → IsUsed (mark_pair i vars a b used) c
unfolding mark_pair
mark_pair-left i vars a b used c e here lt =
    if-holds (λ u. IsUsed u c) (b == i) _ _ (mark-IsUsed (color_at vars a) _ c first) first
  where
    first : IsUsed (if a == i then mark (color_at vars b) used else used) c
    first = rw ((==_iff a i).1 e) (mark-marks (color_at vars b) used c here lt)

mark_pair-right :
    (i : ℕ) (vars : List Variable) (a b : ℕ) (used : List Bool) (c : ℕ)
    → b ≡ i
    → color_at vars a ≡ some c
    → c < length used
    → IsUsed (mark_pair i vars a b used) c
unfolding mark_pair
mark_pair-right i vars a b used c e here lt =
    rw ((==_iff b i).1 e) (mark-marks (color_at vars a) _ c here (first (a == i)))
  where
    first : (t : Bool) → c < length (if t then mark (color_at vars b) used else used)
    first true = omega (arith, length-mark (color_at vars b) used)
    first false = lt

mark_neighbors-marks :
    (i : ℕ) (vars : List Variable) (conflicts : List (ℕ × ℕ)) (used : List Bool)
    → length used ≡ registers
    → All (IsMarked i vars (mark_neighbors i vars conflicts used)) conflicts
unfolding mark_neighbors mark_pair
mark_neighbors-marks i vars [] used e = tt
mark_neighbors-marks i vars ((a, b) ∷ rest) used e = (
  (
    λ c at here lt.
        mark_neighbors-IsUsed i vars rest (mark_pair i vars a b used) c
          (mark_pair-left i vars a b used c at here (omega arith)),
    λ c at here lt.
        mark_neighbors-IsUsed i vars rest (mark_pair i vars a b used) c
          (mark_pair-right i vars a b used c at here (omega arith)),
  ),
  mark_neighbors-marks i vars rest (mark_pair i vars a b used)
      (length-mark_pair i vars a b used ∙ e),
)

first_free_lem :
    (used : List Bool) (k c : ℕ)
    → first_free used k ≡ some c
    → (k ≤ c) × (c < k + length used) × (get_or used (c - k) false ≡ false)
unfolding first_free
first_free_lem [] k c e = ground arith
first_free_lem (true ∷ used) k c e = later (first_free_lem used (k + 1) c e)
  where
    later :
        (k + 1 ≤ c) × (c < k + 1 + length used) × (get_or used (c - (k + 1)) false ≡ false)
        → (k ≤ c) × (c < k + length (true ∷ used)) × (get_or (true ∷ used) (c - k) false ≡ false)
    later (low, high, free) =
        (omega arith, omega arith, ap (λ i. get_or (true ∷ used) i false) (behind low) ∙ free)
      where
        behind : k + 1 ≤ c → c - k ≡ suc (c - (k + 1))
        behind low = omega arith
first_free_lem (false ∷ used) k c e =
    let same = first_is c e in
    (
      omega (arith, same),
      omega (arith, same),
      ap (λ i. get_or (false ∷ used) i false) (none_between same),
    )
  where
    first_is : (c : ℕ) → some k ≡ some c → k ≡ c
    first_is c e = ground arith

    none_between : k ≡ c → c - k ≡ 0
    none_between same = omega arith

-- What is chosen for `i` is a register, and the color of no neighbor.
abbrev pub IsApartFrom : ℕ → List Variable → ℕ → ℕ × ℕ → Type 0
IsApartFrom i vars c (a, b) =
    (a ≡ i → color_at vars b ≢ some c) × (b ≡ i → color_at vars a ≢ some c)

free-IsApartFrom :
    (i : ℕ) (vars : List Variable) (used : List Bool) (c : ℕ) (conflicts : List (ℕ × ℕ))
    → c < registers
    → get_or used c false ≡ false
    → All (IsMarked i vars used) conflicts
    → All (IsApartFrom i vars c) conflicts
free-IsApartFrom i vars used c [] lt free h = tt
free-IsApartFrom i vars used c ((a, b) ∷ rest) lt free (h, hs) = (
  (λ at here. clash (h.0 c at here lt), λ at here. clash (h.1 c at here lt)),
  free-IsApartFrom i vars used c rest lt free hs,
)
  where
    clash : IsUsed used c → ⊥
    clash u = ground arith

pub choose-IsApartFrom :
    (i : ℕ) (conflicts : List (ℕ × ℕ)) (vars : List Variable) (c : ℕ)
    → choose i conflicts vars ≡ some c
    → (c < registers) × All (IsApartFrom i vars c) conflicts
unfolding choose
choose-IsApartFrom i conflicts vars c e = found (first_free_lem used 0 c e)
  where
    used : List Bool
    used = mark_neighbors i vars conflicts (replicate registers false)

    found :
        (0 ≤ c) × (c < 0 + length used) × (get_or used (c - 0) false ≡ false)
        → (c < registers) × All (IsApartFrom i vars c) conflicts
    found (low, high, free) = (
      below,
      free-IsApartFrom i vars used c conflicts below here
          (mark_neighbors-marks i vars conflicts (replicate registers false) refl),
    )
      where
        same_index : c - 0 ≡ c
        same_index = omega arith

        here : get_or used c false ≡ false
        here = ap (λ k. get_or used k false) (sym same_index) ∙ free

        below : c < registers
        below = omega (
          arith,
          length-mark_neighbors i vars conflicts (replicate registers false),
          length-replicate registers false,
        )
