-- ===== src/Ring/Window.antt =====
-- The elements of a ring, from its head on.
use optimized_nan_lang.Base.{
  leb, length, get_or, set, ℕ, zero, suc, refl, ap, ap₂, List, [], arith, ◌+◌, ◌-◌, ◌≤◌, ◌<◌, ◌≡◌,
  ◌≢◌, ◌∷◌, ◌++◌, ◌==◌, if◌then◌else◌,
}

-- The index behind `i` in an array of `n`.
abbrev pub advance : ℕ → ℕ → ℕ
advance n i = if i + 1 == n then 0 else i + 1

-- How many steps lead from `h` to `t`.
abbrev pub distance : ℕ → ℕ → ℕ → ℕ
distance n h t = if leb h t then t - h else t + n - h

module _ {ℓ} {A : Type ℓ} (n : ℕ) (d : A) where
  unfoldable pub window : List A → ℕ → ℕ → List A
  window data_of h zero = []
  window data_of h (suc k) = get_or data_of h d ∷ window data_of (advance n h) k

  pub get_or-set_other :
      (xs : List A) (i j : ℕ) (v : A) → i ≢ j → get_or (set xs j v) i d ≡ get_or xs i d
  get_or-set_other [] i j v ne = refl
  get_or-set_other (x ∷ xs) zero zero v ne = absurd (ne refl)
  get_or-set_other (x ∷ xs) zero (suc j) v ne = refl
  get_or-set_other (x ∷ xs) (suc i) zero v ne = refl
  get_or-set_other (x ∷ xs) (suc i) (suc j) v ne = get_or-set_other xs i j v (λ e. ne (ap suc e))

  pub get_or-set_same : (xs : List A) (i : ℕ) (v : A) → i < length xs → get_or (set xs i v) i d ≡ v
  get_or-set_same [] i v lt = absurd (omega arith)
  get_or-set_same (x ∷ xs) zero v lt = refl
  get_or-set_same (x ∷ xs) (suc i) v lt = get_or-set_same xs i v (omega arith)

  -- A write outside the window.
  pub window-set :
      (xs : List A) (j : ℕ) (v : A) (k h : ℕ)
      → h < n
      → j < n
      → k ≤ distance n h j
      → window (set xs j v) h k ≡ window xs h k
  unfolding window
  window-set xs j v zero h hn jn le = refl
  window-set xs j v (suc k) h hn jn le =
      ap₂ (λ x w. x ∷ w) (get_or-set_other xs h j v (ground arith))
        (window-set xs j v k (advance n h) (ground arith) jn (ground arith))

  -- The window that ends behind `t`.
  pub window-last :
      (xs : List A) (t k h : ℕ)
      → h < n
      → t < n
      → k ≡ distance n h t
      → window xs h (suc k) ≡ window xs h k ++ get_or xs t d ∷ []
  unfolding window
  window-last xs t zero h hn tn e = ap (λ i. get_or xs i d ∷ []) (ground arith)
  window-last xs t (suc k) h hn tn e =
      ap (λ w. get_or xs h d ∷ w)
        (window-last xs t k (advance n h) (ground arith) tn (ground arith))

  pub length-window : (xs : List A) (k h : ℕ) → length (window xs h k) ≡ k
  unfolding window
  length-window xs zero h = refl
  length-window xs (suc k) h = ap suc (length-window xs k (advance n h))
