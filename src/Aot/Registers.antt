-- ===== src/Aot/Registers.antt =====
-- `RegisterAllocator` of src/nan_aot_compiler.cpp. A map is an association list, the newest entry first.
use optimized_nan_lang.Base.{
  Bool-cases, Option-cases, same, same_refl, get_or, set, replicate, Bytes, ℕ, suc, refl, sym, ap,
  inl, inr, Bool, true, false, Option, none, some, List, [], arith, ◌+◌, ◌-◌, ◌≤◌, ◌≡◌, ◌∙◌, ◌≢◌,
  ◌⊎◌, ◌||◌, ◌∷◌, ◌==◌, if◌then◌else◌,
}
use mathlib.Core.Path.{subst}
use mathlib.Core.Option.{some-injective}

pub record RegisterAllocator : Type 0 where
  pub var_to_reg : List (Bytes × ℕ)
  pub var_to_stack : List (Bytes × ℕ)
  pub reg_used : List Bool
  pub stack_offset : ℕ

-- RSP is register 4 and RBP is register 5.
unfoldable pub new_allocator : RegisterAllocator
new_allocator = record {
  var_to_reg = [];
  var_to_stack = [];
  reg_used = set (set (replicate 16 false) 5 true) 4 true;
  stack_offset = 0;
}

unfoldable pub find : Bytes → List (Bytes × ℕ) → Option ℕ
unfolding same
find name [] = none
find name ((n, v) ∷ m) = if same n name then some v else find name m

unfoldable pub erase : Bytes → List (Bytes × ℕ) → List (Bytes × ℕ)
unfolding same
erase name [] = []
erase name ((n, v) ∷ m) = let rest = erase name m in if same n name then rest else (n, v) ∷ rest

-- The loop of `allocate` from register `i` on.
unfoldable pub first_free : ℕ → List Bool → Option ℕ
first_free i [] = none
first_free i (used ∷ us) =
    let rest = first_free (i + 1) us in
    if i == 5 || i == 4 then rest else if used then rest else some i

unfoldable pub spill : Bytes → RegisterAllocator → RegisterAllocator
unfolding find
spill name a = elim (find name a.var_to_stack) [
  | some offset ↦ a
  | none ↦ record a {
    var_to_stack = (name, a.stack_offset) ∷ a.var_to_stack;
    stack_offset = a.stack_offset + 8;
  }
]

-- What `allocate` does with the register that its loop finds.
abbrev give : Bytes → RegisterAllocator → Option ℕ → ℕ × RegisterAllocator
give name a (some i) = (
  i,
  record a { reg_used = set a.reg_used i true; var_to_reg = (name, i) ∷ erase name a.var_to_reg },
)
give name a none = (0, spill name a)

-- The register, and RAX (0) where none is free.
unfoldable pub allocate : Bytes → RegisterAllocator → ℕ × RegisterAllocator
allocate name a = give name a (first_free 0 a.reg_used)

unfoldable pub free : Bytes → RegisterAllocator → RegisterAllocator
unfolding find erase
free name a = elim (find name a.var_to_reg) [
  | none ↦ a
  | some r ↦ record a { reg_used = set a.reg_used r false; var_to_reg = erase name a.var_to_reg }
]

-- A register that is free from `i` on.
abbrev IsFree : ℕ → List Bool → ℕ → Type 0
IsFree i us r = (i ≤ r) × (get_or us (r - i) true ≡ false) × (r ≢ 4) × (r ≢ 5)

first_free-IsFree : (us : List Bool) (i r : ℕ) → first_free i us ≡ some r → IsFree i us r
unfolding first_free
first_free-IsFree [] i r e = absurd (nothing e)
  where
    nothing : ◌≢◌ {A = Option ℕ} none (some r)
    nothing e = cc
first_free-IsFree (used ∷ us) i r e =
    cases (first_free-IsFree us (i + 1) r) (Bool-cases (i == 5 || i == 4)) used e
  where
    later : (u : Bool) → IsFree (i + 1) us r → IsFree i (u ∷ us) r
    later u (le, g, n₄, n₅) =
        (omega arith, ap (λ k. get_or (u ∷ us) k true) (shifted le) ∙ g, n₄, n₅)
      where
        shifted : i + 1 ≤ r → r - i ≡ suc (r - (i + 1))
        shifted le = omega arith

    here :
        (i == 5 || i == 4) ≡ false → ◌≡◌ {A = Option ℕ} (some i) (some r) → IsFree i (false ∷ us) r
    here reserved e =
        subst (λ m. IsFree i (false ∷ us) m) (some-injective i r e)
          (
            omega arith,
            ap (λ k. get_or (false ∷ us) k true) itself,
            (λ e. ground arith),
            λ e. ground arith,
          )
      where
        itself : i - i ≡ 0
        itself = omega arith

    cases :
        (first_free (i + 1) us ≡ some r → IsFree (i + 1) us r)
        → ((i == 5 || i == 4) ≡ true) ⊎ ((i == 5 || i == 4) ≡ false)
        → (u : Bool)
        → (if i == 5 || i == 4
            then first_free (i + 1) us
            else if u
            then first_free (i + 1) us
            else some i)
          ≡ some r
        → IsFree i (u ∷ us) r
    cases ih (inl h) u e = later u (ih (sym (rw h refl) ∙ e))
    cases ih (inr h) true e = later true (ih (sym (rw h refl) ∙ e))
    cases ih (inr h) false e = here h (sym (rw h refl) ∙ e)

-- Where the loop finds none, every register from `i` on is used, but for RSP and RBP.
first_free-none :
    (us : List Bool) (i r : ℕ)
    → first_free i us ≡ none
    → i ≤ r
    → r ≢ 4
    → r ≢ 5
    → get_or us (r - i) true ≡ true
unfolding first_free
first_free-none [] i r e le n₄ n₅ = refl
first_free-none (used ∷ us) i r e le n₄ n₅ =
    cases used (Bool-cases (r == i)) (Bool-cases (i == 5 || i == 4)) e
      (first_free-none us (i + 1) r)
  where
    shifted : i + 1 ≤ r → r - i ≡ suc (r - (i + 1))
    shifted le = omega arith

    behind :
        (u : Bool)
        → (r == i) ≡ false
        → (i + 1 ≤ r → r ≢ 4 → r ≢ 5 → get_or us (r - (i + 1)) true ≡ true)
        → get_or (u ∷ us) (r - i) true ≡ true
    behind u h ih =
        let later : i + 1 ≤ r = ground arith in
        ap (λ k. get_or (u ∷ us) k true) (shifted later) ∙ ih later n₄ n₅

    cases :
        (u : Bool)
        → ((r == i) ≡ true) ⊎ ((r == i) ≡ false)
        → ((i == 5 || i == 4) ≡ true) ⊎ ((i == 5 || i == 4) ≡ false)
        → (if i == 5 || i == 4
            then first_free (i + 1) us
            else if u
            then first_free (i + 1) us
            else some i)
          ≡ none
        → (first_free (i + 1) us ≡ none
            → i + 1 ≤ r
            → r ≢ 4
            → r ≢ 5
            → get_or us (r - (i + 1)) true ≡ true)
        → get_or (u ∷ us) (r - i) true ≡ true
    cases true (inl h) b e ih =
        let here : r - i ≡ 0 = ground arith in ap (λ k. get_or (true ∷ us) k true) here
    cases false (inl h) (inl b) e ih = absurd (ground arith)
    cases false (inl h) (inr b) e ih = let found = rw b at e in cc found
    cases true (inr h) (inl b) e ih = behind true h (ih (sym (rw b refl) ∙ e))
    cases true (inr h) (inr b) e ih = behind true h (ih (sym (rw b refl) ∙ e))
    cases false (inr h) (inl b) e ih = behind false h (ih (sym (rw b refl) ∙ e))
    cases false (inr h) (inr b) e ih = let found = rw b at e in cc found

-- A register that `allocate` hands out for a variable without spilling it was free, is neither RSP nor
-- RBP, is marked as used and is the variable's register from then on. Otherwise every register but RSP and
-- RBP is used, the answer is RAX, and the allocation of the registers is as before.
pub allocate_cases :
    (name : Bytes) (a : RegisterAllocator)
    → ((r : ℕ) × (allocate name a ≡ (
      r,
      record a {
        reg_used = set a.reg_used r true;
        var_to_reg = (name, r) ∷ erase name a.var_to_reg;
      },
    ))
        × (get_or a.reg_used r true ≡ false)
        × (r ≢ 4)
        × (r ≢ 5)
        × (find name (allocate name a).1.var_to_reg ≡ some r))
      ⊎ (((r : ℕ) → r ≢ 4 → r ≢ 5 → get_or a.reg_used r true ≡ true)
          × (allocate name a ≡ (0, spill name a)))
allocate_cases name a = elim (Option-cases (first_free 0 a.reg_used)) [
  | inl e ↦ inr (all_used e, (unfold allocate in ap (give name a) e))
  | inr (r, e) ↦
      let (le, g, n₄, n₅) = first_free-IsFree a.reg_used 0 r e in
      inl (
        r,
        taken r e,
        ap (λ k. get_or a.reg_used k true) (whole r) ∙ g,
        n₄,
        n₅,
        ap (λ p. find name p.1.var_to_reg) (taken r e) ∙ found r,
      )
]
  where
    whole : (r : ℕ) → r ≡ r - 0
    whole r = omega arith

    taken :
        (r : ℕ)
        → first_free 0 a.reg_used ≡ some r
        → allocate name a ≡ (
          r,
          record a {
            reg_used = set a.reg_used r true;
            var_to_reg = (name, r) ∷ erase name a.var_to_reg;
          },
        )
    taken r e = unfold allocate in ap (give name a) e

    all_used :
        first_free 0 a.reg_used ≡ none → (r : ℕ) → r ≢ 4 → r ≢ 5 → get_or a.reg_used r true ≡ true
    all_used e r n₄ n₅ =
        ap (λ k. get_or a.reg_used k true) (whole r)
        ∙ first_free-none a.reg_used 0 r e (omega arith) n₄ n₅

    found : (r : ℕ) → find name ((name, r) ∷ erase name a.var_to_reg) ≡ some r
    found r = unfold find in rw (same_refl name) refl
