-- ===== src/Perf/Cycle.antt =====
-- A cycle that the detector of include/nan_perf.h reports is one: a thread that the start waits for, through
-- others, waits for itself.
use optimized_nan_lang.Base.{
  ==_iff, Bool-cases, same, get_or, set, replicate, ℕ, zero, suc, refl, sym, ap, inl, inr, Bool,
  true, false, Option, none, some, List, arith, ◌<◌, ◌≡◌, ◌∙◌, ◌==◌, if◌then◌else◌,
}
use optimized_nan_lang.Ring.Window.{get_or-set_other}
use optimized_nan_lang.Perf.Deadlock.{DeadlockDetector, max_res, waits_for, cycle_from, has_cycle}

-- The thread at the end of `n` waits, if each of them has one.
unfoldable pub follow : DeadlockDetector → ℕ → ℕ → Option ℕ
unfolding waits_for
follow s zero thread = some thread
follow s (suc n) thread = elim (follow s n thread) [ none ↦ none | some t ↦ waits_for s t ]

-- The same thread stands at two places of the chain.
unfoldable pub Meets : DeadlockDetector → ℕ → Type 0
unfolding follow
Meets s start =
    (i : ℕ) × (j : ℕ) × (t : ℕ) × (i < j)
    × (follow s i start ≡ some t)
    × (follow s j start ≡ some t)

SeenBefore : DeadlockDetector → ℕ → ℕ → List Bool → Type 0
unfolding follow
SeenBefore s start k visited =
    (t : ℕ) → get_or visited t false ≡ true → (i : ℕ) × (i < k) × (follow s i start ≡ some t)

module _ (s : DeadlockDetector) (start : ℕ) where
  step-SeenBefore :
      (k cur : ℕ) (visited : List Bool)
      → follow s k start ≡ some cur
      → SeenBefore s start k visited
      → SeenBefore s start (suc k) (set visited cur true)
  unfolding SeenBefore
  step-SeenBefore k cur visited here seen t e = elim (Bool-cases (t == cur)) [
    | inl same ↦ (k, omega arith, here ∙ ap some (sym ((==_iff t cur).0 same)))
    | inr other ↦
        let (i, lt, at) =
          seen t (sym (get_or-set_other 0 false visited t cur true (ground (arith, other))) ∙ e) in
        (i, omega arith, at)
  ]

  follow-suc : (k cur : ℕ) → follow s k start ≡ some cur → follow s (suc k) start ≡ waits_for s cur
  unfolding follow
  follow-suc k cur here = ap (λ o. elim o [ none ↦ none | some t ↦ waits_for s t ]) here

  -- What is left of the search where `cur` was not visited.
  cycle_from-later :
      (steps : ℕ) (visited : List Bool) (cur : ℕ)
      → get_or visited cur false ≡ false
      → cycle_from (suc steps) s visited (some cur) ≡ true
      → cycle_from steps s (set visited cur true) (waits_for s cur) ≡ true
  unfolding cycle_from
  cycle_from-later steps visited cur fresh e = later (get_or visited cur false) _ fresh e
    where
      later : (b r : Bool) → b ≡ false → (if b then true else r) ≡ true → r ≡ true
      later true r f e = ground arith
      later false r f e = e

  cycle_from-Meets :
      (steps k : ℕ) (visited : List Bool) (cur : Option ℕ)
      → follow s k start ≡ cur
      → SeenBefore s start k visited
      → cycle_from steps s visited cur ≡ true
      → Meets s start
  unfolding Meets SeenBefore
  cycle_from-Meets zero k visited cur here seen e = absurd (unfold cycle_from in ground arith)
  cycle_from-Meets (suc steps) k visited none here seen e =
      absurd (unfold cycle_from in ground arith)
  cycle_from-Meets (suc steps) k visited (some cur) here seen e =
      elim (Bool-cases (get_or visited cur false)) [
        | inl met ↦ let (i, lt, at) = seen cur met in (i, k, cur, lt, at, here)
        | inr fresh ↦
            cycle_from-Meets steps (suc k) (set visited cur true) (waits_for s cur)
              (follow-suc k cur here) (step-SeenBefore k cur visited here seen)
              (cycle_from-later steps visited cur fresh e)
      ]

get_or-replicate : (n i : ℕ) → get_or (replicate n false) i false ≡ false
get_or-replicate zero i = refl
get_or-replicate (suc n) zero = refl
get_or-replicate (suc n) (suc i) = get_or-replicate n i

-- If the detector reports a cycle for a thread, the chain of waits that begins at that thread comes to some
-- thread twice.
pub has_cycle-Meets : (s : DeadlockDetector) (start : ℕ) → has_cycle s start ≡ true → Meets s start
unfolding has_cycle
has_cycle-Meets s start e =
    cycle_from-Meets s start max_res 0 (replicate max_res false) (some start) at_start nothing e
  where
    at_start : follow s 0 start ≡ some start
    at_start = unfold follow in refl

    nothing : SeenBefore s start 0 (replicate max_res false)
    nothing =
        unfold SeenBefore in λ t seen. absurd (ground (arith, seen, get_or-replicate max_res t))
