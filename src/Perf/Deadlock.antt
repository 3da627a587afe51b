-- ===== src/Perf/Deadlock.antt =====
-- DeadlockDetector of include/nan_perf.h. An entry that is -1 in the source is `none` here.
use optimized_nan_lang.Base.{
  get_or, set, replicate, ℕ, zero, suc, Bool, true, false, Option, none, some, List, ◌==◌,
  if◌then◌else◌,
}

abbrev pub max_res : ℕ
max_res = 32

pub record DeadlockDetector : Type 0 where
  pub holder : List (Option ℕ)
  pub waiting : List (Option ℕ)

abbrev pub new_detector : DeadlockDetector
new_detector = record { holder = replicate max_res none; waiting = replicate max_res none }

-- Who holds the resource that the thread waits for?
unfoldable pub waits_for : DeadlockDetector → ℕ → Option ℕ
waits_for s thread = elim (get_or s.waiting thread none) [
  | none ↦ none
  | some res ↦ get_or s.holder res none
]

-- The steps of the search from `cur`.
unfoldable pub cycle_from : ℕ → DeadlockDetector → List Bool → Option ℕ → Bool
unfolding waits_for
cycle_from zero s visited cur = false
cycle_from (suc steps) s visited none = false
cycle_from (suc steps) s visited (some cur) =
    let rest = cycle_from steps s (set visited cur true) (waits_for s cur) in
    if get_or visited cur false then true else rest

unfoldable pub has_cycle : DeadlockDetector → ℕ → Bool
unfolding cycle_from
has_cycle s start = cycle_from max_res s (replicate max_res false) (some start)

unfoldable pub try_acquire : ℕ → ℕ → DeadlockDetector → DeadlockDetector × Bool
unfolding has_cycle
try_acquire thread resource s = elim (get_or s.holder resource none) [
  | none ↦ (record s { holder = set s.holder resource (some thread) }, true)
  | some other ↦
      let asked = record s { waiting = set s.waiting thread (some resource) } in
      if has_cycle asked thread
      then (record asked { waiting = set asked.waiting thread none }, false)
      else (asked, false)
]

unfoldable pub release : ℕ → ℕ → DeadlockDetector → DeadlockDetector
release thread resource s = elim (get_or s.holder resource none) [
  | none ↦ s
  | some other ↦
      if other == thread
      then record { holder = set s.holder resource none; waiting = set s.waiting thread none }
      else s
]
