-- ===== src/Perf/Queue.antt =====
-- WaitFreeQueue of include/nan_perf.h, for one thread: a ring of N places, where N is a power of two.
use optimized_nan_lang.Base.{
  replicate, length-replicate, bit_and-mask, bit_and-mask_top, ℕ, zero, suc, bit_and, refl, ap,
  Bool, Option, List, [], arith, ◌+◌, ◌-◌, ◌^◌, ◌≤◌, ◌≡◌, ◌∙◌,
}
use optimized_nan_lang.Ring.{Ring, ring_push, ring_pop, Operation, run_ring, run_queue}
use optimized_nan_lang.Ring.Refine.{IsRing, GoesRound, run_ring-run_queue, contents-empty}

module _ (k : ℕ) where
  -- `(t + 1) & (N - 1)`
  unfoldable pub next_slot : ℕ → ℕ
  next_slot t = bit_and (t + 1) (2 ^ k - 1)

  module _ {ℓ} {A : Type ℓ} (d : A) where
    -- Every place holds the value of `T{}`.
    abbrev pub new_queue : Ring A
    new_queue = record { data_of = replicate (2 ^ k) d; head = 0; tail = 0 }

    unfoldable pub push_value : A → Ring A → Ring A × Bool
    unfolding next_slot ring_push
    push_value v q = ring_push next_slot v q

    unfoldable pub pop_value : Ring A → Ring A × Option A
    unfolding next_slot ring_pop
    pop_value q = ring_pop next_slot d q

  pub next_slot-GoesRound : GoesRound (2 ^ k) next_slot
  unfolding next_slot
  next_slot-GoesRound i lt = ground (arith, bit_and-mask k (i + 1), bit_and-mask_top k)

one_place : (k : ℕ) → 1 ≤ 2 ^ k
one_place zero = omega arith
one_place (suc k) = omega (arith, one_place k)

pub new_queue-IsRing {ℓ} : {A : Type ℓ} (k : ℕ) (d : A) → IsRing (2 ^ k) (new_queue k d)
unfolding IsRing
new_queue-IsRing k d = (one_place k, one_place k, length-replicate (2 ^ k) d)

-- A new queue of N places, N a power of two, answers any sequence of pushes and pops as a queue of at
-- most N - 1 elements does.
pub run_ring-new_queue {ℓ} :
    {A : Type ℓ} (k : ℕ) (d : A) (ops : List (Operation A))
    → run_ring (next_slot k) d ops (new_queue k d) ≡ run_queue (2 ^ k - 1) ops []
run_ring-new_queue k d ops =
    run_ring-run_queue (2 ^ k) (next_slot k) (next_slot-GoesRound k) d ops (new_queue k d)
      (new_queue-IsRing k d)
    ∙ ap (run_queue (2 ^ k - 1) ops)
        (contents-empty (2 ^ k) (next_slot k) (next_slot-GoesRound k) d (new_queue k d) refl)
