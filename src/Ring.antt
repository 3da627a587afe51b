-- ===== src/Ring.antt =====
-- What SignalBuffer of include/nan_pulse.h and WaitFreeQueue of include/nan_perf.h share: an array with the
-- indices of its first element and of the place behind its last one. They differ in how an index is moved on,
-- which is the parameter `next`.
pub mod Window
pub mod Refine
use optimized_nan_lang.Base.{
  ltb, length, get_or, set, ℕ, Bool, true, false, Option, none, some, List, [], ◌∷◌, ◌++◌, ◌==◌,
  if◌then◌else◌,
}

pub record Ring {ℓ} (A : Type ℓ) : Type ℓ where
  pub data_of : List A
  pub head : ℕ
  pub tail : ℕ

module _ {ℓ} {A : Type ℓ} (next : ℕ → ℕ) where
  -- `false` is a full buffer.
  unfoldable pub ring_push : A → Ring A → Ring A × Bool
  ring_push v r =
      if next r.tail == r.head
      then (r, false)
      else (record r { data_of = set r.data_of r.tail v; tail = next r.tail }, true)

  -- `none` is an empty buffer.
  unfoldable pub ring_pop : A → Ring A → Ring A × Option A
  ring_pop d r =
      if r.head == r.tail
      then (r, none)
      else (record r { head = next r.head }, some (get_or r.data_of r.head d))

-- The operations of a client, and what they answer.
pub data Operation {ℓ} (A : Type ℓ) : Type ℓ where
  push : A → Operation A
  pop : Operation A

pub data Answer {ℓ} (A : Type ℓ) : Type ℓ where
  pushed : Bool → Answer A
  popped : Option A → Answer A

-- The specification: a queue that holds `room` elements at most.
unfoldable pub queue_push {ℓ} : {A : Type ℓ} → ℕ → A → List A → List A × Bool
queue_push room v q = if ltb (length q) room then (q ++ v ∷ [], true) else (q, false)

unfoldable pub queue_pop {ℓ} : {A : Type ℓ} → List A → List A × Option A
queue_pop [] = ([], none)
queue_pop (x ∷ q) = (q, some x)

unfoldable pub run_queue {ℓ} : {A : Type ℓ} → ℕ → List (Operation A) → List A → List (Answer A)
unfolding queue_push queue_pop
run_queue room [] q = []
run_queue room (push v ∷ ops) q =
    pushed (queue_push room v q).1 ∷ run_queue room ops (queue_push room v q).0
run_queue room (pop ∷ ops) q = popped (queue_pop q).1 ∷ run_queue room ops (queue_pop q).0

unfoldable pub run_ring {ℓ} :
    {A : Type ℓ} → (ℕ → ℕ) → A → List (Operation A) → Ring A → List (Answer A)
unfolding ring_push ring_pop
run_ring next d [] r = []
run_ring next d (push v ∷ ops) r =
    pushed (ring_push next v r).1 ∷ run_ring next d ops (ring_push next v r).0
run_ring next d (pop ∷ ops) r =
    popped (ring_pop next d r).1 ∷ run_ring next d ops (ring_pop next d r).0
