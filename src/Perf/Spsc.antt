-- ===== src/Perf/Spsc.antt =====
-- WaitFreeQueue of include/nan_perf.h with a producer and a consumer thread: each load and store is a step of
-- its own, and the steps of the two threads come in any order. The acquire and release accesses of the source
-- make a thread see the other's writes in this order.
use optimized_nan_lang.Base.{get_or, set, ℕ, List, [], ◌∷◌, ◌++◌, ◌==◌, if◌then◌else◌}
use optimized_nan_lang.Ring.{Ring}

-- Where a `push` stands: not begun, behind the load of `tail`, behind the test for a full queue, behind the
-- write to the buffer.
pub data Producer {ℓ} (A : Type ℓ) : Type ℓ where
  not_pushing : Producer A
  loaded cleared written : A → ℕ → Producer A

-- Where a `pop` stands: not begun, behind the load of `head`, behind the test for an empty queue, behind
-- the read of the buffer.
pub data Consumer {ℓ} (A : Type ℓ) : Type ℓ where
  not_popping : Consumer A
  got ready : ℕ → Consumer A
  taken : ℕ → A → Consumer A

-- The memory, the two threads, and what they have pushed and popped so far.
pub record Shared {ℓ} (A : Type ℓ) : Type ℓ where
  pub ring : Ring A
  pub producer : Producer A
  pub consumer : Consumer A
  pub sent : List A
  pub received : List A

-- Whose step is next; a value is what the producer pushes if it begins a `push` now.
pub data Turn {ℓ} (A : Type ℓ) : Type ℓ where
  produce : A → Turn A
  consume : Turn A

module _ {ℓ} {A : Type ℓ} (next : ℕ → ℕ) (d : A) where
  unfoldable pub produce_step : A → Producer A → Shared A → Shared A
  produce_step v not_pushing s = record s { producer = loaded v s.ring.tail }
  produce_step v (loaded w t) s =
      if next t == s.ring.head
      then record s { producer = not_pushing }
      else record s { producer = cleared w t }
  produce_step v (cleared w t) s = record s {
    ring = record s.ring { data_of = set s.ring.data_of t w };
    producer = written w t;
  }
  produce_step v (written w t) s = record s {
    ring = record s.ring { tail = next t };
    producer = not_pushing;
    sent = s.sent ++ w ∷ [];
  }

  unfoldable pub consume_step : Consumer A → Shared A → Shared A
  consume_step not_popping s = record s { consumer = got s.ring.head }
  consume_step (got h) s =
      if h == s.ring.tail
      then record s { consumer = not_popping }
      else record s { consumer = ready h }
  consume_step (ready h) s = record s { consumer = taken h (get_or s.ring.data_of h d) }
  consume_step (taken h x) s = record s {
    ring = record s.ring { head = next h };
    consumer = not_popping;
    received = s.received ++ x ∷ [];
  }

  unfoldable pub run_turns : List (Turn A) → Shared A → Shared A
  unfolding produce_step consume_step
  run_turns [] s = s
  run_turns (produce v ∷ turns) s = run_turns turns (produce_step v s.producer s)
  run_turns (consume ∷ turns) s = run_turns turns (consume_step s.consumer s)
