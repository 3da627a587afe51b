-- ===== src/Perf/Interleaved.antt =====
-- Every step of either thread keeps the queue of include/nan_perf.h first in, first out.
use optimized_nan_lang.Base.{
  Bool-cases, get_or, set, length-set, ℕ, refl, sym, ap, inl, inr, false, List, [], append_assoc,
  arith, ◌+◌, ◌^◌, ◌≤◌, ◌≡◌, ◌∙◌, ◌∷◌, ◌++◌, ◌==◌,
}
use optimized_nan_lang.Ring.{Ring}
use optimized_nan_lang.Ring.Window.{get_or-set_same}
use optimized_nan_lang.Ring.Refine.{IsRing, GoesRound, contents, contents-popped, contents-empty}
use optimized_nan_lang.Perf.Queue.{next_slot, new_queue, next_slot-GoesRound, new_queue-IsRing}
use optimized_nan_lang.Perf.Spsc.{
  Producer, not_pushing, loaded, cleared, written, Consumer, not_popping, got, ready, taken, Shared,
  Turn, produce, consume, produce_step, consume_step, run_turns,
}
use optimized_nan_lang.Perf.Fifo.{
  filled, ProducerKnows, ConsumerKnows, IsFifo, IsSound, written-ConsumerKnows,
  stored-ConsumerKnows, taken-ProducerKnows, contents-written, contents-stored,
}

module _ {A : Type 0} (n : ℕ) (d : A) (next : ℕ → ℕ) (round : GoesRound n next) where
  set-IsRing :
      (r : Ring A) (v : A) → IsRing n r → IsRing n (record r { data_of = set r.data_of r.tail v })
  unfolding IsRing
  set-IsRing r v (hn, tn, e) = (hn, tn, length-set r.data_of r.tail v ∙ e)

  tail-IsRing : (r : Ring A) → IsRing n r → IsRing n (record r { tail = next r.tail })
  unfolding IsRing
  tail-IsRing r (hn, tn, e) = (hn, ground (arith, round r.tail tn), e)

  head-IsRing : (r : Ring A) → IsRing n r → IsRing n (record r { head = next r.head })
  unfolding IsRing
  head-IsRing r (hn, tn, e) = (ground (arith, round r.head hn), tn, e)

  room-of_test :
      (r : Ring A) (t : ℕ)
      → IsRing n r
      → t ≡ r.tail
      → (next t == r.head) ≡ false
      → filled n d r + 2 ≤ n
  unfolding IsRing
  room-of_test r t (hn, tn, e) at_tail free = ground (arith, round r.tail tn, ap next at_tail)

  some-of_test :
      (r : Ring A) (h : ℕ) → IsRing n r → h ≡ r.head → (h == r.tail) ≡ false → 1 ≤ filled n d r
  unfolding IsRing
  some-of_test r h (hn, tn, e) at_head more = ground arith

  written-same : (r : Ring A) (v : A) → IsRing n r → get_or (set r.data_of r.tail v) r.tail d ≡ v
  unfolding IsRing
  written-same r v (hn, tn, e) = get_or-set_same n d r.data_of r.tail v (omega arith)

  -- The value that the producer has written joins the contents.
  stored-IsFifo :
      (s : Shared A) (w : A)
      → IsRing n s.ring
      → filled n d s.ring + 2 ≤ n
      → get_or s.ring.data_of s.ring.tail d ≡ w
      → IsFifo n d s
      → s.sent ++ w ∷ [] ≡ s.received ++ contents n d (record s.ring { tail = next s.ring.tail })
  unfolding IsFifo
  stored-IsFifo s w wf room there f =
      ap (λ q. q ++ w ∷ []) f
      ∙ append_assoc s.received (contents n d s.ring) (w ∷ [])
      ∙ ap (λ q. s.received ++ q)
          (sym (
            contents-stored n d next round s.ring wf room
            ∙ ap (λ x. contents n d s.ring ++ x ∷ []) there))

  -- The value that the consumer has read leaves them.
  taken-IsFifo :
      (s : Shared A) (x : A)
      → IsRing n s.ring
      → 1 ≤ filled n d s.ring
      → get_or s.ring.data_of s.ring.head d ≡ x
      → IsFifo n d s
      → s.sent ≡ (s.received ++ x ∷ []) ++ contents n d (record s.ring { head = next s.ring.head })
  unfolding IsFifo
  taken-IsFifo s x wf some_left read f =
      f
      ∙ ap (λ q. s.received ++ q)
          (contents-popped n next round d s.ring wf (ground arith)
            ∙ ap (λ y. y ∷ contents n d (record s.ring { head = next s.ring.head })) read)
      ∙ sym (
          append_assoc s.received (x ∷ [])
            (contents n d (record s.ring { head = next s.ring.head })))

  produce_step-IsSound :
      (v : A) (p : Producer A) (s : Shared A)
      → IsRing n s.ring
      → ProducerKnows n d s.ring p
      → ConsumerKnows n d s.ring s.consumer
      → IsFifo n d s
      → IsSound n d (produce_step next d v p s)
  unfolding produce_step IsSound ProducerKnows IsFifo
  produce_step-IsSound v not_pushing s wf pk ck f = (wf, refl, ck, f)
  produce_step-IsSound v (loaded w t) s wf pk ck f = elim (Bool-cases (next t == s.ring.head)) [
    | inl full ↦ rw full (wf, tt, ck, f)
    | inr free ↦ rw free (wf, (pk, room-of_test s.ring t wf pk free), ck, f)
  ]
  produce_step-IsSound v (cleared w t) s wf (at_tail, room) ck f = rw at_tail (
    set-IsRing s.ring w wf,
    (refl, room, written-same s.ring w wf),
    written-ConsumerKnows n d next round s.ring w s.consumer room ck,
    f ∙ ap (λ q. s.received ++ q) (sym (contents-written n d next round s.ring w wf)),
  )
  produce_step-IsSound v (written w t) s wf (at_tail, room, there) ck f = rw at_tail (
    tail-IsRing s.ring wf,
    tt,
    stored-ConsumerKnows n d next round s.ring s.consumer wf room ck,
    stored-IsFifo s w wf room (ap (λ i. get_or s.ring.data_of i d) (sym at_tail) ∙ there) f,
  )

  consume_step-IsSound :
      (c : Consumer A) (s : Shared A)
      → IsRing n s.ring
      → ProducerKnows n d s.ring s.producer
      → ConsumerKnows n d s.ring c
      → IsFifo n d s
      → IsSound n d (consume_step next d c s)
  unfolding consume_step IsSound ConsumerKnows IsFifo
  consume_step-IsSound not_popping s wf pk ck f = (wf, pk, refl, f)
  consume_step-IsSound (got h) s wf pk ck f = elim (Bool-cases (h == s.ring.tail)) [
    | inl empty ↦ rw empty (wf, pk, tt, f)
    | inr more ↦ rw more (wf, pk, (ck, some-of_test s.ring h wf ck more), f)
  ]
  consume_step-IsSound (ready h) s wf pk (at_head, some_left) f =
      (wf, pk, (at_head, some_left, refl), f)
  consume_step-IsSound (taken h x) s wf pk (at_head, some_left, read) f = rw at_head (
    head-IsRing s.ring wf,
    taken-ProducerKnows n d next round s.ring s.producer wf some_left pk,
    tt,
    taken-IsFifo s x wf some_left (ap (λ i. get_or s.ring.data_of i d) (sym at_head) ∙ read) f,
  )

  run_turns-IsSound :
      (turns : List (Turn A)) (s : Shared A)
      → IsSound n d s
      → IsSound n d (run_turns next d turns s)
  unfolding run_turns IsSound
  run_turns-IsSound [] s h = h
  run_turns-IsSound (produce v ∷ turns) s (wf, pk, ck, f) =
      run_turns-IsSound turns (produce_step next d v s.producer s)
        (produce_step-IsSound v s.producer s wf pk ck f)
  run_turns-IsSound (consume ∷ turns) s (wf, pk, ck, f) =
      run_turns-IsSound turns (consume_step next d s.consumer s)
        (consume_step-IsSound s.consumer s wf pk ck f)

-- Both threads at rest over a new queue.
abbrev pub new_shared : {A : Type 0} → ℕ → A → Shared A
new_shared k d = record {
  ring = new_queue k d;
  producer = not_pushing;
  consumer = not_popping;
  sent = [];
  received = [];
}

-- From a new queue of N places, N a power of two, and in whatever order the two threads take their
-- steps, what the producer has pushed is what the consumer has popped with the contents behind it.
pub run_turns-IsFifo :
    {A : Type 0} (k : ℕ) (d : A) (turns : List (Turn A))
    → IsFifo (2 ^ k) d (run_turns (next_slot k) d turns (new_shared k d))
unfolding IsSound
run_turns-IsFifo k d turns = all.3
  where
    first : IsSound (2 ^ k) d (new_shared k d)
    first =
        unfold IsSound ProducerKnows ConsumerKnows IsFifo in
        (
          new_queue-IsRing k d,
          tt,
          tt,
          sym (contents-empty (2 ^ k) (next_slot k) (next_slot-GoesRound k) d (new_queue k d) refl),
        )

    all : IsSound (2 ^ k) d (run_turns (next_slot k) d turns (new_shared k d))
    all = run_turns-IsSound (2 ^ k) d (next_slot k) (next_slot-GoesRound k) turns _ first
