-- ===== src/Perf/Fifo.antt =====
-- Whatever the order of the steps, the consumer receives what the producer sent, in order.
use optimized_nan_lang.Base.{
  get_or, set, ℕ, suc, refl, ap, [], arith, ◌+◌, ◌≤◌, ◌≡◌, ◌∙◌, ◌∷◌, ◌++◌,
}
use optimized_nan_lang.Ring.{Ring}
use optimized_nan_lang.Ring.Window.{distance, window, window-set, window-last, get_or-set_other}
use optimized_nan_lang.Ring.Refine.{IsRing, GoesRound, contents}
use optimized_nan_lang.Perf.Spsc.{
  Producer, not_pushing, loaded, cleared, written, Consumer, not_popping, got, ready, taken, Shared,
}

module _ {A : Type 0} (n : ℕ) (d : A) where
  abbrev pub filled : Ring A → ℕ
  filled r = distance n r.head r.tail

  -- What the producer knows of the ring, whatever the consumer does.
  unfoldable pub ProducerKnows : Ring A → Producer A → Type 0
  ProducerKnows r not_pushing = Unit
  ProducerKnows r (loaded v t) = t ≡ r.tail
  ProducerKnows r (cleared v t) = (t ≡ r.tail) × (filled r + 2 ≤ n)
  ProducerKnows r (written v t) = (t ≡ r.tail) × (filled r + 2 ≤ n) × (get_or r.data_of t d ≡ v)

  -- What the consumer knows of the ring, whatever the producer does.
  unfoldable pub ConsumerKnows : Ring A → Consumer A → Type 0
  ConsumerKnows r not_popping = Unit
  ConsumerKnows r (got h) = h ≡ r.head
  ConsumerKnows r (ready h) = (h ≡ r.head) × (1 ≤ filled r)
  ConsumerKnows r (taken h x) = (h ≡ r.head) × (1 ≤ filled r) × (get_or r.data_of h d ≡ x)

  -- Nothing is lost, doubled or moved between the two threads.
  unfoldable pub IsFifo : Shared A → Type 0
  IsFifo s = s.sent ≡ s.received ++ contents n d s.ring

  unfoldable pub IsSound : Shared A → Type 0
  unfolding ProducerKnows ConsumerKnows IsFifo
  IsSound s =
      IsRing n s.ring × ProducerKnows s.ring s.producer × ConsumerKnows s.ring s.consumer × IsFifo s

  module _ (next : ℕ → ℕ) (round : GoesRound n next) where
    -- A write to the free place behind the last element.
    pub written-ConsumerKnows :
        (r : Ring A) (v : A) (c : Consumer A)
        → filled r + 2 ≤ n
        → ConsumerKnows r c
        → ConsumerKnows (record r { data_of = set r.data_of r.tail v }) c
    unfolding ConsumerKnows
    written-ConsumerKnows r v not_popping room k = k
    written-ConsumerKnows r v (got h) room k = k
    written-ConsumerKnows r v (ready h) room k = k
    written-ConsumerKnows r v (taken h x) room (at_head, some_left, read) =
        (at_head, some_left, get_or-set_other n d r.data_of h r.tail v (ground arith) ∙ read)

    -- A longer queue.
    pub stored-ConsumerKnows :
        (r : Ring A) (c : Consumer A)
        → IsRing n r
        → filled r + 2 ≤ n
        → ConsumerKnows r c
        → ConsumerKnows (record r { tail = next r.tail }) c
    unfolding ConsumerKnows IsRing
    stored-ConsumerKnows r not_popping wf room k = k
    stored-ConsumerKnows r (got h) wf room k = k
    stored-ConsumerKnows r (ready h) (hn, tn, e) room (at_head, some_left) =
        (at_head, ground (arith, round r.tail tn))
    stored-ConsumerKnows r (taken h x) (hn, tn, e) room (at_head, some_left, read) =
        (at_head, ground (arith, round r.tail tn), read)

    -- A shorter queue.
    pub taken-ProducerKnows :
        (r : Ring A) (p : Producer A)
        → IsRing n r
        → 1 ≤ filled r
        → ProducerKnows r p
        → ProducerKnows (record r { head = next r.head }) p
    unfolding ProducerKnows IsRing
    taken-ProducerKnows r not_pushing wf some_left k = k
    taken-ProducerKnows r (loaded v t) wf some_left k = k
    taken-ProducerKnows r (cleared v t) (hn, tn, e) some_left (at_tail, room) =
        (at_tail, ground (arith, round r.head hn))
    taken-ProducerKnows r (written v t) (hn, tn, e) some_left (at_tail, room, there) =
        (at_tail, ground (arith, round r.head hn), there)

    pub contents-written :
        (r : Ring A) (v : A)
        → IsRing n r
        → contents n d (record r { data_of = set r.data_of r.tail v }) ≡ contents n d r
    unfolding contents IsRing
    contents-written r v (hn, tn, e) =
        window-set n d r.data_of r.tail v (filled r) r.head hn tn (omega arith)

    pub contents-stored :
        (r : Ring A)
        → IsRing n r
        → filled r + 2 ≤ n
        → contents n d (record r { tail = next r.tail })
          ≡ contents n d r ++ get_or r.data_of r.tail d ∷ []
    unfolding contents IsRing
    contents-stored r (hn, tn, e) room =
        ap (window n d r.data_of r.head) longer
        ∙ window-last n d r.data_of r.tail (filled r) r.head hn tn refl
      where
        longer : distance n r.head (next r.tail) ≡ suc (filled r)
        longer = ground (arith, round r.tail tn)
