-- ===== src/Ring/Refine.antt =====
-- A ring of `n` places is a queue of at most `n - 1` elements.
use optimized_nan_lang.Base.{
  ltb, Bool-cases, length, get_or, set, length-set, ℕ, suc, refl, sym, ap, ap₂, inl, inr, true,
  false, List, [], arith, ◌-◌, ◌<◌, ◌≡◌, ◌∙◌, ◌≢◌, ◌∷◌, ◌++◌, ◌==◌,
}
use optimized_nan_lang.Ring.{
  Ring, ring_push, ring_pop, queue_push, queue_pop, Operation, push, pop, pushed, popped, run_queue,
  run_ring,
}
use optimized_nan_lang.Ring.Window.{
  advance, distance, window, window-set, window-last, length-window, get_or-set_same,
}

unfoldable pub IsRing {ℓ} : {A : Type ℓ} → ℕ → Ring A → Type 0
IsRing n r = (r.head < n) × (r.tail < n) × (length r.data_of ≡ n)

-- `next` goes round in an array of `n`.
abbrev pub GoesRound : ℕ → (ℕ → ℕ) → Type 0
GoesRound n next = (i : ℕ) → i < n → next i ≡ advance n i

unfoldable pub contents {ℓ} : {A : Type ℓ} → ℕ → A → Ring A → List A
unfolding window
contents n d r = window n d r.data_of r.head (distance n r.head r.tail)

module _ {ℓ} {A : Type ℓ} (n : ℕ) (next : ℕ → ℕ) (round : GoesRound n next) (d : A) where
  pub length-contents : (r : Ring A) → length (contents n d r) ≡ distance n r.head r.tail
  unfolding contents
  length-contents r = length-window n d r.data_of (distance n r.head r.tail) r.head

  ring_push-IsRing : (v : A) (r : Ring A) → IsRing n r → IsRing n (ring_push next v r).0
  unfolding IsRing ring_push
  ring_push-IsRing v r (hn, tn, e) = elim (Bool-cases (next r.tail == r.head)) [
    | inl full ↦ rw full (hn, tn, e)
    | inr free ↦ rw free (hn, ground (arith, round r.tail tn), length-set r.data_of r.tail v ∙ e)
  ]

  ring_pop-IsRing : (r : Ring A) → IsRing n r → IsRing n (ring_pop next d r).0
  unfolding IsRing ring_pop
  ring_pop-IsRing r (hn, tn, e) = elim (Bool-cases (r.head == r.tail)) [
    | inl empty ↦ rw empty (hn, tn, e)
    | inr some_left ↦ rw some_left (ground (arith, round r.head hn), tn, e)
  ]

  -- An element is behind the window that ended in front of it.
  contents-pushed :
      (v : A) (r : Ring A)
      → IsRing n r
      → next r.tail ≢ r.head
      → contents n d (record r { data_of = set r.data_of r.tail v; tail = next r.tail })
        ≡ contents n d r ++ v ∷ []
  unfolding contents IsRing
  contents-pushed v r (hn, tn, e) free =
      let k = distance n r.head r.tail in
      let xs = set r.data_of r.tail v in
      ap (window n d xs r.head) longer
      ∙ window-last n d xs r.tail k r.head hn tn refl
      ∙ ap₂ (λ w x. w ++ x ∷ []) (window-set n d r.data_of r.tail v k r.head hn tn (omega arith))
          (get_or-set_same n d r.data_of r.tail v (omega arith))
    where
      longer : distance n r.head (next r.tail) ≡ suc (distance n r.head r.tail)
      longer = ground (arith, round r.tail tn)

  full-length :
      (r : Ring A)
      → IsRing n r
      → (next r.tail == r.head) ≡ true
      → ltb (length (contents n d r)) (n - 1) ≡ false
  unfolding IsRing
  full-length r (hn, tn, e) full = ground (arith, length-contents r, round r.tail tn)

  free-length :
      (r : Ring A)
      → IsRing n r
      → (next r.tail == r.head) ≡ false
      → ltb (length (contents n d r)) (n - 1) ≡ true
  unfolding IsRing
  free-length r (hn, tn, e) free = ground (arith, length-contents r, round r.tail tn)

  pub ring_push-queue_push :
      (v : A) (r : Ring A)
      → IsRing n r
      → (contents n d (ring_push next v r).0 ≡ (queue_push (n - 1) v (contents n d r)).0)
        × ((ring_push next v r).1 ≡ (queue_push (n - 1) v (contents n d r)).1)
  unfolding ring_push queue_push
  ring_push-queue_push v r wf = elim (Bool-cases (next r.tail == r.head)) [
    | inl full ↦ rw (full, full-length r wf full) (refl, refl)
    | inr free ↦
        rw (free, free-length r wf free) (contents-pushed v r wf (ground (arith, free)), refl)
  ]

  pub contents-empty : (r : Ring A) → r.head ≡ r.tail → contents n d r ≡ []
  unfolding contents window
  contents-empty r e = ap (window n d r.data_of r.head) none_between
    where
      none_between : distance n r.head r.tail ≡ 0
      none_between = ground arith

  pub contents-popped :
      (r : Ring A)
      → IsRing n r
      → r.head ≢ r.tail
      → contents n d r ≡ get_or r.data_of r.head d ∷ contents n d (record r { head = next r.head })
  unfolding contents IsRing window
  contents-popped r (hn, tn, e) ne =
      ap (window n d r.data_of r.head) first
      ∙ ap
          (λ h.
            get_or r.data_of r.head d ∷ window n d r.data_of h (distance n (next r.head) r.tail))
          (sym (round r.head hn))
    where
      first : distance n r.head r.tail ≡ suc (distance n (next r.head) r.tail)
      first = ground (arith, round r.head hn)

  pub ring_pop-queue_pop :
      (r : Ring A)
      → IsRing n r
      → (contents n d (ring_pop next d r).0 ≡ (queue_pop (contents n d r)).0)
        × ((ring_pop next d r).1 ≡ (queue_pop (contents n d r)).1)
  unfolding ring_pop queue_pop
  ring_pop-queue_pop r wf = elim (Bool-cases (r.head == r.tail)) [
    | inl empty ↦ rw (empty, contents-empty r (ground (arith, empty))) (refl, refl)
    | inr more ↦ rw (more, contents-popped r wf (ground (arith, more))) (refl, refl)
  ]

  -- Whatever a client asks in a row, the ring answers what the queue of `n - 1` elements answers.
  pub run_ring-run_queue :
      (ops : List (Operation A)) (r : Ring A)
      → IsRing n r
      → run_ring next d ops r ≡ run_queue (n - 1) ops (contents n d r)
  unfolding run_ring run_queue
  run_ring-run_queue [] r wf = refl
  run_ring-run_queue (push v ∷ ops) r wf =
      ap₂ (λ b rest. pushed b ∷ rest) (ring_push-queue_push v r wf).1
        (run_ring-run_queue ops (ring_push next v r).0 (ring_push-IsRing v r wf)
          ∙ ap (run_queue (n - 1) ops) (ring_push-queue_push v r wf).0)
  run_ring-run_queue (pop ∷ ops) r wf =
      ap₂ (λ o rest. popped o ∷ rest) (ring_pop-queue_pop r wf).1
        (run_ring-run_queue ops (ring_pop next d r).0 (ring_pop-IsRing r wf)
          ∙ ap (run_queue (n - 1) ops) (ring_pop-queue_pop r wf).0)
