-- ===== src/Pulse/Buffer.antt =====
-- SignalBuffer of include/nan_pulse.h: a ring of 512 bytes.
use optimized_nan_lang.Base.{
  length, replicate, length-replicate, ℕ, Bool, Option, List, [], arith, ◌+◌, ◌-◌, ◌%◌, ◌^◌, ◌≡◌,
}
use optimized_nan_lang.Ring.{Ring, ring_push, ring_pop, Operation, run_ring, run_queue}
use optimized_nan_lang.Ring.Refine.{
  IsRing, GoesRound, contents, length-contents, run_ring-run_queue,
}

abbrev pub buf_size : ℕ
buf_size = 512

-- `(tail + 1) % BUF_SIZE`
abbrev pub next_index : ℕ → ℕ
next_index i = (i + 1) % buf_size

abbrev pub new_buffer : Ring ℕ
new_buffer = record { data_of = replicate buf_size 0; head = 0; tail = 0 }

unfoldable pub push_signal : ℕ → Ring ℕ → Ring ℕ × Bool
unfolding ring_push
push_signal v b = ring_push next_index v b

unfoldable pub pop_signal : Ring ℕ → Ring ℕ × Option ℕ
unfolding ring_pop
pop_signal b = ring_pop next_index 0 b

-- The difference wraps at 2^64.
unfoldable pub size : Ring ℕ → ℕ
size b = ((b.tail + 2 ^ 64 - b.head) % 2 ^ 64 + buf_size) % 2 ^ 64 % buf_size

next_index-GoesRound : GoesRound buf_size next_index
next_index-GoesRound i lt = ground arith

new_buffer-IsRing : IsRing buf_size new_buffer
unfolding IsRing
new_buffer-IsRing = (omega arith, omega arith, length-replicate {A = ℕ} buf_size 0)

-- A new buffer answers any sequence of pushes and pops as a queue of at most 511 signals does.
pub run_ring-new_buffer :
    (ops : List (Operation ℕ)) → run_ring next_index 0 ops new_buffer ≡ run_queue 511 ops []
unfolding contents
run_ring-new_buffer ops =
    run_ring-run_queue buf_size next_index next_index-GoesRound 0 ops new_buffer new_buffer-IsRing

-- The size is the number of the signals in the buffer.
pub size-contents : (b : Ring ℕ) → IsRing buf_size b → size b ≡ length (contents buf_size 0 b)
unfolding size IsRing
size-contents b (hn, tn, e) =
    ground (arith, length-contents buf_size next_index next_index-GoesRound 0 b)
