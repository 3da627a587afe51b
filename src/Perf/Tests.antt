-- ===== src/Perf/Tests.antt =====
-- The structures of include/nan_perf.h on concrete inputs.
use optimized_nan_lang.Base.{
  ℤ, pos, negsuc, ℕ, zero, suc, refl, true, false, Option, some, List, [], ◌+◌, ◌%◌, ◌≡◌, ◌∷◌,
}
use optimized_nan_lang.Perf.Queue.{next_slot}
use optimized_nan_lang.Perf.Spsc.{Turn, produce, consume, run_turns}
use optimized_nan_lang.Perf.Fifo.{IsFifo}
use optimized_nan_lang.Perf.Reorder.{Inst, reorder}
use optimized_nan_lang.Perf.Deadlock.{DeadlockDetector, has_cycle}
use optimized_nan_lang.Perf.Cycle.{Meets, has_cycle-Meets}
use optimized_nan_lang.Perf.Station.{ReservationStation, execute_ready}
use optimized_nan_lang.Perf.Interleaved.{new_shared, run_turns-IsFifo}

-- The consumer looks while the producer is between its two stores, and again behind them.
abbrev some_turns : List (Turn ℕ)
some_turns =
    produce 5
    ∷ produce 5
    ∷ consume
    ∷ consume
    ∷ produce 5
    ∷ consume
    ∷ produce 5
    ∷ consume
    ∷ consume
    ∷ consume
    ∷ produce 6
    ∷ []

received-some_turns : (run_turns (next_slot 2) 0 some_turns (new_shared 2 0)).received ≡ 5 ∷ []
unfolding run_turns next_slot
received-some_turns = refl

run_turns-IsFifo_example : IsFifo 4 0 (run_turns (next_slot 2) 0 some_turns (new_shared 2 0))
run_turns-IsFifo_example = run_turns-IsFifo 2 0 some_turns

abbrev inst : ℤ → ℤ → Inst
inst src dst = record { op = 5; src1 = src; src2 = src; dst = dst }

-- The second instruction reads what the first one writes, and is left out.
reorder-dependent :
    reorder (inst (pos 1) (pos 2) ∷ inst (pos 2) (pos 3) ∷ []) ≡ inst (pos 1) (pos 2) ∷ []
unfolding reorder
reorder-dependent = refl

-- Each of two threads holds what the other one waits for.
abbrev crossed : DeadlockDetector
crossed = record { holder = some 0 ∷ some 1 ∷ []; waiting = some 1 ∷ some 0 ∷ [] }

abbrev ring_from : ℕ → ℕ → List (Option ℕ)
ring_from zero i = []
ring_from (suc n) i = some (i % 32) ∷ ring_from n (i + 1)

-- All 32 threads wait in a ring, which the search does not see.
ring-unseen : has_cycle (record { holder = ring_from 32 0; waiting = ring_from 32 1 }) 0 ≡ false
unfolding has_cycle
ring-unseen = refl

has_cycle-Meets_example : Meets crossed 1
has_cycle-Meets_example = has_cycle-Meets crossed 1 (unfold has_cycle in refl)

abbrev stations : ReservationStation
stations = record {
  stations =
      (record { op = 6; vj = 3; vk = 5; qj = negsuc 0; qk = negsuc 0; busy = true })
      ∷ (record { op = 5; vj = 1; vk = 0; qj = pos 0; qk = negsuc 0; busy = true })
      ∷ [];
  result_bus = 0;
}

result-stations : (execute_ready stations).result_bus ≡ 0xfffffffffffffffe
unfolding execute_ready
result-stations = refl
