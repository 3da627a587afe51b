-- ===== src/Pulse/Tests.antt =====
-- Pulses on concrete inputs.
use optimized_nan_lang.Base.{Bytes, refl, [], ◌≡◌, ◌∷◌}
use optimized_nan_lang.Ring.{push, pop, run_ring, run_queue}
use optimized_nan_lang.Pulse.Buffer.{next_index, new_buffer, run_ring-new_buffer}
use optimized_nan_lang.Pulse.Flow.{
  PulseFlowStats, reset_analyzer, ingest, ingest_all, count_levels_avx2, count_levels_plain,
}
use optimized_nan_lang.Pulse.Levels.{count_levels_avx2-eq}
use optimized_nan_lang.Pulse.Totals.{IsConsistent, ingest_all-IsConsistent}

run_ring-new_buffer_example :
    run_ring next_index 0 (pop ∷ push 7 ∷ push 8 ∷ pop ∷ []) new_buffer
    ≡ run_queue 511 (pop ∷ push 7 ∷ push 8 ∷ pop ∷ []) []
run_ring-new_buffer_example = run_ring-new_buffer (pop ∷ push 7 ∷ push 8 ∷ pop ∷ [])

abbrev some_pulses : Bytes
some_pulses = 1 ∷ 0 ∷ 255 ∷ 3 ∷ 3 ∷ 2 ∷ []

abbrev fresh_stats : PulseFlowStats
fresh_stats = record reset_analyzer.stats { samples = 6 }

count_levels_avx2-eq_example :
    count_levels_avx2 some_pulses fresh_stats ≡ count_levels_plain some_pulses fresh_stats
count_levels_avx2-eq_example = count_levels_avx2-eq some_pulses fresh_stats

ingest_all-IsConsistent_example :
    IsConsistent (ingest_all (some_pulses ∷ some_pulses ∷ []) reset_analyzer)
ingest_all-IsConsistent_example = ingest_all-IsConsistent (some_pulses ∷ some_pulses ∷ [])

toggles-pulses : (ingest some_pulses reset_analyzer).stats.toggles ≡ 2
unfolding ingest
toggles-pulses = refl
