-- ===== src/Scheduler/Tests.antt =====
-- Three threads, of which two are in the loop at once.
use optimized_nan_lang.Base.{refl, true, false, [], ◌≡◌, ◌∷◌}
use optimized_nan_lang.Scheduler.{Cores, outside, spinning, critical, run_cores}
use optimized_nan_lang.Scheduler.Exclusive.{criticals, held, run_cores-held}

abbrev idle : Cores
idle = record { threads = outside ∷ outside ∷ outside ∷ []; sync_flag = false }

second-waits :
    run_cores (0 ∷ 2 ∷ 0 ∷ 2 ∷ 2 ∷ []) idle
    ≡ record { threads = critical ∷ outside ∷ spinning ∷ []; sync_flag = true }
unfolding run_cores
second-waits = refl

second-enters :
    run_cores (0 ∷ 2 ∷ 0 ∷ 2 ∷ 0 ∷ 2 ∷ []) idle
    ≡ record { threads = outside ∷ outside ∷ critical ∷ []; sync_flag = true }
unfolding run_cores
second-enters = refl

nobody_inside : criticals idle.threads ≡ held idle.sync_flag
unfolding criticals
nobody_inside = refl

run_cores-held_example :
    criticals (run_cores (0 ∷ 2 ∷ 0 ∷ 2 ∷ 1 ∷ []) idle).threads
    ≡ held (run_cores (0 ∷ 2 ∷ 0 ∷ 2 ∷ 1 ∷ []) idle).sync_flag
run_cores-held_example = run_cores-held (0 ∷ 2 ∷ 0 ∷ 2 ∷ 1 ∷ []) idle nobody_inside
