-- ===== src/Scheduler.antt =====
-- `TaskScheduler::core_sync` of kernel/scheduler.cpp, run by any number of threads. A schedule is the list of
-- the threads whose steps come next; an exchange and a store of the atomic flag are a step each.
pub mod Exclusive
mod Tests
use optimized_nan_lang.Base.{ℕ, Bool, true, false, List, [], ◌-◌, ◌∷◌, ◌==◌, if◌then◌else◌}

-- A thread outside `core_sync`, in its loop, and behind it.
pub data Phase : Type 0 where
  outside spinning critical : Phase

-- The thread and `sync_flag`.
unfoldable pub core_sync : Phase → Bool → Phase × Bool
core_sync outside sync_flag = (spinning, sync_flag)
core_sync spinning true = (spinning, true)
core_sync spinning false = (critical, true)
core_sync critical sync_flag = (outside, false)

pub record Cores : Type 0 where
  pub threads : List Phase
  pub sync_flag : Bool

-- A step of one of the threads.
unfoldable pub step_of : ℕ → List Phase → Bool → List Phase × Bool
unfolding core_sync
step_of i [] sync_flag = ([], sync_flag)
step_of i (p ∷ ps) sync_flag =
    let (p', here) = core_sync p sync_flag in
    let (ps', later) = step_of (i - 1) ps sync_flag in
    if i == 0 then (p' ∷ ps, here) else (p ∷ ps', later)

unfoldable pub run_cores : List ℕ → Cores → Cores
unfolding step_of
run_cores [] s = s
run_cores (i ∷ schedule) s =
    let (threads, sync_flag) = step_of i s.threads s.sync_flag in
    run_cores schedule (record { threads = threads; sync_flag = sync_flag })
