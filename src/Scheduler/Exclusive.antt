-- ===== src/Scheduler/Exclusive.antt =====
-- The lock of `core_sync` excludes the threads from each other.
use optimized_nan_lang.Base.{
  Bool-cases, ℕ, inl, inr, Bool, true, false, List, [], arith, ◌+◌, ◌-◌, ◌≡◌, ◌∷◌, ◌==◌,
}
use optimized_nan_lang.Scheduler.{
  Phase, outside, spinning, critical, core_sync, Cores, step_of, run_cores,
}

abbrev is_critical : Phase → ℕ
is_critical critical = 1
is_critical other = 0

unfoldable pub criticals : List Phase → ℕ
criticals [] = 0
criticals (p ∷ ps) = is_critical p + criticals ps

abbrev pub held : Bool → ℕ
held true = 1
held false = 0

core_sync-held :
    (k : ℕ) (p : Phase) (sync_flag : Bool)
    → k + is_critical p ≡ held sync_flag
    → k + is_critical (core_sync p sync_flag).0 ≡ held (core_sync p sync_flag).1
unfolding core_sync
core_sync-held k outside sync_flag e = e
core_sync-held k spinning true e = e
core_sync-held k spinning false e = omega (arith, e)
core_sync-held k critical true e = omega (arith, e)
core_sync-held k critical false e = omega (arith, e)

-- `k` of the threads in front are behind their loops.
step_of-held :
    (k i : ℕ) (ps : List Phase) (sync_flag : Bool)
    → k + criticals ps ≡ held sync_flag
    → k + criticals (step_of i ps sync_flag).0 ≡ held (step_of i ps sync_flag).1
unfolding step_of criticals
step_of-held k i [] sync_flag e = e
step_of-held k i (p ∷ ps) sync_flag e = elim (Bool-cases (i == 0)) [
  | inl h ↦ rw h (
      let front : (k + criticals ps) + is_critical p ≡ held sync_flag = omega (arith, e) in
      let after = core_sync-held (k + criticals ps) p sync_flag front in omega (arith, after))
  | inr h ↦ rw h (
      let front : (k + is_critical p) + criticals ps ≡ held sync_flag = omega (arith, e) in
      let after = step_of-held (k + is_critical p) (i - 1) ps sync_flag front in
      omega (arith, after))
]

-- Whatever the order of the steps: as long as the flag is set exactly one of the threads is behind its
-- loop, and else none is, if it was so before.
pub run_cores-held :
    (schedule : List ℕ) (s : Cores)
    → criticals s.threads ≡ held s.sync_flag
    → criticals (run_cores schedule s).threads ≡ held (run_cores schedule s).sync_flag
unfolding run_cores
run_cores-held [] s e = e
run_cores-held (i ∷ schedule) s e =
    let after = step_of-held 0 i s.threads s.sync_flag (omega (arith, e)) in
    run_cores-held schedule _ (omega (arith, after))
