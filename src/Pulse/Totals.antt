-- ===== src/Pulse/Totals.antt =====
-- The statistics of the analyzer are consistent after every batch.
use optimized_nan_lang.Base.{
  length, Bytes, ℕ, refl, ap, Option, none, some, List, [], arith, ◌+◌, ◌≤◌, ◌≡◌, ◌∷◌,
}
use optimized_nan_lang.Pulse.Flow.{
  LogicLevel, low, high, uncertain, classify, PulseFlowStats, PulseFlowAnalyzer, reset_analyzer,
  count_levels_avx2, streaks, transition, transition_step, longest, count_transitions_and_streaks,
  ingest, ingest_all,
}
use optimized_nan_lang.Pulse.Levels.{popcount-le, popcount-odd, blocks-counted, counted, is_odd}

-- Every sample has one level.
HasTotals : PulseFlowStats → Type 0
HasTotals s = s.high_count + s.low_count + s.uncertain_count ≡ s.samples

-- Every toggle is an edge of one kind, and the longest streaks are no shorter than the running ones.
HasEdges : PulseFlowAnalyzer → Type 0
HasEdges a =
    (a.stats.rising_edges + a.stats.falling_edges ≡ a.stats.toggles)
    × (a.current_high_streak ≤ a.stats.longest_high_streak)
    × (a.current_low_streak ≤ a.stats.longest_low_streak)

unfoldable pub IsConsistent : PulseFlowAnalyzer → Type 0
unfolding HasTotals HasEdges
IsConsistent a = HasTotals a.stats × HasEdges a

streaks-HasEdges :
    (level : LogicLevel) (a : PulseFlowAnalyzer) → HasEdges a → HasEdges (streaks level a)
unfolding HasEdges streaks longest
streaks-HasEdges low a (e, h, l) = (e, ground arith, ground arith)
streaks-HasEdges high a (e, h, l) = (e, ground arith, ground arith)
streaks-HasEdges uncertain a (e, h, l) = (e, ground arith, ground arith)

transition-HasEdges :
    (prev : Option LogicLevel) (level : LogicLevel) (a : PulseFlowAnalyzer)
    (now : Option LogicLevel)
    → HasEdges a
    → HasEdges (record a { stats = transition prev level a.stats; prev = now })
unfolding HasEdges transition
transition-HasEdges none level a now h = h
transition-HasEdges (some low) low a now h = h
transition-HasEdges (some low) high a now (e, hs, ls) = (omega (arith, e), hs, ls)
transition-HasEdges (some low) uncertain a now h = h
transition-HasEdges (some high) low a now (e, hs, ls) = (omega (arith, e), hs, ls)
transition-HasEdges (some high) high a now h = h
transition-HasEdges (some high) uncertain a now h = h
transition-HasEdges (some uncertain) level a now h = h

transition-HasTotals :
    (prev : Option LogicLevel) (level : LogicLevel) (s : PulseFlowStats)
    → HasTotals s
    → HasTotals (transition prev level s)
unfolding HasTotals transition
transition-HasTotals none level s h = h
transition-HasTotals (some low) low s h = h
transition-HasTotals (some low) high s h = h
transition-HasTotals (some low) uncertain s h = h
transition-HasTotals (some high) low s h = h
transition-HasTotals (some high) high s h = h
transition-HasTotals (some high) uncertain s h = h
transition-HasTotals (some uncertain) level s h = h

streaks-HasTotals :
    (level : LogicLevel) (a : PulseFlowAnalyzer)
    → HasTotals a.stats
    → HasTotals (streaks level a).stats
unfolding HasTotals streaks
streaks-HasTotals low a h = h
streaks-HasTotals high a h = h
streaks-HasTotals uncertain a h = h

step-IsConsistent :
    (b : ℕ) (a : PulseFlowAnalyzer) → IsConsistent a → IsConsistent (transition_step b a)
unfolding IsConsistent transition_step
step-IsConsistent b a (t, e) = (
  transition-HasTotals a.prev (classify b) (streaks (classify b) a).stats
      (streaks-HasTotals (classify b) a t),
  transition-HasEdges a.prev (classify b) (streaks (classify b) a) (some (classify b))
      (streaks-HasEdges (classify b) a e),
)

loop-IsConsistent :
    (bs : Bytes) (a : PulseFlowAnalyzer)
    → IsConsistent a
    → IsConsistent (count_transitions_and_streaks bs a)
unfolding count_transitions_and_streaks
loop-IsConsistent [] a h = h
loop-IsConsistent (b ∷ bs) a h =
    loop-IsConsistent bs (transition_step b a) (step-IsConsistent b a h)

-- The counts of a batch fit into the samples.
levels-HasTotals :
    (bs : Bytes) (s : PulseFlowStats)
    → HasTotals s
    → HasTotals (count_levels_avx2 bs (record s { samples = s.samples + length bs }))
unfolding HasTotals count_levels_avx2 counted
levels-HasTotals bs s h =
    let s' = record s { samples = s.samples + length bs } in
    let e = blocks-counted (length bs) bs s' in
    omega (
      arith,
      popcount-le is_odd bs,
      popcount-odd bs,
      h,
      ap (λ t. t.high_count) e,
      ap (λ t. t.uncertain_count) e,
      ap (λ t. t.samples) e,
    )

-- Counting levels leaves the edges and streaks alone.
levels-HasEdges :
    (bs : Bytes) (a : PulseFlowAnalyzer) (n : ℕ)
    → HasEdges a
    → HasEdges (record a { stats = count_levels_avx2 bs (record a.stats { samples = n }) })
unfolding HasEdges count_levels_avx2 counted
levels-HasEdges bs a n (e, hs, ls) =
    let q = blocks-counted (length bs) bs (record a.stats { samples = n }) in
    (
      omega (
        arith,
        e,
        ap (λ t. t.rising_edges) q,
        ap (λ t. t.falling_edges) q,
        ap (λ t. t.toggles) q,
      ),
      omega (arith, hs, ap (λ t. t.longest_high_streak) q),
      omega (arith, ls, ap (λ t. t.longest_low_streak) q),
    )

ingest-IsConsistent :
    (bs : Bytes) (a : PulseFlowAnalyzer) → IsConsistent a → IsConsistent (ingest bs a)
unfolding ingest
ingest-IsConsistent [] a h = h
ingest-IsConsistent (b ∷ bs) a h = loop-IsConsistent (b ∷ bs) _ counted_too
  where
    counted_too : IsConsistent (record a {
      stats =
          count_levels_avx2
            (b ∷ bs)
            (record a.stats { samples = a.stats.samples + length (b ∷ bs) });
    })
    counted_too =
        unfold IsConsistent in
        (levels-HasTotals (b ∷ bs) a.stats h.0, levels-HasEdges (b ∷ bs) a _ h.1)

ingest_all-from :
    (batches : List Bytes) (a : PulseFlowAnalyzer)
    → IsConsistent a
    → IsConsistent (ingest_all batches a)
unfolding ingest_all
ingest_all-from [] a h = h
ingest_all-from (batch ∷ batches) a h =
    ingest_all-from batches (ingest batch a) (ingest-IsConsistent batch a h)

-- After any batches since the reset, the three level counts add up to the samples, the two kinds of edges
-- to the toggles, and no running streak is longer than the longest one.
pub ingest_all-IsConsistent :
    (batches : List Bytes) → IsConsistent (ingest_all batches reset_analyzer)
ingest_all-IsConsistent batches = ingest_all-from batches reset_analyzer fresh
  where
    fresh : IsConsistent reset_analyzer
    fresh = unfold IsConsistent HasTotals HasEdges in (refl, (refl, omega arith, omega arith))
