-- ===== src/Pulse/Flow.antt =====
-- PulseFlowAnalyzer of include/nan_pulse.h.
use optimized_nan_lang.Base.{
  ltb, leb, length, take, drop, Bytes, ℕ, zero, suc, Bool, Option, none, some, List, [], ◌+◌, ◌-◌,
  ◌%◌, ◌∷◌, ◌==◌, if◌then◌else◌,
}

pub data LogicLevel : Type 0 where
  low high uncertain : LogicLevel

-- `signal & 0x01` is the last bit.
unfoldable pub classify : ℕ → LogicLevel
classify signal = if signal == 0xff then uncertain else if signal % 2 == 1 then high else low

pub record PulseFlowStats : Type 0 where
  pub samples : ℕ
  pub high_count : ℕ
  pub low_count : ℕ
  pub uncertain_count : ℕ
  pub rising_edges : ℕ
  pub falling_edges : ℕ
  pub toggles : ℕ
  pub longest_high_streak : ℕ
  pub longest_low_streak : ℕ

pub record PulseFlowAnalyzer : Type 0 where
  pub stats : PulseFlowStats
  -- `have_prev` and `prev`.
  pub prev : Option LogicLevel
  pub current_high_streak : ℕ
  pub current_low_streak : ℕ

abbrev pub reset_analyzer : PulseFlowAnalyzer
reset_analyzer = record {
  stats = record {
    samples = 0;
    high_count = 0;
    low_count = 0;
    uncertain_count = 0;
    rising_edges = 0;
    falling_edges = 0;
    toggles = 0;
    longest_high_streak = 0;
    longest_low_streak = 0;
  };
  prev = none;
  current_high_streak = 0;
  current_low_streak = 0;
}

abbrev pub count_level : LogicLevel → PulseFlowStats → PulseFlowStats
count_level high s = record s { high_count = s.high_count + 1 }
count_level low s = record s { low_count = s.low_count + 1 }
count_level uncertain s = record s { uncertain_count = s.uncertain_count + 1 }

unfoldable pub count_levels_scalar : Bytes → PulseFlowStats → PulseFlowStats
unfolding classify
count_levels_scalar [] s = s
count_levels_scalar (b ∷ bs) s = count_levels_scalar bs (count_level (classify b) s)

-- The population count of a comparison's mask: how many bytes pass the test.
unfoldable pub popcount : (ℕ → Bool) → Bytes → ℕ
popcount test [] = 0
popcount test (b ∷ bs) = (if test b then 1 else 0) + popcount test bs

-- One block of 32 bytes. The `int` is not below zero, and the subtraction on ℕ stops there too.
unfoldable pub count_block : Bytes → PulseFlowStats → PulseFlowStats
unfolding popcount
count_block block s =
    let uncertain_cnt = popcount (λ b. b == 0xff) block in
    record s {
      high_count = s.high_count + (popcount (λ b. b % 2 == 1) block - uncertain_cnt);
      uncertain_count = s.uncertain_count + uncertain_cnt;
    }

-- The blocks, and the remainder by the scalar loop; a round for each byte is more than enough.
unfoldable pub count_blocks : ℕ → Bytes → PulseFlowStats → PulseFlowStats
unfolding count_block count_levels_scalar
count_blocks zero data_of s = count_levels_scalar data_of s
count_blocks (suc fuel) data_of s =
    let rest = count_blocks fuel (drop 32 data_of) (count_block (take 32 data_of) s) in
    if leb 32 (length data_of) then rest else count_levels_scalar data_of s

abbrev pub settle_low : PulseFlowStats → PulseFlowStats
settle_low s = record s { low_count = s.samples - s.high_count - s.uncertain_count }

-- With AVX2, and without it.
unfoldable pub count_levels_avx2 : Bytes → PulseFlowStats → PulseFlowStats
unfolding count_blocks
count_levels_avx2 data_of s = settle_low (count_blocks (length data_of) data_of s)

unfoldable pub count_levels_plain : Bytes → PulseFlowStats → PulseFlowStats
unfolding count_levels_scalar
count_levels_plain data_of s = settle_low (count_levels_scalar data_of s)

unfoldable pub longest : ℕ → ℕ → ℕ
longest current best = if ltb best current then current else best

unfoldable pub streaks : LogicLevel → PulseFlowAnalyzer → PulseFlowAnalyzer
unfolding longest
streaks high a = record a {
  current_high_streak = a.current_high_streak + 1;
  current_low_streak = 0;
  stats = record a.stats {
    longest_high_streak = longest (a.current_high_streak + 1) a.stats.longest_high_streak;
  };
}
streaks low a = record a {
  current_low_streak = a.current_low_streak + 1;
  current_high_streak = 0;
  stats = record a.stats {
    longest_low_streak = longest (a.current_low_streak + 1) a.stats.longest_low_streak;
  };
}
streaks uncertain a = record a { current_high_streak = 0; current_low_streak = 0 }

-- An edge between two levels that are both certain.
unfoldable pub transition : Option LogicLevel → LogicLevel → PulseFlowStats → PulseFlowStats
transition (some low) high s = record s {
  toggles = s.toggles + 1;
  rising_edges = s.rising_edges + 1;
}
transition (some high) low s = record s {
  toggles = s.toggles + 1;
  falling_edges = s.falling_edges + 1;
}
transition prev level s = s

unfoldable pub transition_step : ℕ → PulseFlowAnalyzer → PulseFlowAnalyzer
unfolding streaks transition classify
transition_step b a =
    let level = classify b in
    let counted = streaks level a in
    record counted { stats = transition a.prev level counted.stats; prev = some level }

unfoldable pub count_transitions_and_streaks : Bytes → PulseFlowAnalyzer → PulseFlowAnalyzer
unfolding transition_step
count_transitions_and_streaks [] a = a
count_transitions_and_streaks (b ∷ bs) a = count_transitions_and_streaks bs (transition_step b a)

-- `ingest` with AVX2; no bytes are an early return.
unfoldable pub ingest : Bytes → PulseFlowAnalyzer → PulseFlowAnalyzer
unfolding count_levels_avx2 count_transitions_and_streaks
ingest [] a = a
ingest (b ∷ bs) a =
    let stats = record a.stats { samples = a.stats.samples + length (b ∷ bs) } in
    count_transitions_and_streaks (b ∷ bs) (record a { stats = count_levels_avx2 (b ∷ bs) stats })

-- Batches one after another.
unfoldable pub ingest_all : List Bytes → PulseFlowAnalyzer → PulseFlowAnalyzer
unfolding ingest
ingest_all [] a = a
ingest_all (batch ∷ batches) a = ingest_all batches (ingest batch a)
