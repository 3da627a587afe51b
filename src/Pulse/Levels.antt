-- ===== src/Pulse/Levels.antt =====
-- The two ways to count levels agree, and the counts add up.
use optimized_nan_lang.Base.{
  leb, Bool-cases, length, take, drop, Bytes, ℕ, zero, suc, refl, sym, ap, ap₂, inl, inr, Bool, not,
  [], arith, ◌+◌, ◌%◌, ◌≤◌, ◌≡◌, ◌∙◌, ◌&&◌, ◌∷◌, ◌==◌,
}
use optimized_nan_lang.Pulse.Flow.{
  classify, PulseFlowStats, count_levels_scalar, popcount, count_block, count_blocks,
  count_levels_avx2, count_levels_plain, count_level, settle_low,
}

abbrev pub is_uncertain : ℕ → Bool
is_uncertain b = b == 0xff

abbrev pub is_odd : ℕ → Bool
is_odd b = b % 2 == 1

abbrev pub is_high : ℕ → Bool
is_high b = not (is_uncertain b) && is_odd b

-- The counts, with the low count left out.
abbrev with_counts : PulseFlowStats → ℕ → ℕ → PulseFlowStats
with_counts s h u = record s { high_count = h; uncertain_count = u; low_count = 0 }

abbrev forget_low : PulseFlowStats → PulseFlowStats
forget_low s = record s { low_count = 0 }

popcount-split :
    (test : ℕ → Bool) (n : ℕ) (bs : Bytes)
    → popcount test (take n bs) + popcount test (drop n bs) ≡ popcount test bs
unfolding popcount
popcount-split test zero bs = omega arith
popcount-split test (suc n) [] = refl
popcount-split test (suc n) (b ∷ bs) = omega (arith, popcount-split test n bs)

-- An uncertain byte is odd.
pub popcount-odd :
    (bs : Bytes) → popcount is_odd bs ≡ popcount is_high bs + popcount is_uncertain bs
unfolding popcount
popcount-odd [] = refl
popcount-odd (b ∷ bs) = ground (arith, popcount-odd bs)

unfoldable pub counted : PulseFlowStats → Bytes → PulseFlowStats
counted s bs =
    with_counts s (s.high_count + popcount is_high bs)
      (s.uncertain_count + popcount is_uncertain bs)

counted-count_level :
    (b : ℕ) (s : PulseFlowStats) (bs : Bytes)
    → counted (count_level (classify b) s) bs ≡ counted s (b ∷ bs)
unfolding counted popcount classify
counted-count_level b s bs = elim (Bool-cases (b == 0xff)) [
  | inl e ↦ rw e (ap₂ (with_counts s) (omega arith) (omega arith))
  | inr e ↦ elim (Bool-cases (b % 2 == 1)) [
    | inl odd ↦ rw (e, odd) (ap₂ (with_counts s) (omega arith) (omega arith))
    | inr even ↦ rw (e, even) (ap₂ (with_counts s) (omega arith) (omega arith))
  ]
]

counted-nil : (s : PulseFlowStats) → forget_low s ≡ counted s []
unfolding counted popcount
counted-nil s = ap₂ (with_counts s) (omega arith) (omega arith)

scalar-counted :
    (bs : Bytes) (s : PulseFlowStats) → forget_low (count_levels_scalar bs s) ≡ counted s bs
unfolding count_levels_scalar
scalar-counted [] s = counted-nil s
scalar-counted (b ∷ bs) s =
    scalar-counted bs (count_level (classify b) s) ∙ counted-count_level b s bs

counted-count_block :
    (n : ℕ) (bs : Bytes) (s : PulseFlowStats)
    → counted (count_block (take n bs) s) (drop n bs) ≡ counted s bs
unfolding counted count_block
counted-count_block n bs s =
    ap₂ (with_counts s) (omega (arith, popcount-split is_high n bs, popcount-odd (take n bs)))
      (omega (arith, popcount-split is_uncertain n bs))

pub blocks-counted :
    (fuel : ℕ) (bs : Bytes) (s : PulseFlowStats)
    → forget_low (count_blocks fuel bs s) ≡ counted s bs
unfolding count_blocks
blocks-counted zero bs s = scalar-counted bs s
blocks-counted (suc fuel) bs s = elim (Bool-cases (leb 32 (length bs))) [
  | inl e ↦
      rw e (
        blocks-counted fuel (drop 32 bs) (count_block (take 32 bs) s) ∙ counted-count_block 32 bs s)
  | inr e ↦ rw e (scalar-counted bs s)
]

-- Counting blocks of 32 bytes by population counts gives the same statistics as the loop over the bytes.
pub count_levels_avx2-eq :
    (bs : Bytes) (s : PulseFlowStats) → count_levels_avx2 bs s ≡ count_levels_plain bs s
unfolding count_levels_avx2 count_levels_plain
count_levels_avx2-eq bs s =
    ap settle_low (blocks-counted (length bs) bs s ∙ sym (scalar-counted bs s))

pub popcount-le : (test : ℕ → Bool) (bs : Bytes) → popcount test bs ≤ length bs
unfolding popcount
popcount-le test [] = omega arith
popcount-le test (b ∷ bs) = ground (arith, popcount-le test bs)
