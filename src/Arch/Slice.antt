-- ===== src/Arch/Slice.antt =====
-- ZeroCopySlice of include/nan_arch.h: an address and a length. A null address is `none`.
use optimized_nan_lang.Base.{
  ltb, ℕ, Bool, false, Option, none, some, arith, ◌+◌, ◌%◌, ◌^◌, ◌≤◌, ◌<◌, if◌then◌else◌,
}

pub record ZeroCopySlice : Type 0 where
  pub ptr : Option ℕ
  pub len : ℕ

unfoldable pub valid : ZeroCopySlice → Bool
valid s = elim s.ptr [ none ↦ false | some p ↦ ltb 0 s.len ]

abbrev pub empty_slice : ZeroCopySlice
empty_slice = record { ptr = none; len = 0 }

-- The sum in the test wraps at 2^64.
unfoldable pub sub : ℕ → ℕ → ZeroCopySlice → ZeroCopySlice
sub offset count s = if ltb s.len ((offset + count) % 2 ^ 64) then empty_slice else record {
  ptr = elim s.ptr [ none ↦ none | some p ↦ some ((p + offset) % 2 ^ 64) ];
  len = count;
}

-- A part that is not empty lies in the slice, as long as the sum does not wrap.
sub-inside :
    (offset count : ℕ) (s : ZeroCopySlice)
    → offset + count < 2 ^ 64
    → s.len < 2 ^ 64
    → 0 < (sub offset count s).len
    → offset + (sub offset count s).len ≤ s.len
unfolding sub
sub-inside offset count s lt fits more = ground arith
