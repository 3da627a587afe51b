-- ===== src/Base/Words.antt =====
-- Bytes and little-endian words as native numbers.
use Prim.Native.Nat.{ℕ, ◌<◌}
use mathlib.Core.List.{List}
use package.optimized_nan_lang.Base.Lists.{All}

abbrev pub IsByte : ℕ → Type 0
IsByte b = b < 256

-- A `std::string` or `std::vector<uint8_t>`.
abbrev pub Bytes : Type 0
Bytes = List ℕ

abbrev pub AreBytes : Bytes → Type 0
AreBytes bs = All IsByte bs
