-- ===== src/Words.antt =====
-- Little-endian words in byte vectors: the `append_*_le` helpers of src/nanlang_cpp.cpp and the
-- reader of its bytecode machine. `v & 0xFF` is `v % 256`, and `v >> 8` is `v / 256`.
use optimized_nan_lang.Base.{
  Bytes, ℕ, [], append_assoc, arith, ◌+◌, ◌*◌, ◌/◌, ◌%◌, ◌^◌, ◌<◌, ◌≡◌, ◌∷◌, ◌++◌,
}

unfoldable pub le16 : ℕ → Bytes
le16 v = v % 256 ∷ v / 256 % 256 ∷ []

unfoldable pub le32 : ℕ → Bytes
le32 v = v % 256 ∷ v / 2 ^ 8 % 256 ∷ v / 2 ^ 16 % 256 ∷ v / 2 ^ 24 % 256 ∷ []

-- `append_u32_le(out, v & 0xFFFFFFFF)` and then the upper half.
unfoldable pub le64 : ℕ → Bytes
unfolding le32
le64 v = le32 (v % 2 ^ 32) ++ le32 (v / 2 ^ 32 % 2 ^ 32)

unfoldable pub append_u16_le : Bytes → ℕ → Bytes
unfolding le16
append_u16_le out v = out ++ le16 v

unfoldable pub append_u32_le : Bytes → ℕ → Bytes
unfolding le32
append_u32_le out v = out ++ le32 v

unfoldable pub append_u64_le : Bytes → ℕ → Bytes
unfolding append_u32_le
append_u64_le out v = append_u32_le (append_u32_le out (v % 2 ^ 32)) (v / 2 ^ 32 % 2 ^ 32)

-- The four bytes `p[0]` to `p[3]`.
unfoldable pub read_u32_le_ptr : ℕ → ℕ → ℕ → ℕ → ℕ
read_u32_le_ptr a b c d = a + b * 2 ^ 8 + c * 2 ^ 16 + d * 2 ^ 24

-- The reader gives back what `append_u32_le` wrote.
pub read_u32-le32 :
    (v : ℕ)
    → v < 2 ^ 32
    → read_u32_le_ptr (v % 256) (v / 2 ^ 8 % 256) (v / 2 ^ 16 % 256) (v / 2 ^ 24 % 256) ≡ v
unfolding read_u32_le_ptr
read_u32-le32 v h = omega arith

pub append_u64-le64 : (out : Bytes) (v : ℕ) → append_u64_le out v ≡ out ++ le64 v
unfolding append_u64_le le64
append_u64-le64 out v = append_assoc out _ _
