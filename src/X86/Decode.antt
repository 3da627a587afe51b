-- ===== src/X86/Decode.antt =====
-- The instructions at the front of the bytes that the emitters write.
use optimized_nan_lang.Base.{Bytes, ℕ, refl, some, arith, ◌+◌, ◌^◌, ◌<◌, ◌≡◌, ◌∷◌, ◌++◌}
use optimized_nan_lang.Words.{le32, le64, read_u32-le32}
use optimized_nan_lang.X86.{mov_imm, lea_rsi, xor_rdi, syscall, decode, sign_extend}

sign_extend_small : (v : ℕ) → v < 2 ^ 31 → sign_extend v ≡ v
sign_extend_small v h = ground arith

pub decode-mov_imm32 :
    (r v : ℕ) (rest : Bytes)
    → r < 8
    → v < 2 ^ 31
    → decode (0x48 ∷ 0xc7 ∷ (0xc0 + r) ∷ (le32 v ++ rest)) ≡ some (mov_imm r v, 7)
unfolding decode le32
decode-mov_imm32 r v rest hr hv = ground (arith, read_u32-le32 v, sign_extend_small v)

pub decode-lea_rsi :
    (v : ℕ) (rest : Bytes)
    → v < 2 ^ 31
    → decode (0x48 ∷ 0x8d ∷ 0x35 ∷ (le32 v ++ rest)) ≡ some (lea_rsi v, 7)
unfolding decode le32
decode-lea_rsi v rest hv = ground (arith, read_u32-le32 v, sign_extend_small v)

pub decode-mov_imm64 :
    (r v : ℕ) (rest : Bytes)
    → r < 8
    → v < 2 ^ 64
    → decode (0x48 ∷ (0xb8 + r) ∷ (le64 v ++ rest)) ≡ some (mov_imm r v, 10)
unfolding decode le64
decode-mov_imm64 r v rest hr hv = ground arith

pub decode-xor_rdi : (rest : Bytes) → decode (0x48 ∷ 0x31 ∷ 0xff ∷ rest) ≡ some (xor_rdi, 3)
unfolding decode
decode-xor_rdi rest = refl

pub decode-syscall : (rest : Bytes) → decode (0x0f ∷ 0x05 ∷ rest) ≡ some (syscall, 2)
unfolding decode
decode-syscall rest = refl
