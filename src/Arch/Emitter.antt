-- ===== src/Arch/Emitter.antt =====
-- CrossPlatformEmitter and HWFingerprint::embed of include/nan_compiler.h. An `int64_t` operand is the word
-- of its 64 bits; the processor's identity is a parameter.
use optimized_nan_lang.Base.{
  length, length-append, Bytes, ℕ, refl, List, [], arith, ◌+◌, ◌*◌, ◌%◌, ◌^◌, ◌≡◌, ◌∷◌, ◌++◌, ◌==◌,
  if◌then◌else◌,
}
use optimized_nan_lang.Words.{le32, le64}

pub data Arch : Type 0 where
  x86_64 arm64 : Arch

pub record IrInstruction : Type 0 where
  pub op : ℕ
  pub operand : ℕ

-- LOAD, ADD and RET of NanOpcode.
abbrev pub op_load : ℕ
op_load = 0x03

abbrev pub op_add : ℕ
op_add = 0x05

abbrev pub op_ret : ℕ
op_ret = 0x0f

unfoldable pub emit_x86 : IrInstruction → Bytes
unfolding le32
emit_x86 i =
    if i.op == op_load
    then 0xb8 ∷ le32 (i.operand % 2 ^ 32)
    else if i.op == op_add
    then 0x05 ∷ le32 (i.operand % 2 ^ 32)
    else if i.op == op_ret
    then 0xc3 ∷ []
    else []

-- `0xD2800000 | ((operand & 0xFFFF) << 5)`: the two parts share no bit.
unfoldable pub emit_arm : IrInstruction → Bytes
unfolding le32
emit_arm i =
    if i.op == op_load
    then le32 (0xd2800000 + i.operand % 2 ^ 16 * 2 ^ 5)
    else if i.op == op_ret
    then le32 0xd65f03c0
    else []

unfoldable pub emit : Arch → List IrInstruction → Bytes
unfolding emit_x86 emit_arm
emit arch [] = []
emit x86_64 (i ∷ is) = emit_x86 i ++ emit x86_64 is
emit arm64 (i ∷ is) = emit_arm i ++ emit arm64 is

unfoldable pub embed : ℕ → Bytes → Bytes
unfolding le64
embed cpu_id binary = binary ++ le64 cpu_id

-- The instructions of the 64-bit ARM output have four bytes each.
emit_arm-aligned : (is : List IrInstruction) → length (emit arm64 is) % 4 ≡ 0
unfolding emit
emit_arm-aligned [] = refl
emit_arm-aligned (i ∷ is) =
    omega (arith, length-append (emit_arm i) (emit arm64 is), one_word i, emit_arm-aligned is)
  where
    one_word : (i : IrInstruction) → length (emit_arm i) % 4 ≡ 0
    one_word i = unfold emit_arm le32 in ground arith
