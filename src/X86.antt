-- ===== src/X86.antt =====
-- The part of an x86-64 processor and of the Linux system calls that the generated programs use: an
-- independent description, from the instruction set manual, that the emitters are proved against.
pub mod Linear
pub mod Decode
pub mod Write
use optimized_nan_lang.Base.{
  ltb, leb, length, take, drop, Bytes, ℕ, zero, suc, not, Option, none, some, [], ◌+◌, ◌-◌, ◌*◌,
  ◌%◌, ◌^◌, ◌&&◌, ◌∷◌, ◌++◌, ◌==◌, if◌then◌else◌,
}
use optimized_nan_lang.Words.{read_u32_le_ptr}

-- Registers go by their number: rax 0, rcx 1, rdx 2, rsi 6, rdi 7, r11 11.
pub data Insn : Type 0 where
  mov_imm : ℕ → ℕ → Insn
  lea_rsi : ℕ → Insn
  xor_rdi syscall : Insn

-- A 32-bit pattern, extended by its sign to 64 bits.
abbrev pub sign_extend : ℕ → ℕ
sign_extend v = if ltb v (2 ^ 31) then v else v + (2 ^ 64 - 2 ^ 32)

-- 48 c7 and a register byte: mov r64, simm32
decode_c7 : Bytes → Option (Insn × ℕ)
unfolding read_u32_le_ptr
decode_c7 (m ∷ a ∷ b ∷ c ∷ d ∷ r) =
    if leb 0xc0 m && leb m 0xc7
    then some (mov_imm (m - 0xc0) (sign_extend (read_u32_le_ptr a b c d)), 7)
    else none
decode_c7 _ = none

-- 48 8D 35 disp32: lea rsi, [rip + disp32]
decode_8d : Bytes → Option (Insn × ℕ)
unfolding read_u32_le_ptr
decode_8d (m ∷ a ∷ b ∷ c ∷ d ∷ r) =
    if m == 0x35 then some (lea_rsi (sign_extend (read_u32_le_ptr a b c d)), 7) else none
decode_8d _ = none

-- 48 31 FF: xor rdi, rdi
decode_31 : Bytes → Option (Insn × ℕ)
decode_31 [] = none
decode_31 (m ∷ r) = if m == 0xff then some (xor_rdi, 3) else none

-- 48 B8+r imm64: mov r64, imm64
decode_imm64 : ℕ → Bytes → Option (Insn × ℕ)
unfolding read_u32_le_ptr
decode_imm64 reg (a ∷ b ∷ c ∷ d ∷ e ∷ f ∷ g ∷ h ∷ r) =
    some (mov_imm reg (read_u32_le_ptr a b c d + read_u32_le_ptr e f g h * 2 ^ 32), 10)
decode_imm64 reg _ = none

-- The instruction at the front of the bytes, and its length.
unfoldable pub decode : Bytes → Option (Insn × ℕ)
unfolding decode_c7 decode_8d decode_31 decode_imm64
decode (b₀ ∷ b₁ ∷ r) =
    if b₀ == 0x0f && b₁ == 0x05
    then some (syscall, 2)
    else if not (b₀ == 0x48)
    then none
    else if b₁ == 0xc7
    then decode_c7 r
    else if b₁ == 0x8d
    then decode_8d r
    else if b₁ == 0x31
    then decode_31 r
    else if leb 0xb8 b₁ && leb b₁ 0xbf
    then decode_imm64 (b₁ - 0xb8) r
    else none
decode _ = none

-- `rip` counts from the start of the image.
pub record Cpu : Type 0 where
  pub rip : ℕ
  pub regs : ℕ → ℕ
  pub out : Bytes

-- An exit with its status, a fault (no instruction, or a system call that is not described here), or
-- no end within the fuel. Each comes with what was written to stdout.
pub data Outcome : Type 0 where
  exited : ℕ → Bytes → Outcome
  crashed running : Bytes → Outcome

pub data Next : Type 0 where
  go : Cpu → Next
  done : Outcome → Next

abbrev pub finish : Next → (Cpu → Outcome) → Outcome
finish (go cpu) k = k cpu
finish (done r) k = r

abbrev pub write_reg : ℕ → ℕ → (ℕ → ℕ) → ℕ → ℕ
write_reg r v regs k = if k == r then v else regs k

-- The image lies at the address `base`.
module _ (image : Bytes) (base : ℕ) where
  -- A read of memory, which only the image takes part in here.
  abbrev pub memory : ℕ → ℕ → Option Bytes
  memory addr len =
      if leb base addr && leb (addr + len) (base + length image)
      then some (take len (drop (addr - base) image))
      else none

  -- write(1, rsi, rdx) and exit(rdi). A system call overwrites rcx and r11.
  abbrev pub system_call : ℕ → Cpu → Next
  system_call n cpu =
      let back = λ (v : ℕ). write_reg 0 v (write_reg 1 0 (write_reg 11 0 cpu.regs)) in
      if cpu.regs 0 == 60
      then done (exited (cpu.regs 7 % 256) cpu.out)
      else if cpu.regs 0 == 1 && cpu.regs 7 == 1
      then elim (memory (cpu.regs 6) (cpu.regs 2)) [
        | none ↦ go (record cpu { rip = cpu.rip + n; regs = back (2 ^ 64 - 14) })
        | some text ↦
            go (record { rip = cpu.rip + n; regs = back (cpu.regs 2); out = cpu.out ++ text })
      ]
      else done (crashed cpu.out)

  -- What an instruction of `n` bytes does.
  unfoldable pub perform : Insn → ℕ → Cpu → Next
  perform (mov_imm r v) n cpu = go (record cpu { rip = cpu.rip + n; regs = write_reg r v cpu.regs })
  perform (lea_rsi disp) n cpu = go (record cpu {
    rip = cpu.rip + n;
    regs = write_reg 6 ((base + cpu.rip + n + disp) % 2 ^ 64) cpu.regs;
  })
  perform xor_rdi n cpu = go (record cpu { rip = cpu.rip + n; regs = write_reg 7 0 cpu.regs })
  perform syscall n cpu = system_call n cpu

  unfoldable pub run : ℕ → Cpu → Outcome
  unfolding perform
  run zero cpu = running cpu.out
  run (suc fuel) cpu = elim (decode (drop cpu.rip image)) [
    | none ↦ crashed cpu.out
    | some (i, n) ↦ finish (perform i n cpu) (run fuel)
  ]
