-- ===== src/Native.antt =====
-- The native emitter of src/nanlang_cpp.cpp: from the texts that a program writes to machine code with
-- the texts behind it.
pub mod Layout
pub mod Patch
pub mod Closed
pub mod Run
pub mod Program
pub mod Parse
pub mod Launcher
pub mod Ok
pub mod Meaning
pub mod Counts
pub mod Unwrap
mod Tests
use optimized_nan_lang.Base.{length, set, Bytes, ℕ, List, [], ◌+◌, ◌-◌, ◌/◌, ◌%◌, ◌^◌, ◌∷◌, ◌++◌}
use optimized_nan_lang.Words.{append_u32_le}

-- 48 c7 /0 imm32, with the byte that names the register.
unfoldable pub emit_mov_reg_imm32 : Bytes → ℕ → ℕ → Bytes
unfolding append_u32_le
emit_mov_reg_imm32 code reg imm = append_u32_le (code ++ 0x48 ∷ 0xc7 ∷ reg ∷ []) imm

-- The code, and the offset of the displacement that is left open.
unfoldable pub emit_lea_rsi_rip_placeholder : Bytes → Bytes × ℕ
unfolding append_u32_le
emit_lea_rsi_rip_placeholder code =
    let opened = code ++ 0x48 ∷ 0x8d ∷ 0x35 ∷ [] in (append_u32_le opened 0, length opened)

-- The value is the 32-bit pattern of the `int32_t`.
unfoldable pub patch_i32_le : Bytes → ℕ → ℕ → Bytes
patch_i32_le code offset value =
    let c₀ = set code (offset + 0) (value % 256) in
    let c₁ = set c₀ (offset + 1) (value / 2 ^ 8 % 256) in
    let c₂ = set c₁ (offset + 2) (value / 2 ^ 16 % 256) in
    set c₂ (offset + 3) (value / 2 ^ 24 % 256)

unfoldable pub emit_syscall : Bytes → Bytes
emit_syscall code = code ++ 0x0f ∷ 0x05 ∷ []

-- The vectors of `emit_native_payload`.
pub record Payload : Type 0 where
  pub code : Bytes
  pub rodata : Bytes
  pub disp_patch_offsets : List ℕ
  pub rodata_offsets : List ℕ

abbrev pub empty_payload : Payload
empty_payload = record { code = []; rodata = []; disp_patch_offsets = []; rodata_offsets = [] }

-- One round of the first loop: write(1, text, size).
unfoldable pub emit_write : Payload → Bytes → Payload
unfolding emit_mov_reg_imm32 emit_lea_rsi_rip_placeholder emit_syscall
emit_write p text =
    let c₁ = emit_mov_reg_imm32 p.code 0xc0 1 in
    let c₂ = emit_mov_reg_imm32 c₁ 0xc7 1 in
    let (c₃, disp_offset) = emit_lea_rsi_rip_placeholder c₂ in
    let c₄ = emit_mov_reg_imm32 c₃ 0xc2 (length text % 2 ^ 32) in
    record {
      code = emit_syscall c₄;
      rodata = p.rodata ++ text;
      disp_patch_offsets = p.disp_patch_offsets ++ disp_offset ∷ [];
      rodata_offsets = p.rodata_offsets ++ length p.rodata ∷ [];
    }

unfoldable pub emit_writes : Payload → List Bytes → Payload
unfolding emit_write
emit_writes p [] = p
emit_writes p (text ∷ texts) = emit_writes (emit_write p text) texts

-- exit(0)
unfoldable pub emit_exit : Bytes → Bytes
unfolding emit_mov_reg_imm32 emit_syscall
emit_exit code = emit_syscall (emit_mov_reg_imm32 code 0xc0 60 ++ 0x48 ∷ 0x31 ∷ 0xff ∷ [])

-- `static_cast<int32_t>(target - next_ip)` as a bit pattern.
abbrev pub delta32 : ℕ → ℕ → ℕ
delta32 target next_ip = (2 ^ 64 + target - next_ip) % 2 ^ 32

-- The second loop, over the offsets that the first one noted.
unfoldable pub patch_all : ℕ → Bytes → List ℕ → List ℕ → Bytes
patch_all text_size code (disp ∷ disps) (ro ∷ ros) =
    patch_all text_size (patch_i32_le code disp (delta32 (text_size + ro) (disp + 4))) disps ros
patch_all text_size code _ _ = code

-- The exit, the second loop, and the data behind the code.
unfoldable pub close_payload : Payload → Bytes
close_payload p =
    let code = emit_exit p.code in
    patch_all (length code) code p.disp_patch_offsets p.rodata_offsets ++ p.rodata

-- The machine code of the payload.
unfoldable pub emit_native_payload : List Bytes → Bytes
unfolding emit_writes close_payload emit_exit patch_all patch_i32_le
emit_native_payload writes = close_payload (emit_writes empty_payload writes)
