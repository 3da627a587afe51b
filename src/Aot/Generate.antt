-- ===== src/Aot/Generate.antt =====
-- `x86_64Generator` of src/nan_aot_compiler.cpp. Its members are the record `Gen`.
use optimized_nan_lang.Base.{
  ltb, leb, same, length, get_or, set, Bytes, codes, ℕ, List, [], ◌+◌, ◌-◌, ◌/◌, ◌%◌, ◌^◌, ◌∷◌,
  ◌++◌, if◌then◌else◌,
}
use optimized_nan_lang.Aot.Ir.{
  mov, print, halt, Kind, IrValue, IrInstruction, IrBasicBlock, IrFunction,
}

pub record Gen : Type 0 where
  pub code : Bytes
  pub label_positions : List (Bytes × ℕ)
  pub print_fixups : List (ℕ × ℕ)
  pub string_pool : List Bytes

abbrev pub cleared : Gen
cleared = record { code = []; label_positions = []; print_fixups = []; string_pool = [] }

unfoldable pub emit_u8 : Bytes → ℕ → Bytes
emit_u8 code byte = code ++ byte ∷ []

unfoldable pub emit_u32 : Bytes → ℕ → Bytes
unfolding emit_u8
emit_u32 code dword =
    let c₀ = emit_u8 code (dword % 256) in
    let c₁ = emit_u8 c₀ (dword / 2 ^ 8 % 256) in
    let c₂ = emit_u8 c₁ (dword / 2 ^ 16 % 256) in emit_u8 c₂ (dword / 2 ^ 24 % 256)

unfoldable pub emit_u64 : Bytes → ℕ → Bytes
unfolding emit_u32
emit_u64 code qword = emit_u32 (emit_u32 code (qword % 2 ^ 32)) (qword / 2 ^ 32 % 2 ^ 32)

-- REX.W, with REX.B for the registers from 8 on.
unfoldable pub emit_mov_reg_imm64 : Bytes → ℕ → ℕ → Bytes
unfolding emit_u8 emit_u64
emit_mov_reg_imm64 code reg imm =
    let rex_byte = if leb 8 reg then 0x49 else 0x48 in
    emit_u64 (emit_u8 (emit_u8 code rex_byte) (0xb8 + reg % 8)) imm

unfoldable pub emit_add_reg_imm32 : Bytes → ℕ → ℕ → Bytes
unfolding emit_u8 emit_u32
emit_add_reg_imm32 code reg imm =
    let rex_byte = if leb 8 reg then 0x49 else 0x48 in
    emit_u32 (emit_u8 (emit_u8 (emit_u8 code rex_byte) 0x81) (0xc0 + reg % 8)) imm

unfoldable pub emit_ret : Bytes → Bytes
unfolding emit_u8
emit_ret code = emit_u8 code 0xc3

unfoldable pub emit_syscall : Bytes → Bytes
unfolding emit_u8
emit_syscall code = emit_u8 (emit_u8 code 0x0f) 0x05

-- The code, and the position of the displacement.
unfoldable pub emit_lea_rsi_rip_placeholder : Bytes → Bytes × ℕ
unfolding emit_u8 emit_u32
emit_lea_rsi_rip_placeholder code =
    let opened = emit_u8 (emit_u8 (emit_u8 code 0x48) 0x8d) 0x35 in
    (emit_u32 opened 0, length opened)

-- case IROp::MOV
emit_mov : Gen → IrValue → IrValue → Gen
unfolding emit_mov_reg_imm64
emit_mov g dst src = elim src.kind [
  | Kind.immediate ↦ record g { code = emit_mov_reg_imm64 g.code (dst.value % 256) src.value }
  | _ ↦ g
]

-- case IROp::PRINT: write(1, text, size)
unfoldable pub emit_print : Gen → Bytes → Gen
unfolding emit_mov_reg_imm64 emit_lea_rsi_rip_placeholder emit_syscall
emit_print g text =
    let c₁ = emit_mov_reg_imm64 g.code 0 1 in
    let c₂ = emit_mov_reg_imm64 c₁ 7 1 in
    let (c₃, disp_pos) = emit_lea_rsi_rip_placeholder c₂ in
    let c₄ = emit_mov_reg_imm64 c₃ 2 (length text) in
    record g {
      code = emit_syscall c₄;
      string_pool = g.string_pool ++ text ∷ [];
      print_fixups = g.print_fixups ++ (disp_pos, length g.string_pool) ∷ [];
    }

-- case IROp::HALT: exit(0)
unfoldable pub emit_halt : Gen → Gen
unfolding emit_mov_reg_imm64 emit_syscall
emit_halt g = record g {
  code = emit_syscall (emit_mov_reg_imm64 (emit_mov_reg_imm64 g.code 0 60) 7 0);
}

-- Any other operation is a NOP.
unfoldable pub generate_instruction : Gen → IrInstruction → Gen
unfolding emit_mov emit_u8
generate_instruction g instr = elim instr.op [
  | mov ↦ emit_mov g instr.dst instr.src1
  | print ↦ emit_print g instr.label
  | halt ↦ emit_halt g
  | _ ↦ record g { code = emit_u8 g.code 0x90 }
]

unfoldable pub generate_basic_block : Gen → List IrInstruction → Gen
unfolding generate_instruction
generate_basic_block g [] = g
generate_basic_block g (instr ∷ instrs) = generate_basic_block (generate_instruction g instr) instrs

unfoldable pub generate_blocks : Gen → List IrBasicBlock → Gen
unfolding generate_basic_block
generate_blocks g [] = g
generate_blocks g (b ∷ bs) =
    let g' = record g { label_positions = (b.label, length g.code) ∷ g.label_positions } in
    generate_blocks (generate_basic_block g' b.instructions) bs

-- push rbp; mov rbp, rsp; add rsp, -stack_size
prologue : Bytes → ℕ → Bytes
unfolding emit_u8 emit_add_reg_imm32
prologue code stack_size =
    let framed = emit_u8 (emit_u8 (emit_u8 (emit_u8 code 0x55) 0x48) 0x89) 0xe5 in
    if ltb 0 stack_size
    then emit_add_reg_imm32 framed 4 ((2 ^ 32 - stack_size % 2 ^ 32) % 2 ^ 32)
    else framed

-- mov rsp, rbp; pop rbp
epilogue : Bytes → Bytes
unfolding emit_u8
epilogue code = emit_u8 (emit_u8 (emit_u8 (emit_u8 code 0x48) 0x89) 0xec) 0x5d

unfoldable pub generate_function : Gen → IrFunction → Gen
unfolding same prologue epilogue emit_ret
generate_function g func =
    let is_main = same func.name (codes "main") in
    let g₁ = if is_main then g else record g { code = prologue g.code func.stack_size } in
    let g₂ = generate_blocks g₁ func.blocks in
    let body = if is_main then g₂.code else epilogue g₂.code in record g₂ { code = emit_ret body }

unfoldable pub generate_functions : Gen → List IrFunction → Gen
unfolding generate_function
generate_functions g [] = g
generate_functions g (f ∷ fs) = generate_functions (generate_function g f) fs

-- `string_pool_offsets_`, from a running offset on.
unfoldable pub pool_offsets : ℕ → List Bytes → List ℕ
pool_offsets running [] = []
pool_offsets running (s ∷ ss) = running ∷ pool_offsets (running + length s) ss

-- `disp = str_off - instr_end` as a 32-bit pattern, into the four bytes at `disp_pos`.
unfoldable pub patch_disp : Bytes → ℕ → ℕ → Bytes
patch_disp code disp_pos str_off =
    let disp32 = (2 ^ 64 + str_off - (disp_pos + 4)) % 2 ^ 32 in
    let c₀ = set code (disp_pos + 0) (disp32 % 256) in
    let c₁ = set c₀ (disp_pos + 1) (disp32 / 2 ^ 8 % 256) in
    let c₂ = set c₁ (disp_pos + 2) (disp32 / 2 ^ 16 % 256) in
    set c₂ (disp_pos + 3) (disp32 / 2 ^ 24 % 256)

unfoldable pub patch_fixups : ℕ → List ℕ → Bytes → List (ℕ × ℕ) → Bytes
patch_fixups pool_base offsets code [] = code
patch_fixups pool_base offsets code ((disp_pos, str_idx) ∷ fixups) =
    patch_fixups pool_base offsets (patch_disp code disp_pos (pool_base + get_or offsets str_idx 0))
      fixups

unfoldable pub append_pool : Bytes → List Bytes → Bytes
append_pool code [] = code
append_pool code (s ∷ ss) = append_pool (code ++ s) ss

-- The data section: offsets, displacements, strings.
unfoldable pub close_code : Gen → Bytes
close_code g =
    append_pool (patch_fixups (length g.code) (pool_offsets 0 g.string_pool) g.code g.print_fixups)
      g.string_pool

unfoldable pub generate : List IrFunction → Bytes
unfolding generate_functions emit_print emit_halt close_code patch_fixups patch_disp pool_offsets
    append_pool
generate functions = close_code (generate_functions cleared functions)
