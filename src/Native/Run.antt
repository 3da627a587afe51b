-- ===== src/Native/Run.antt =====
-- The machine code of `emit_native_payload`, run by the processor.
use optimized_nan_lang.Base.{
  length, drop, length-append, All, Bytes, ℕ, suc, refl, sym, ap, some, List, [], append-nil,
  append_assoc, arith, ◌+◌, ◌-◌, ◌*◌, ◌%◌, ◌^◌, ◌≤◌, ◌<◌, ◌≡◌, ◌∙◌, ◌∷◌, ◌++◌,
}
use optimized_nan_lang.Words.{le32}
use native.Mathlib.Nat.{mod-eq_of_lt}
use optimized_nan_lang.X86.{mov_imm, xor_rdi, syscall, Cpu, exited, memory, run, finish}
use native.Mathlib.Nat.{zero-add}
use optimized_nan_lang.X86.Linear.{Code, Encodes, flatten, drop-add, run-perform_all}
use optimized_nan_lang.X86.Decode.{decode-mov_imm32, decode-lea_rsi, decode-xor_rdi, decode-syscall}
use optimized_nan_lang.X86.Write.{memory_lem, write_code, run_write, exit_lem}
use optimized_nan_lang.Native.{emit_native_payload}
use optimized_nan_lang.Native.Layout.{block, flat, exit_code}
use optimized_nan_lang.Native.Patch.{disp_at, closed_blocks}
use optimized_nan_lang.Native.Closed.{length-closed_blocks, text_size, emit_native_payload_lem}

-- The instructions of one closed block.
abbrev set_rax : Bytes
set_rax = 0x48 ∷ 0xc7 ∷ 0xc0 ∷ le32 1

abbrev set_rdi : Bytes
set_rdi = 0x48 ∷ 0xc7 ∷ 0xc7 ∷ le32 1

abbrev set_rsi : ℕ → Bytes
set_rsi d = 0x48 ∷ 0x8d ∷ 0x35 ∷ le32 d

abbrev set_rdx : Bytes → Bytes
set_rdx text = 0x48 ∷ 0xc7 ∷ 0xc2 ∷ le32 (length text)

abbrev block_code : ℕ → Bytes → Code
block_code d text = write_code set_rax set_rdi (set_rsi d) (set_rdx text) (0x0f ∷ 0x05 ∷ []) d text

block_code-Encodes :
    (d : ℕ) (text : Bytes) → d < 2 ^ 31 → length text < 2 ^ 31 → All Encodes (block_code d text)
unfolding le32
block_code-Encodes d text hd ht = (
  λ rest. decode-mov_imm32 0 1 rest (omega arith) (omega arith),
  (
    λ rest. decode-mov_imm32 7 1 rest (omega arith) (omega arith),
    (
      λ rest. decode-lea_rsi d rest hd,
      (λ rest. decode-mov_imm32 2 (length text) rest (omega arith) ht, (decode-syscall, tt)),
    ),
  ),
)

flatten-block_code :
    (d : ℕ) (text : Bytes) → length text < 2 ^ 31 → flatten (block_code d text) ≡ block d text
unfolding le32
flatten-block_code d text h = rw (mod-eq_of_lt (ℕlt text h)) refl
  where
    ℕlt : (text : Bytes) → length text < 2 ^ 31 → length text < 2 ^ 32
    ℕlt text h = omega arith

-- The image is `code` bytes of code, then the data. Every address in it fits 64 bits, and every offset
-- 31 bits.
module _ (image code rodata : Bytes) (base : ℕ) (split : image ≡ code ++ rodata)
    (small : length image < 2 ^ 31) (placed : base + length image < 2 ^ 64) where
  run-block :
      (k : ℕ) (pre text post rest : Bytes) (fuel : ℕ) (cpu : Cpu)
      → cpu.rip ≡ k
      → k + 30 ≤ length code
      → rodata ≡ pre ++ (text ++ post)
      → drop k image ≡ block (disp_at (length code) k (length pre)) text ++ rest
      → (cpu' : Cpu) × (run image base (5 + fuel) cpu ≡ run image base fuel cpu')
        × (cpu'.out ≡ cpu.out ++ text)
        × (cpu'.rip ≡ k + 30)
  run-block k pre text post rest fuel cpu at_k room stored at_rip =
      let (cpu', e, o, n) =
        run_write image base set_rax set_rdi (set_rsi d) (set_rdx text) (0x0f ∷ 0x05 ∷ []) d text
          rest fuel cpu
          (block_code-Encodes d text (omega (arith, sizes, d_lem)) (omega (arith, sizes))) code_here
          read in
      (cpu', e, o, n ∙ (unfold le32 in rw at_k (omega arith)))
    where
      d : ℕ
      d = disp_at (length code) k (length pre)

      sizes : length image ≡ length code + (length pre + (length text + length post))
      sizes = rw (split, stored, length-append, length-append, length-append) refl

      d_lem : d ≡ length code + length pre - (k + 21)
      d_lem = omega (arith, sizes)

      whole : image ≡ (code ++ pre) ++ (text ++ post)
      whole = split ∙ rw stored (sym (append_assoc code pre (text ++ post)))

      target :
          (base + (cpu.rip + length set_rax + length set_rdi) + length (set_rsi d) + d) % 2 ^ 64
          ≡ base + length (code ++ pre)
      target = rw length-append (unfold le32 in omega (arith, sizes, d_lem, at_k))

      read :
          memory image base
            ((base + (cpu.rip + length set_rax + length set_rdi) + length (set_rsi d) + d) % 2 ^ 64)
            (length text)
          ≡ some text
      read = memory_lem image base _ (code ++ pre) text post whole target

      code_here : drop cpu.rip image ≡ flatten (block_code d text) ++ rest
      code_here =
          ap (λ n. drop n image) at_k
          ∙ at_rip
          ∙ ap (λ t. t ++ rest) (sym (flatten-block_code d text (omega (arith, sizes))))

  run_blocks :
      (texts : List Bytes) (k : ℕ) (pre rest : Bytes) (fuel : ℕ) (cpu : Cpu)
      → cpu.rip ≡ k
      → k + 30 * length texts ≤ length code
      → rodata ≡ pre ++ flat texts
      → drop k image ≡ closed_blocks (length code) k (length pre) texts ++ rest
      → (cpu' : Cpu) × (run image base (5 * length texts + fuel) cpu ≡ run image base fuel cpu')
        × (cpu'.out ≡ cpu.out ++ flat texts)
        × (drop cpu'.rip image ≡ rest)
  run_blocks [] k pre rest fuel cpu at_k room stored at_rip = (
    cpu,
    ap (λ n. run image base n cpu) (zero-add fuel),
    sym (append-nil cpu.out),
    ap (λ n. drop n image) at_k ∙ at_rip,
  )
  run_blocks (text ∷ texts) k pre rest fuel cpu at_k room stored at_rip =
      let (c₁, e₁, o₁, n₁) =
        run-block k pre text (flat texts) behind (5 * length texts + fuel) cpu at_k (omega arith)
          stored here in
      let (c₂, e₂, o₂, at₂) =
        run_blocks texts (k + 30) (pre ++ text) rest fuel c₁ n₁ (omega arith)
          (stored ∙ sym (append_assoc pre text (flat texts))) next_block in
      (
        c₂,
        ap (λ n. run image base n cpu) more ∙ e₁ ∙ e₂,
        o₂ ∙ ap (λ t. t ++ flat texts) o₁ ∙ append_assoc cpu.out text (flat texts),
        at₂,
      )
    where
      d : ℕ
      d = disp_at (length code) k (length pre)

      behind : Bytes
      behind = closed_blocks (length code) (k + 30) (length pre + length text) texts ++ rest

      here : drop k image ≡ block d text ++ behind
      here = at_rip ∙ append_assoc (block d text) _ rest

      more : 5 * suc (length texts) + fuel ≡ 5 + (5 * length texts + fuel)
      more = omega arith

      thirty : (t : Bytes) → drop 30 (block d text ++ t) ≡ t
      thirty t = unfold le32 in refl

      next_block :
          drop (k + 30) image
          ≡ closed_blocks (length code) (k + 30) (length (pre ++ text)) texts ++ rest
      next_block = rw length-append (drop-add k 30 image ∙ ap (drop 30) here ∙ thirty behind)

exit_insns : Code
exit_insns =
    (mov_imm 0 60, 0x48 ∷ 0xc7 ∷ 0xc0 ∷ le32 60)
    ∷ (xor_rdi, 0x48 ∷ 0x31 ∷ 0xff ∷ [])
    ∷ (syscall, 0x0f ∷ 0x05 ∷ [])
    ∷ []

run_exit :
    (image : Bytes) (base : ℕ) (rest : Bytes) (cpu : Cpu)
    → drop cpu.rip image ≡ exit_code ++ rest
    → run image base 3 cpu ≡ exited 0 cpu.out
unfolding exit_insns le32
run_exit image base rest cpu at_rip =
    run-perform_all image base exit_insns rest 0 cpu encodes at_rip
    ∙ ap (λ r. finish r (run image base 0)) (exit_lem image base _ _ _ cpu).0
  where
    encodes : All Encodes exit_insns
    encodes = (
      (λ rest. decode-mov_imm32 0 60 rest (omega arith) (omega arith)),
      (decode-xor_rdi, (decode-syscall, tt)),
    )

-- A processor that starts at the front of the payload.
abbrev pub boot : (ℕ → ℕ) → Cpu
boot regs = record { rip = 0; regs = regs; out = [] }

-- The payload, loaded anywhere and entered with any registers, writes exactly the texts of the
-- program in their order to stdout and exits with status 0, if it is shorter than 2 GiB and its
-- addresses fit 64 bits.
pub run-emit_native_payload :
    (texts : List Bytes) (base : ℕ) (regs : ℕ → ℕ)
    → length (emit_native_payload texts) < 2 ^ 31
    → base + length (emit_native_payload texts) < 2 ^ 64
    → run (emit_native_payload texts) base (5 * length texts + 3) (boot regs)
      ≡ exited 0 (flat texts)
run-emit_native_payload texts base regs small placed =
    let (cpu, e, o, at_exit) =
      run_blocks image code (flat texts) base split small placed texts 0 [] rest 3 (boot regs) refl
        (omega (arith, code_size)) refl begins in
    e ∙ run_exit image base (flat texts) cpu at_exit ∙ ap (exited 0) o
  where
    image : Bytes
    image = emit_native_payload texts

    rest : Bytes
    rest = exit_code ++ flat texts

    code : Bytes
    code = closed_blocks (text_size texts) 0 0 texts ++ exit_code

    code_size : length code ≡ text_size texts
    code_size = rw length-append (omega (arith, length-closed_blocks (text_size texts) 0 0 texts))

    split : image ≡ code ++ flat texts
    split = emit_native_payload_lem texts ∙ sym (append_assoc _ exit_code (flat texts))

    begins : image ≡ closed_blocks (length code) 0 0 texts ++ rest
    begins =
        emit_native_payload_lem texts ∙ ap (λ s. closed_blocks s 0 0 texts ++ rest) (sym code_size)
