-- ===== src/Aot/Run.antt =====
-- The machine code of `generate`, run by the processor.
use optimized_nan_lang.Base.{
  length, drop, length-append, All, Bytes, ℕ, refl, sym, ap, some, List, [], append-nil,
  append_assoc, arith, ◌+◌, ◌-◌, ◌%◌, ◌^◌, ◌≤◌, ◌<◌, ◌≡◌, ◌∙◌, ◌∷◌, ◌++◌,
}
use optimized_nan_lang.Words.{le32, le64}
use optimized_nan_lang.X86.{mov_imm, syscall, Cpu, exited, memory, run, finish}
use optimized_nan_lang.X86.Linear.{Code, Encodes, flatten, drop-add, run-perform_all}
use optimized_nan_lang.X86.Decode.{decode-mov_imm64, decode-lea_rsi, decode-syscall}
use optimized_nan_lang.X86.Write.{memory_lem, write_code, run_write, exit_lem}
use optimized_nan_lang.Native.Layout.{flat}
use optimized_nan_lang.Aot.Layout.{Simple, prints, halts, print_block, halt_block, texts}
use optimized_nan_lang.Aot.Patch.{disp_at, closed_code}

-- What a list of instructions prints: its texts up to the first HALT.
abbrev pub said : List Simple → Bytes
said [] = []
said (prints text ∷ is) = text ++ said is
said (halts ∷ is) = []

abbrev pub HasHalt : List Simple → Type 0
HasHalt [] = ⊥
HasHalt (prints text ∷ is) = HasHalt is
HasHalt (halts ∷ is) = Unit

-- The instructions that the processor runs, and the bytes of all of them.
abbrev pub rounds : List Simple → ℕ
rounds [] = 0
rounds (prints text ∷ is) = 5 + rounds is
rounds (halts ∷ is) = 3

abbrev pub code_size : List Simple → ℕ
code_size [] = 0
code_size (prints text ∷ is) = 39 + code_size is
code_size (halts ∷ is) = 22 + code_size is

abbrev set_rax : Bytes
set_rax = 0x48 ∷ 0xb8 ∷ le64 1

abbrev set_rdi : Bytes
set_rdi = 0x48 ∷ 0xbf ∷ le64 1

abbrev set_rsi : ℕ → Bytes
set_rsi d = 0x48 ∷ 0x8d ∷ 0x35 ∷ le32 d

abbrev set_rdx : Bytes → Bytes
set_rdx text = 0x48 ∷ 0xba ∷ le64 (length text)

abbrev print_code : ℕ → Bytes → Code
print_code d text = write_code set_rax set_rdi (set_rsi d) (set_rdx text) (0x0f ∷ 0x05 ∷ []) d text

print_code-Encodes :
    (d : ℕ) (text : Bytes) → d < 2 ^ 31 → length text < 2 ^ 31 → All Encodes (print_code d text)
unfolding le32 le64
print_code-Encodes d text hd ht = (
  λ rest. decode-mov_imm64 0 1 rest (omega arith) (omega arith),
  (
    λ rest. decode-mov_imm64 7 1 rest (omega arith) (omega arith),
    (
      λ rest. decode-lea_rsi d rest hd,
      (
        λ rest. decode-mov_imm64 2 (length text) rest (omega arith) (omega arith),
        (decode-syscall, tt),
      ),
    ),
  ),
)

flatten-print_code : (d : ℕ) (text : Bytes) → flatten (print_code d text) ≡ print_block d text
unfolding le32 le64
flatten-print_code d text = refl

abbrev halt_code : Code
halt_code =
    (mov_imm 0 60, 0x48 ∷ 0xb8 ∷ le64 60)
    ∷ (mov_imm 7 0, 0x48 ∷ 0xbf ∷ le64 0)
    ∷ (syscall, 0x0f ∷ 0x05 ∷ [])
    ∷ []

run_halt :
    (image : Bytes) (base : ℕ) (rest : Bytes) (cpu : Cpu)
    → drop cpu.rip image ≡ halt_block ++ rest
    → run image base 3 cpu ≡ exited 0 cpu.out
unfolding le64
run_halt image base rest cpu at_rip =
    run-perform_all image base halt_code rest 0 cpu encodes at_rip
    ∙ ap (λ r. finish r (run image base 0)) (exit_lem image base _ _ _ cpu).1
  where
    encodes : All Encodes halt_code
    encodes = (
      λ rest. decode-mov_imm64 0 60 rest (omega arith) (omega arith),
      (λ rest. decode-mov_imm64 7 0 rest (omega arith) (omega arith), (decode-syscall, tt)),
    )

module _ (image code rodata : Bytes) (base : ℕ) (split : image ≡ code ++ rodata)
    (small : length image < 2 ^ 31) (placed : base + length image < 2 ^ 64) where
  run_print :
      (k : ℕ) (pre text post rest : Bytes) (fuel : ℕ) (cpu : Cpu)
      → cpu.rip ≡ k
      → k + 39 ≤ length code
      → rodata ≡ pre ++ (text ++ post)
      → drop k image ≡ print_block (disp_at (length code) k (length pre)) text ++ rest
      → (cpu' : Cpu) × (run image base (5 + fuel) cpu ≡ run image base fuel cpu')
        × (cpu'.out ≡ cpu.out ++ text)
        × (cpu'.rip ≡ k + 39)
  run_print k pre text post rest fuel cpu at_k room stored at_rip =
      let (cpu', e, o, n) =
        run_write image base set_rax set_rdi (set_rsi d) (set_rdx text) (0x0f ∷ 0x05 ∷ []) d text
          rest fuel cpu
          (print_code-Encodes d text (omega (arith, sizes, d_lem)) (omega (arith, sizes))) code_here
          read in
      (cpu', e, o, n ∙ (unfold le32 le64 in rw at_k (omega arith)))
    where
      d : ℕ
      d = disp_at (length code) k (length pre)

      sizes : length image ≡ length code + (length pre + (length text + length post))
      sizes = rw (split, stored, length-append, length-append, length-append) refl

      d_lem : d ≡ length code + length pre - (k + 27)
      d_lem = omega (arith, sizes)

      whole : image ≡ (code ++ pre) ++ (text ++ post)
      whole = split ∙ rw stored (sym (append_assoc code pre (text ++ post)))

      target :
          (base + (cpu.rip + length set_rax + length set_rdi) + length (set_rsi d) + d) % 2 ^ 64
          ≡ base + length (code ++ pre)
      target = rw length-append (unfold le32 le64 in omega (arith, sizes, d_lem, at_k))

      read :
          memory image base
            ((base + (cpu.rip + length set_rax + length set_rdi) + length (set_rsi d) + d) % 2 ^ 64)
            (length text)
          ≡ some text
      read = memory_lem image base _ (code ++ pre) text post whole target

      code_here : drop cpu.rip image ≡ flatten (print_code d text) ++ rest
      code_here =
          ap (λ n. drop n image) at_k
          ∙ at_rip
          ∙ ap (λ t. t ++ rest) (sym (flatten-print_code d text))

  pub run_code :
      (is : List Simple) (k : ℕ) (pre rest : Bytes) (cpu : Cpu)
      → HasHalt is
      → cpu.rip ≡ k
      → k + code_size is ≤ length code
      → rodata ≡ pre ++ flat (texts is)
      → drop k image ≡ closed_code (length code) k (length pre) is ++ rest
      → run image base (rounds is) cpu ≡ exited 0 (cpu.out ++ said is)
  run_code [] k pre rest cpu stops at_k room stored at_rip = absurd stops
  run_code (halts ∷ is) k pre rest cpu stops at_k room stored at_rip =
      run_halt image base (closed_code (length code) (k + 22) (length pre) is ++ rest) cpu
        (ap (λ n. drop n image) at_k ∙ at_rip)
      ∙ ap (exited 0) (sym (append-nil cpu.out))
  run_code (prints text ∷ is) k pre rest cpu stops at_k room stored at_rip =
      let (c, e, o, n) =
        run_print k pre text (flat (texts is)) behind (rounds is) cpu at_k (omega arith) stored
          here in
      e
      ∙ run_code is (k + 39) (pre ++ text) rest c stops n (omega arith)
          (stored ∙ sym (append_assoc pre text (flat (texts is)))) next_code
      ∙ ap (exited 0) (ap (λ t. t ++ said is) o ∙ append_assoc cpu.out text (said is))
    where
      d : ℕ
      d = disp_at (length code) k (length pre)

      behind : Bytes
      behind = closed_code (length code) (k + 39) (length pre + length text) is ++ rest

      here : drop k image ≡ print_block d text ++ behind
      here = at_rip ∙ append_assoc (print_block d text) _ rest

      passed : (t : Bytes) → drop 39 (print_block d text ++ t) ≡ t
      passed t = unfold le32 le64 in refl

      next_code :
          drop (k + 39) image ≡ closed_code (length code) (k + 39) (length (pre ++ text)) is ++ rest
      next_code = rw length-append (drop-add k 39 image ∙ ap (drop 39) here ∙ passed behind)
