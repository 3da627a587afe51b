-- ===== src/X86/Write.antt =====
-- The two system calls as straight-line code: write(1, text, size) with the text at a displacement
-- from `rip`, and exit(0).
use optimized_nan_lang.Base.{
  leb, length, drop, length-append, drop-length_append, take-length_append, All, Bytes, ℕ, refl, ap,
  true, some, [], arith, ◌+◌, ◌-◌, ◌%◌, ◌^◌, ◌≡◌, ◌∙◌, ◌&&◌, ◌∷◌, ◌++◌, if◌then◌else◌,
}
use optimized_nan_lang.X86.{
  mov_imm, lea_rsi, xor_rdi, syscall, Cpu, go, done, exited, memory, perform, write_reg, run,
  finish,
}
use optimized_nan_lang.X86.Linear.{Code, Encodes, flatten, perform_all, run-perform_all}

-- Where the text lies in the image, a read of its length gives it.
pub memory_lem :
    (image : Bytes) (base addr : ℕ) (front text back : Bytes)
    → image ≡ front ++ (text ++ back)
    → addr ≡ base + length front
    → memory image base addr (length text) ≡ some text
memory_lem image base addr front text back split at_addr =
    rw (inside, if◌then◌else◌)
      (rw (split, at_addr, offset, drop-length_append front (text ++ back))
        (ap some (take-length_append text back)))
  where
    offset : base + length front - base ≡ length front
    offset = omega arith

    inside : (leb base addr && leb (addr + length text) (base + length image)) ≡ true
    inside = rw (split, length-append, length-append) (ground arith)

-- mov rax, 1; mov rdi, 1; lea rsi, [rip + d]; mov rdx, length text; syscall, whatever their bytes.
abbrev pub write_code : Bytes → Bytes → Bytes → Bytes → Bytes → ℕ → Bytes → Code
write_code b₀ b₁ b₂ b₃ b₄ d text =
    (mov_imm 0 1, b₀)
    ∷ (mov_imm 7 1, b₁)
    ∷ (lea_rsi d, b₂)
    ∷ (mov_imm 2 (length text), b₃)
    ∷ (syscall, b₄)
    ∷ []

module _ (image : Bytes) (base : ℕ) where
  -- Five instructions in the order mov rax, mov rdi, lea rsi, mov rdx, syscall, whatever their bytes.
  pub write_lem :
      (b₀ b₁ b₂ b₃ b₄ : Bytes) (d : ℕ) (text : Bytes) (cpu : Cpu)
      → memory image base
          ((base + (cpu.rip + length b₀ + length b₁) + length b₂ + d) % 2 ^ 64)
          (length text)
        ≡ some text
      → (cpu' : Cpu) × (perform_all image base (write_code b₀ b₁ b₂ b₃ b₄ d text) cpu ≡ go cpu')
        × (cpu'.out ≡ cpu.out ++ text)
        × (cpu'.rip ≡ cpu.rip + length b₀ + length b₁ + length b₂ + length b₃ + length b₄)
  unfolding perform_all perform
  write_lem b₀ b₁ b₂ b₃ b₄ d text cpu m = (last, rw m, refl, refl)
    where
      before : ℕ
      before = cpu.rip + length b₀ + length b₁

      asked : ℕ → ℕ
      asked = write_reg 2 (length text) (
          write_reg 6 ((base + before + length b₂ + d) % 2 ^ 64)
            (write_reg 7 1 (write_reg 0 1 cpu.regs)))

      last : Cpu
      last = record {
        rip = before + length b₂ + length b₃ + length b₄;
        regs = write_reg 0 (length text) (write_reg 1 0 (write_reg 11 0 asked));
        out = cpu.out ++ text;
      }

  -- Where that code lies at `rip` and its address is that of the text, the text is written.
  pub run_write :
      (b₀ b₁ b₂ b₃ b₄ : Bytes) (d : ℕ) (text rest : Bytes) (fuel : ℕ) (cpu : Cpu)
      → All Encodes (write_code b₀ b₁ b₂ b₃ b₄ d text)
      → drop cpu.rip image ≡ flatten (write_code b₀ b₁ b₂ b₃ b₄ d text) ++ rest
      → memory image base
          ((base + (cpu.rip + length b₀ + length b₁) + length b₂ + d) % 2 ^ 64)
          (length text)
        ≡ some text
      → (cpu' : Cpu) × (run image base (5 + fuel) cpu ≡ run image base fuel cpu')
        × (cpu'.out ≡ cpu.out ++ text)
        × (cpu'.rip ≡ cpu.rip + length b₀ + length b₁ + length b₂ + length b₃ + length b₄)
  run_write b₀ b₁ b₂ b₃ b₄ d text rest fuel cpu enc at_rip m =
      let (cpu', e, o, n) = write_lem b₀ b₁ b₂ b₃ b₄ d text cpu m in
      (
        cpu',
        run-perform_all image base _ rest fuel cpu enc at_rip
            ∙ ap (λ r. finish r (run image base fuel)) e,
        o,
        n,
      )

  -- exit(0), with rdi cleared by a `mov` or an `xor`.
  pub exit_lem :
      (b₀ b₁ b₂ : Bytes) (cpu : Cpu)
      → (perform_all image base ((mov_imm 0 60, b₀) ∷ (xor_rdi, b₁) ∷ (syscall, b₂) ∷ []) cpu
          ≡ done (exited 0 cpu.out))
        × (perform_all image base ((mov_imm 0 60, b₀) ∷ (mov_imm 7 0, b₁) ∷ (syscall, b₂) ∷ []) cpu
            ≡ done (exited 0 cpu.out))
  unfolding perform_all perform
  exit_lem b₀ b₁ b₂ cpu = (refl, refl)
