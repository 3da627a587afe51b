-- ===== src/Elf/Same.antt =====
-- The two writers write the same file.
use optimized_nan_lang.Base.{Bytes, ℕ, sym, ap, arith, ◌≡◌, ◌∙◌, ◌++◌}
use optimized_nan_lang.Words.{le64, append_u64_le, append_u64-le64}
use optimized_nan_lang.Elf.{build_elf_image, build_elf_executable, push_shifted, push_u64}

push_shifted-le64 : (v : ℕ) → push_shifted 8 0 v ≡ le64 v
unfolding push_shifted le64
push_shifted-le64 v = ground arith

push_u64-append : (out : Bytes) (v : ℕ) → push_u64 out v ≡ append_u64_le out v
push_u64-append out v = opened ∙ sym (append_u64-le64 out v)
  where
    opened : push_u64 out v ≡ out ++ le64 v
    opened = unfold push_u64 in ap (λ t. out ++ t) (push_shifted-le64 v)

-- For every machine code `build_elf_executable` and `build_elf_image` give the same bytes.
pub build_elf_executable-eq : (code : Bytes) → build_elf_executable code ≡ build_elf_image code
unfolding build_elf_executable build_elf_image
build_elf_executable-eq code = simp push_u64-append
