-- ===== src/Elf/Load.antt =====
-- A loader for the files of one PT_LOAD segment, from the ELF specification, on what the writers write.
use optimized_nan_lang.Base.{
  ltb, leb, length, get_or, take, drop, Bytes, ℕ, refl, ap, true, Option, none, some, List, [],
  arith, ◌+◌, ◌-◌, ◌*◌, ◌^◌, ◌<◌, ◌≡◌, ◌∙◌, ◌&&◌, ◌∷◌, ◌==◌, if◌then◌else◌,
}
use optimized_nan_lang.X86.{Outcome, exited, run}
use optimized_nan_lang.Native.{emit_native_payload}
use optimized_nan_lang.Native.Layout.{flat}
use optimized_nan_lang.Native.Run.{boot, run-emit_native_payload}
use optimized_nan_lang.Native.Closed.{payload_pos}
use optimized_nan_lang.Elf.{build_elf_image, image_base, code_offset}

unfoldable pub byte_at : Bytes → ℕ → ℕ
byte_at file i = get_or file i 0

-- Little-endian fields of the file.
unfoldable pub u32_at : Bytes → ℕ → ℕ
unfolding byte_at
u32_at file i =
    byte_at file i
    + byte_at file (i + 1) * 2 ^ 8
    + byte_at file (i + 2) * 2 ^ 16
    + byte_at file (i + 3) * 2 ^ 24

unfoldable pub u64_at : Bytes → ℕ → ℕ
unfolding u32_at
u64_at file i = u32_at file i + u32_at file (i + 4) * 2 ^ 32

-- What a loader makes of a file: the bytes of the segment from the entry point on, and the address of
-- the first. It checks the magic number, the class, the type, the machine, that there is one program
-- header and that it is a PT_LOAD within the file.
unfoldable pub load : Bytes → Option (Bytes × ℕ)
load file =
    let ph = u64_at file 32 in
    let entry = u64_at file 24 in
    let offset = u64_at file (ph + 8) in
    let vaddr = u64_at file (ph + 16) in
    let filesz = u64_at file (ph + 32) in
    if (u32_at file 0 == 0x464c457f && (byte_at file 4 == 2 && u32_at file 16 == 0x3e0002))
      && ((u32_at file 54 == 0x10038 && u32_at file ph == 1)
          && (leb (offset + filesz) (length file)
              && (u64_at file (ph + 40) == filesz
                  && (leb vaddr entry && ltb entry (vaddr + filesz)))))
    then some (drop (offset + (entry - vaddr)) (take (offset + filesz) file), entry)
    else none

-- The fields of the file that depend on the code.
size_fields :
    (code : Bytes)
    → 120 + length code < 2 ^ 64
    → (u64_at (build_elf_image code) 96 ≡ 120 + length code)
      × (u64_at (build_elf_image code) 104 ≡ 120 + length code)
unfolding build_elf_image u64_at
size_fields code h = omega arith

-- The fields that do not.
constant_fields :
    (code : Bytes)
    → let file = build_elf_image code in
      ((u64_at file 24 ≡ 0x400078)
        × (u64_at file 32 ≡ 64)
        × (u64_at file 72 ≡ 0)
        × (u64_at file 80 ≡ 0x400000))
      × ((u32_at file 0 ≡ 0x464c457f)
          × (byte_at file 4 ≡ 2)
          × (u32_at file 16 ≡ 0x3e0002)
          × (u32_at file 54 ≡ 0x10038)
          × (u32_at file 64 ≡ 1))
unfolding build_elf_image u64_at
constant_fields code = ((refl, refl, refl, refl), (refl, refl, refl, refl, refl))

pub length-build_elf_image : (code : Bytes) → length (build_elf_image code) ≡ 120 + length code
unfolding build_elf_image
length-build_elf_image code = omega arith

take-length : (xs : Bytes) → take (length xs) xs ≡ xs
take-length [] = refl
take-length (x ∷ xs) = ap (λ t. x ∷ t) (take-length xs)

-- The loader accepts what `build_elf_image` writes, and enters the machine code at its first byte, with
-- nothing behind its last, if there is any code and the length of the file fits 64 bits.
pub load-build_elf_image :
    (code : Bytes)
    → 0 < length code
    → 120 + length code < 2 ^ 64
    → load (build_elf_image code) ≡ some (code, image_base + code_offset)
unfolding load
load-build_elf_image code some_code h =
    let ((entry, phoff, offset, vaddr), (magic, class, type, phnum, load_type)) =
      constant_fields code in
    let (filesz, memsz) = size_fields code h in
    rw
      (
        entry, phoff, offset, vaddr, magic, class, type, phnum, load_type, filesz, memsz,
        length-build_elf_image,
      )
      (rw (in_file (length code) some_code, if◌then◌else◌)
        (ap (λ t. some (t, 0x400078)) (kept code)))
  where
    in_file :
        (n : ℕ)
        → 0 < n
        → (leb (0 + (120 + n)) (120 + n)
            && (120 + n == 120 + n && ltb 0x400078 (0x400000 + (120 + n))))
          ≡ true
    in_file n h = ground arith

    whole : (code : Bytes) → 0 + (120 + length code) ≡ length (build_elf_image code)
    whole code = omega (arith, length-build_elf_image code)

    behind_headers : (code : Bytes) → drop 120 (build_elf_image code) ≡ code
    behind_headers code = unfold build_elf_image in refl

    kept : (code : Bytes) → drop 120 (take (0 + (120 + length code)) (build_elf_image code)) ≡ code
    kept code =
        ap (λ n. drop 120 (take n (build_elf_image code))) (whole code)
        ∙ ap (drop 120) (take-length (build_elf_image code))
        ∙ behind_headers code

-- What a file does when it is loaded and run, and `none` where the loader refuses it.
abbrev pub execute : Bytes → ℕ → (ℕ → ℕ) → Option Outcome
execute file fuel regs = elim (load file) [
  | none ↦ none
  | some (image, entry) ↦ some (run image entry fuel (boot regs))
]

-- The executable of a program writes its texts in order and exits with status 0, entered with any
-- registers, if its code and texts are shorter than 2 GiB.
pub execute-build_elf_image :
    (texts : List Bytes) (regs : ℕ → ℕ)
    → length (emit_native_payload texts) < 2 ^ 31
    → execute (build_elf_image (emit_native_payload texts)) (5 * length texts + 3) regs
      ≡ some (exited 0 (flat texts))
execute-build_elf_image texts regs small =
    rw (load-build_elf_image (emit_native_payload texts) (payload_pos texts) (omega arith), execute)
      (ap some (run-emit_native_payload texts 0x400078 regs small (omega arith)))
