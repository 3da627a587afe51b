-- ===== src/Elf.antt =====
-- The two writers of an ELF executable: `build_elf_image` of src/nanlang_cpp.cpp and
-- `AOTCompiler::build_elf_executable` of src/nan_aot_compiler.cpp.
pub mod Same
pub mod Load
mod Tests
use optimized_nan_lang.Base.{
  length, replicate, Bytes, ℕ, zero, suc, [], ◌+◌, ◌*◌, ◌/◌, ◌%◌, ◌^◌, ◌∷◌, ◌++◌,
}
use optimized_nan_lang.Words.{append_u16_le, append_u32_le, append_u64_le}

abbrev pub image_base : ℕ
image_base = 0x400000

-- The headers, of 64 and 56 bytes.
abbrev pub code_offset : ℕ
code_offset = 64 + 56

unfoldable pub elf_header : Bytes
unfolding append_u16_le append_u32_le append_u64_le
elf_header =
    let ident = 0x7f ∷ 0x45 ∷ 0x4c ∷ 0x46 ∷ 2 ∷ 1 ∷ 1 ∷ 0 ∷ replicate 8 0 in
    let type = append_u16_le ident 2 in
    let machine = append_u16_le type 0x3e in
    let version = append_u32_le machine 1 in
    let entry = append_u64_le version (image_base + code_offset) in
    let phoff = append_u64_le entry 64 in
    let shoff = append_u64_le phoff 0 in
    let flags = append_u32_le shoff 0 in
    let ehsize = append_u16_le flags 64 in
    let phentsize = append_u16_le ehsize 56 in
    let phnum = append_u16_le phentsize 1 in
    append_u16_le (append_u16_le (append_u16_le phnum 0) 0) 0

-- The PT_LOAD header: the whole file, readable and executable.
unfoldable pub program_header : Bytes → ℕ → Bytes
unfolding append_u32_le append_u64_le
program_header out file_size =
    let type = append_u32_le out 1 in
    let flags = append_u32_le type 5 in
    let offset = append_u64_le flags 0 in
    let vaddr = append_u64_le offset image_base in
    let paddr = append_u64_le vaddr image_base in
    let filesz = append_u64_le paddr file_size in
    let memsz = append_u64_le filesz file_size in append_u64_le memsz 0x1000

unfoldable pub build_elf_image : Bytes → Bytes
unfolding elf_header program_header
build_elf_image machine_code =
    program_header elf_header (code_offset + length machine_code) ++ machine_code

-- `for (int i = 0; i < 8; ++i) out.push_back((v >> (i*8)) & 0xFF);`, from round `i` on.
push_shifted : ℕ → ℕ → ℕ → Bytes
push_shifted zero i v = []
push_shifted (suc n) i v = v / 2 ^ (i * 8) % 256 ∷ push_shifted n (i + 1) v

unfoldable pub push_u64 : Bytes → ℕ → Bytes
unfolding push_shifted
push_u64 out v = out ++ push_shifted 8 0 v

unfoldable pub build_elf_executable : Bytes → Bytes
build_elf_executable machine_code =
    let file_size = code_offset + length machine_code in
    let ident = 0x7f ∷ 0x45 ∷ 0x4c ∷ 0x46 ∷ 2 ∷ 1 ∷ 1 ∷ 0 ∷ replicate 8 0 in
    let version = ident ++ 0x02 ∷ 0x00 ∷ 0x3e ∷ 0x00 ∷ 0x01 ∷ 0x00 ∷ 0x00 ∷ 0x00 ∷ [] in
    let entry = push_u64 version (image_base + code_offset) in
    let phoff = push_u64 entry 64 in
    let flags = (phoff ++ replicate 8 0) ++ replicate 4 0 in
    let phnum = flags ++ 0x40 ∷ 0x00 ∷ 0x38 ∷ 0x00 ∷ 0x01 ∷ 0x00 ∷ [] in
    let header = phnum ++ replicate 6 0 in
    let type = header ++ 0x01 ∷ 0x00 ∷ 0x00 ∷ 0x00 ∷ 0x05 ∷ 0x00 ∷ 0x00 ∷ 0x00 ∷ [] in
    let offset = type ++ replicate 8 0 in
    let vaddr = push_u64 offset image_base in
    let paddr = push_u64 vaddr image_base in
    let filesz = push_u64 paddr file_size in
    let memsz = push_u64 filesz file_size in push_u64 memsz 0x1000 ++ machine_code
