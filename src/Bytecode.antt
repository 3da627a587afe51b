-- ===== src/Bytecode.antt =====
-- The NAN3 bytecode of src/nanlang_cpp.cpp: its instructions, and what a program prints.
pub mod Source
pub mod Compile
pub mod Run
pub mod Encoding
pub mod Meaning
pub mod Emitted
pub mod Correct
pub mod Errors
mod Tests
use optimized_nan_lang.Base.{length, Bytes, codes, ℕ, List, [], ◌∷◌, ◌++◌}
use optimized_nan_lang.Words.{le32}

-- The opcodes of `NanOpcode` that the compiler writes, with their operands.
pub data Instr : Type 0 where
  say : Bytes → Instr
  load store : ℕ → Instr
  halt : Instr

-- HALT = 0x01, SAY = 0x02, LOAD = 0x03, STORE = 0x04.
unfoldable pub encode : Instr → Bytes
encode halt = 0x01 ∷ []
encode (say text) = 0x02 ∷ le32 (length text) ++ text
encode (load v) = 0x03 ∷ v ∷ []
encode (store a) = 0x04 ∷ a ∷ []

unfoldable pub encode_all : List Instr → Bytes
unfolding encode
encode_all [] = []
encode_all (i ∷ is) = encode i ++ encode_all is

abbrev pub magic_bytes : Bytes
magic_bytes = codes "NAN3"

abbrev pub pulse_port : ℕ
pulse_port = 0x10

abbrev pub emit_port : ℕ
emit_port = 0x11
