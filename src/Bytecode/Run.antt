-- ===== src/Bytecode/Run.antt =====
-- `run_bytecode` of src/nanlang_cpp.cpp: the machine that runs NAN3 bytecode.
use optimized_nan_lang.Base.{
  ltb, same, length, take, drop, Bytes, codes, ℕ, zero, suc, [], ◌+◌, ◌∷◌, ◌++◌, ◌==◌,
  if◌then◌else◌,
}
use optimized_nan_lang.Words.{read_u32_le_ptr}
use optimized_nan_lang.Signal.{signal_name}

-- The messages on stderr with their offset, and the opcode that is unknown.
pub data Fault : Type 0 where
  not_found truncated_file read_failed invalid_magic : Fault
  truncated_say_length truncated_say_payload truncated_load truncated_store : ℕ → Fault
  unsupported_opcode : ℕ → ℕ → Fault

-- What stands on stdout in the end: after HALT, at the end of the bytes without one, or when the
-- machine stops with a fault. `stuck` is no outcome of the program: the fuel of the model ran out.
pub data Outcome : Type 0 where
  halted eof : Bytes → Outcome
  faulted : Bytes → Fault → Outcome
  stuck : Outcome

unfoldable pub store_text : ℕ → ℕ → Bytes
unfolding signal_name
store_text addr acc =
    if addr == 0x10
    then codes "[pulse] " ++ signal_name acc ++ 10 ∷ []
    else if addr == 0x11
    then codes "[emit] " ++ signal_name acc ++ 10 ∷ []
    else []

-- What a round does: go on with an accumulator and an output, having read so many bytes.
pub data Step : Type 0 where
  next : ℕ → Bytes → ℕ → Bytes → Step
  stop : Outcome → Step

unfoldable pub say_step : ℕ → ℕ → Bytes → Bytes → Step
unfolding read_u32_le_ptr
say_step pos acc out (a ∷ b ∷ c ∷ d ∷ p) =
    let len = read_u32_le_ptr a b c d in
    if ltb (length p) len
    then stop (faulted out (truncated_say_payload (pos + 5)))
    else next acc (out ++ (take len p ++ 10 ∷ [])) (pos + 5 + len) (drop len p)
say_step pos acc out p = stop (faulted out (truncated_say_length pos))

unfoldable pub load_step : ℕ → Bytes → Bytes → Step
load_step pos out [] = stop (faulted out (truncated_load pos))
load_step pos out (v ∷ p) = next v out (pos + 2) p

unfoldable pub store_step : ℕ → ℕ → Bytes → Bytes → Step
unfolding store_text
store_step pos acc out [] = stop (faulted out (truncated_store pos))
store_step pos acc out (addr ∷ p) = next acc (out ++ store_text addr acc) (pos + 2) p

-- The switch, at the opcode `op` at offset `pos`, with the bytes behind it.
unfoldable pub run_step : ℕ → ℕ → Bytes → ℕ → Bytes → Step
unfolding load_step store_step
run_step pos acc out op p =
    if op == 0x01
    then stop (halted out)
    else if op == 0x02
    then say_step pos acc out p
    else if op == 0x03
    then load_step pos out p
    else if op == 0x04
    then store_step pos acc out p
    else stop (faulted out (unsupported_opcode op pos))

-- `while (p < end)`, on fuel.
unfoldable pub run_loop : ℕ → ℕ → ℕ → Bytes → Bytes → Outcome
run_loop fuel pos acc out [] = eof out
run_loop zero pos acc out (op ∷ p) = stuck
run_loop (suc fuel) pos acc out (op ∷ p) = elim (run_step pos acc out op p) [
  | stop r ↦ r
  | next acc' out' pos' p' ↦ run_loop fuel pos' acc' out' p'
]

-- Each round reads a byte at least, so the length of the file is fuel enough.
unfoldable pub run_bytecode : Bytes → Outcome
unfolding run_loop run_step say_step same
run_bytecode bytes =
    if ltb (length bytes) 4
    then faulted [] truncated_file
    else if same (take 4 bytes) (codes "NAN3")
    then run_loop (length bytes) 4 0 [] (drop 4 bytes)
    else faulted [] invalid_magic
