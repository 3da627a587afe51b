-- ===== src/Bytecode/Compile.antt =====
-- `compile_source` of src/nanlang_cpp.cpp: from the lines of a source file to bytecode.
use optimized_nan_lang.Base.{
  length, Bytes, codes, ℕ, Bool, true, false, not, Option, none, some, List, [], ◌+◌, ◌%◌, ◌^◌,
  ◌||◌, ◌∷◌, ◌++◌, ◌==◌, if◌then◌else◌,
}
use optimized_nan_lang.Words.{append_u32_le}
use optimized_nan_lang.Bytecode.Source.{
  Statement, ignored, conditional, looping, returning, halts, unsupported, says, signals, mmio,
  no_equals, not_numeric, too_large, write, read_statement,
}

-- The messages on stderr, with their line.
pub data Failure : Type 0 where
  source_not_found cannot_create write_failed : Failure
  malformed_say malformed_signal mmio_too_large : ℕ → Failure

pub data Warning : Type 0 where
  linearized_if linearized_loop return_ignored : ℕ → Warning
  malformed_mmio unsupported_mmio unsupported_statement : ℕ → Warning

pub data Result {ℓ} (A : Type ℓ) : Type ℓ where
  err : Failure → Result A
  ok : A → Result A

infixl 5 ◌>>=◌
abbrev pub ◌>>=◌ {ℓ κ} : {A : Type ℓ} {B : Type κ} → Result A → (A → Result B) → Result B
err failure >>= next = err failure
ok a >>= next = next a

-- The variables of the loop.
pub record Compile : Type 0 where
  pub bytecode : Bytes
  pub emitted_ops : ℕ
  pub warnings : List Warning
  pub has_halt : Bool
  pub warned_if : Bool
  pub warned_loop : Bool
  pub warned_return : Bool

abbrev pub start : Compile
start = record {
  bytecode = codes "NAN3";
  emitted_ops = 0;
  warnings = [];
  has_halt = false;
  warned_if = false;
  warned_loop = false;
  warned_return = false;
}

-- LOAD value, STORE addr.
unfoldable pub emit_store_sequence : Bytes → ℕ → ℕ → Bytes
emit_store_sequence out value addr = out ++ 0x03 ∷ value ∷ 0x04 ∷ addr ∷ []

unfoldable pub warn : Warning → Compile → Compile
warn w st = record st { warnings = st.warnings ++ w ∷ [] }

unfoldable pub store_signal : ℕ → ℕ → Compile → Compile
unfolding emit_store_sequence
store_signal value addr st = record st {
  bytecode = emit_store_sequence st.bytecode value addr;
  emitted_ops = st.emitted_ops + 2;
}

unfoldable pub emit_say : Bytes → Compile → Compile
emit_say text st = record st {
  bytecode = append_u32_le (st.bytecode ++ 0x02 ∷ []) (length text % 2 ^ 32) ++ text;
  emitted_ops = st.emitted_ops + 1;
}

unfoldable pub emit_halt : Compile → Compile
emit_halt st = record st { bytecode = st.bytecode ++ 0x01 ∷ []; emitted_ops = st.emitted_ops + 1 }

-- One round of the loop, at line `n`.
unfoldable pub compile_statement : ℕ → Statement → Compile → Result Compile
unfolding warn store_signal emit_halt
compile_statement n ignored st = ok st
compile_statement n conditional st =
    ok (if st.warned_if then st else record (warn (linearized_if n) st) { warned_if = true })
compile_statement n looping st =
    ok (if st.warned_loop then st else record (warn (linearized_loop n) st) { warned_loop = true })
compile_statement n returning st =
    ok (
      if st.warned_return then st else record (warn (return_ignored n) st) { warned_return = true })
compile_statement n (says none) st = err (malformed_say n)
compile_statement n (says (some text)) st = ok (emit_say text st)
compile_statement n halts st = ok (record (emit_halt st) { has_halt = true })
compile_statement n (signals none) st = err (malformed_signal n)
compile_statement n (signals (some (is_pulse, signal))) st =
    ok (store_signal signal (if is_pulse then 0x10 else 0x11) st)
compile_statement n (mmio no_equals) st = ok (warn (malformed_mmio n) st)
compile_statement n (mmio not_numeric) st = ok (warn (unsupported_mmio n) st)
compile_statement n (mmio too_large) st = err (mmio_too_large n)
compile_statement n (mmio (write addr value)) st = ok (store_signal value addr st)
compile_statement n unsupported st = ok (warn (unsupported_statement n) st)

-- The loop over the lines; `n` is the number of the next one.
unfoldable pub compile_lines : ℕ → List Bytes → Compile → Result Compile
compile_lines n [] st = ok st
compile_lines n (l ∷ ls) st = compile_statement n (read_statement l) st >>= compile_lines (n + 1) ls

-- A program without HALT gets one.
unfoldable pub finish : Compile → Compile
unfolding emit_halt
finish st = if st.emitted_ops == 0 || not st.has_halt then emit_halt st else st

-- What is written to the output file, for the lines of the source file.
unfoldable pub compile_source : List Bytes → Result Compile
unfolding read_statement compile_lines compile_statement emit_say finish
compile_source lines = compile_lines 1 lines start >>= λ st. ok (finish st)

-- With the files: `none` is a source that does not open, and the tests are those of the output
-- stream.
unfoldable pub compile_file : Option (List Bytes) → Bool → Bool → Result Compile
unfolding compile_source
compile_file none opens good = err source_not_found
compile_file (some lines) opens good = compile_source lines >>= λ st.
    if not opens then err cannot_create else if not good then err write_failed else ok st
