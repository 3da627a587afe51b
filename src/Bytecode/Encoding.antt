-- ===== src/Bytecode/Encoding.antt =====
-- The machine on the bytes of a list of instructions, against their execution one by one.
use optimized_nan_lang.Base.{
  ltb, length, length-append, drop-length_append, take-length_append, All, Bytes, ℕ, zero, suc,
  refl, false, List, [], append_assoc, arith, ◌+◌, ◌^◌, ◌≤◌, ◌<◌, ◌≡◌, ◌∙◌, ◌∷◌, ◌++◌,
  if◌then◌else◌,
}
use optimized_nan_lang.Words.{le32, read_u32-le32}
use optimized_nan_lang.Bytecode.{Instr, say, load, store, halt, encode, encode_all, magic_bytes}
use optimized_nan_lang.Bytecode.Run.{
  Outcome, halted, eof, next, store_text, say_step, run_step, run_loop, run_bytecode,
}

-- What a list of instructions prints, from an accumulator and an output.
unfoldable pub exec : ℕ → Bytes → List Instr → Outcome
exec acc out [] = eof out
exec acc out (say text ∷ is) = exec acc (out ++ (text ++ 10 ∷ [])) is
exec acc out (load v ∷ is) = exec v out is
exec acc out (store a ∷ is) = exec acc (out ++ store_text a acc) is
exec acc out (halt ∷ is) = halted out

-- The length of a text fits its four bytes.
abbrev pub Fits : Instr → Type 0
Fits (say text) = length text < 2 ^ 32
Fits (load v) = Unit
Fits (store a) = Unit
Fits halt = Unit

say_step_lem :
    (pos acc : ℕ) (out text rest : Bytes)
    → length text < 2 ^ 32
    → say_step pos acc out (le32 (length text) ++ (text ++ rest))
      ≡ next acc (out ++ (text ++ 10 ∷ [])) (pos + 5 + length text) rest
unfolding say_step le32
say_step_lem pos acc out text rest h =
    rw (read_u32-le32 (length text) h, take-length_append text rest, drop-length_append text rest)
      (rw (enough, if◌then◌else◌))
  where
    enough : ltb (length (text ++ rest)) (length text) ≡ false
    enough = rw length-append (ground arith)

length-encode : (i : Instr) (rest : Bytes) → suc (length rest) ≤ length (encode i ++ rest)
unfolding encode le32
length-encode (say text) rest = omega (arith, length-append text rest)
length-encode (load v) rest = omega arith
length-encode (store a) rest = omega arith
length-encode halt rest = omega arith

-- One round at the bytes of an instruction that does not stop the machine.
module _ (fuel pos acc : ℕ) (out rest : Bytes) where
  round-say :
      (text : Bytes)
      → length text < 2 ^ 32
      → run_loop (suc fuel) pos acc out (encode (say text) ++ rest)
        ≡ run_loop fuel (pos + 5 + length text) acc (out ++ (text ++ 10 ∷ [])) rest
  unfolding run_loop run_step encode
  round-say text h =
      rw (
        append_assoc (le32 (length text)) text rest,
        say_step_lem pos acc out text rest h,
        run_loop,
      )

  round-load :
      (v : ℕ)
      → run_loop (suc fuel) pos acc out (encode (load v) ++ rest)
        ≡ run_loop fuel (pos + 2) v out rest
  unfolding run_loop run_step encode
  round-load v = refl

  round-store :
      (a : ℕ)
      → run_loop (suc fuel) pos acc out (encode (store a) ++ rest)
        ≡ run_loop fuel (pos + 2) acc (out ++ store_text a acc) rest
  unfolding run_loop run_step encode
  round-store a = refl

  round-halt : run_loop (suc fuel) pos acc out (encode halt ++ rest) ≡ halted out
  unfolding run_loop run_step encode
  round-halt = refl

-- On the bytes of instructions the machine does what the instructions do, given a round for each byte.
pub run_loop-encode_all :
    (is : List Instr) (fuel pos acc : ℕ) (out : Bytes)
    → All Fits is
    → length (encode_all is) ≤ fuel
    → run_loop fuel pos acc out (encode_all is) ≡ exec acc out is
unfolding encode_all exec
run_loop-encode_all [] fuel pos acc out h hf = unfold run_loop in refl
run_loop-encode_all (i ∷ is) zero pos acc out h hf =
    absurd (omega (arith, length-encode i (encode_all is)))
run_loop-encode_all (say text ∷ is) (suc fuel) pos acc out h hf =
    round-say fuel pos acc out (encode_all is) text h.0
    ∙ run_loop-encode_all is fuel (pos + 5 + length text) acc (out ++ (text ++ 10 ∷ [])) h.1
        (omega (arith, length-encode (say text) (encode_all is)))
run_loop-encode_all (load v ∷ is) (suc fuel) pos acc out h hf =
    round-load fuel pos acc out (encode_all is) v
    ∙ run_loop-encode_all is fuel (pos + 2) v out h.1
        (omega (arith, length-encode (load v) (encode_all is)))
run_loop-encode_all (store a ∷ is) (suc fuel) pos acc out h hf =
    round-store fuel pos acc out (encode_all is) a
    ∙ run_loop-encode_all is fuel (pos + 2) acc (out ++ store_text a acc) h.1
        (omega (arith, length-encode (store a) (encode_all is)))
run_loop-encode_all (halt ∷ is) (suc fuel) pos acc out h hf =
    round-halt fuel pos acc out (encode_all is)

long_enough : (n : ℕ) → ltb (suc (suc (suc (suc n)))) 4 ≡ false
long_enough n = ground arith

run_bytecode-magic :
    (bytes : Bytes)
    → run_bytecode (magic_bytes ++ bytes) ≡ run_loop (length (magic_bytes ++ bytes)) 4 0 [] bytes
unfolding run_bytecode
run_bytecode-magic bytes = rw (long_enough (length bytes), if◌then◌else◌)

-- A file of the magic bytes and of encoded instructions runs as the instructions do, if the text of
-- every SAY is shorter than 4 GiB.
pub run_bytecode-encode_all :
    (is : List Instr) → All Fits is → run_bytecode (magic_bytes ++ encode_all is) ≡ exec 0 [] is
run_bytecode-encode_all is h =
    run_bytecode-magic (encode_all is) ∙ run_loop-encode_all is _ 4 0 [] h (omega arith)
