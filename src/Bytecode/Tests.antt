-- ===== src/Bytecode/Tests.antt =====
-- Concrete programs of the bytecode compiler and machine.
use optimized_nan_lang.Base.{
  length, All, Bytes, codes, refl, true, false, some, List, [], map, arith, ◌^◌, ◌<◌, ◌≡◌, ◌≢◌, ◌↔◌,
  ◌∷◌, ◌++◌,
}
use optimized_nan_lang.Words.{append_u32_le}
use optimized_nan_lang.Bytecode.{Instr, say, load, store, encode_all}
use optimized_nan_lang.Bytecode.Source.{read_statement}
use optimized_nan_lang.Bytecode.Compile.{Compile, compile_source, ok, err, malformed_say}
use optimized_nan_lang.Bytecode.Correct.{run_bytecode-compile_source, emitted_ops-compile_source}
use optimized_nan_lang.Bytecode.Encoding.{exec, run_bytecode-encode_all}
use optimized_nan_lang.Bytecode.Errors.{compile_source-err_iff, first_fault, run_bytecode-ne-stuck}
use optimized_nan_lang.Bytecode.Meaning.{printed}
use optimized_nan_lang.Bytecode.Run.{run_bytecode, halted, stuck}

abbrev demo : List Bytes
demo =
    codes "fn main() {"
    ∷ codes "say \"a//b\\n\" // c"
    ∷ codes "pulse _>_"
    ∷ codes "halt"
    ∷ codes "}"
    ∷ []

abbrev demo_output : Compile
demo_output = record {
  bytecode = codes "NAN3" ++ 2 ∷ 5 ∷ 0 ∷ 0 ∷ 0 ∷ 97 ∷ 47 ∷ 47 ∷ 98 ∷ 10 ∷ 3 ∷ 16 ∷ 4 ∷ 16 ∷ 1 ∷ [];
  emitted_ops = 4;
  warnings = [];
  has_halt = true;
  warned_if = false;
  warned_loop = false;
  warned_return = false;
}

demo-compiled : compile_source demo ≡ ok demo_output
unfolding compile_source append_u32_le
demo-compiled = refl

demo-short : All (λ (l : Bytes). length l < 2 ^ 32) demo
demo-short = (omega arith, (omega arith, (omega arith, (omega arith, (omega arith, tt)))))

run_bytecode-compile_source_example :
    run_bytecode demo_output.bytecode ≡ halted (printed (map read_statement demo))
run_bytecode-compile_source_example =
    run_bytecode-compile_source demo {c = demo_output} demo-short demo-compiled

-- What that run prints.
demo-prints :
    run_bytecode demo_output.bytecode
    ≡ halted (97 ∷ 47 ∷ 47 ∷ 98 ∷ 10 ∷ 10 ∷ codes "[pulse] FALLING" ++ 10 ∷ [])
unfolding run_bytecode
demo-prints = refl

emitted_ops-compile_source_example :
    (is : List Instr) × (demo_output.bytecode ≡ codes "NAN3" ++ encode_all is)
    × (demo_output.emitted_ops ≡ length is)
emitted_ops-compile_source_example =
    emitted_ops-compile_source demo {c = demo_output} demo-short demo-compiled

run_bytecode-encode_all_example :
    run_bytecode (codes "NAN3" ++ encode_all (load 3 ∷ store 0x40 ∷ say (codes "x") ∷ []))
    ≡ exec 0 [] (load 3 ∷ store 0x40 ∷ say (codes "x") ∷ [])
run_bytecode-encode_all_example =
    run_bytecode-encode_all (load 3 ∷ store 0x40 ∷ say (codes "x") ∷ [])
      (tt, (tt, (omega arith, tt)))

compile_source-err_iff_example :
    (compile_source (codes "say x" ∷ []) ≡ err (malformed_say 1))
    ↔ (first_fault 1 (map read_statement (codes "say x" ∷ [])) ≡ some (malformed_say 1))
compile_source-err_iff_example = compile_source-err_iff (codes "say x" ∷ []) (malformed_say 1)

run_bytecode-ne-stuck_example : run_bytecode (codes "NAN3" ++ 2 ∷ 9 ∷ []) ≢ stuck
run_bytecode-ne-stuck_example = run_bytecode-ne-stuck (codes "NAN3" ++ 2 ∷ 9 ∷ [])
