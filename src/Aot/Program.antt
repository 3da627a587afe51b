-- ===== src/Aot/Program.antt =====
-- Source to executable: what the programs that `compile_to_native` makes do.
use optimized_nan_lang.Base.{
  length, length-append, Bytes, ℕ, refl, sym, ap, Bool, true, false, some, List, [], arith, ◌+◌,
  ◌^◌, ◌<◌, ◌≡◌, ◌∙◌, ◌≢◌, ◌∷◌,
}
use mathlib.Core.Path.{subst}
use mathlib.Core.Option.{some-injective}
use optimized_nan_lang.X86.{exited}
use optimized_nan_lang.Elf.{build_elf_image, build_elf_executable}
use optimized_nan_lang.Elf.Load.{execute, load-build_elf_image, length-build_elf_image}
use optimized_nan_lang.Elf.Same.{build_elf_executable-eq}
use optimized_nan_lang.Aot.Ir.{IrFunction}
use optimized_nan_lang.Aot.Generate.{generate}
use optimized_nan_lang.Aot.Layout.{Simple}
use optimized_nan_lang.Aot.Run.{said, HasHalt, rounds}
use optimized_nan_lang.Aot.Correct.{main_func, generate_lem, run-generate}
use optimized_nan_lang.Aot.Parse.{map_option, Parsing, parse, parse_lines, compile_to_native}
use optimized_nan_lang.Aot.Parsed.{Parsed, parse_lines-Parsed, close_main-main_func}

-- Every source file that is not empty is compiled to a main function that halts.
parse-main_func :
    (match_val : Bytes) (resolved : Bool) (l : Bytes) (ls : List Bytes)
    → (is : List Simple) × (parse match_val resolved (l ∷ ls) ≡ some (main_func is ∷ []))
      × HasHalt is
parse-main_func match_val resolved l ls =
    let (is, e, h) =
      close_main-main_func (parse_lines fresh (l ∷ ls))
        (parse_lines-Parsed fresh (l ∷ ls) (unfold Parsed in ([], refl, λ e. ground arith))) in
    (is, (unfold parse in ap some e), h)
  where
    fresh : Parsing
    fresh = record {
      instructions = [];
      current_match_val = match_val;
      match_resolved = resolved;
      has_halt = false;
    }

generate-pos : (is : List Simple) → 0 < length (generate (main_func is ∷ []))
generate-pos is = rw (generate_lem is, length-append) (omega arith)

execute-generate :
    (is : List Simple) (regs : ℕ → ℕ)
    → HasHalt is
    → length (build_elf_image (generate (main_func is ∷ []))) < 2 ^ 31
    → execute (build_elf_image (generate (main_func is ∷ []))) (rounds is) regs
      ≡ some (exited 0 (said is))
execute-generate is regs h small =
    rw
      (
        load-build_elf_image (generate (main_func is ∷ [])) (generate-pos is) (omega (arith, room)),
        execute,
      )
      (ap some (run-generate is 0x400078 regs h (omega (arith, room)) (omega (arith, room))))
  where
    room : 120 + length (generate (main_func is ∷ [])) < 2 ^ 31
    room = subst (λ n. n < 2 ^ 31) (length-build_elf_image (generate (main_func is ∷ []))) small

-- The same for a file that the compiler made.
pub execute-parsed :
    (match_val : Bytes) (resolved : Bool) (lines : List Bytes) (is : List Simple) (regs : ℕ → ℕ)
    {file : Bytes}
    → parse match_val resolved lines ≡ some (main_func is ∷ [])
    → HasHalt is
    → compile_to_native match_val resolved lines true ≡ some file
    → length file < 2 ^ 31
    → execute file (rounds is) regs ≡ some (exited 0 (said is))
execute-parsed match_val resolved lines is regs {file} parsed h e small =
    subst (λ f. execute f (rounds is) regs ≡ some (exited 0 (said is))) image
      (execute-generate is regs h (subst (λ f. length f < 2 ^ 31) (sym image) small))
  where
    made :
        compile_to_native match_val resolved lines true
        ≡ some (build_elf_image (generate (main_func is ∷ [])))
    made =
        unfold compile_to_native in
        ap (map_option (λ (fs : List IrFunction). build_elf_executable (generate fs))) parsed
        ∙ ap some (build_elf_executable-eq (generate (main_func is ∷ [])))

    image : build_elf_image (generate (main_func is ∷ [])) ≡ file
    image = some-injective _ _ (sym made ∙ e)

-- The executable made of a source file is the one of the parsed instructions `is`. Entered with any
-- registers, it writes their texts up to the first HALT to stdout and exits with status 0, if it is
-- shorter than 2 GiB.
pub execute-compile_to_native :
    (match_val : Bytes) (resolved : Bool) (lines : List Bytes) (regs : ℕ → ℕ) {file : Bytes}
    → compile_to_native match_val resolved lines true ≡ some file
    → length file < 2 ^ 31
    → (is : List Simple) × (parse match_val resolved lines ≡ some (main_func is ∷ []))
      × (execute file (rounds is) regs ≡ some (exited 0 (said is)))
execute-compile_to_native match_val resolved [] regs {file} e small = absurd (empty e)
  where
    empty : compile_to_native match_val resolved [] true ≢ some file
    empty = unfold compile_to_native parse in (λ e. cc)
execute-compile_to_native match_val resolved (l ∷ ls) regs {file} e small =
    let (is, parsed, h) = parse-main_func match_val resolved l ls in
    (is, parsed, execute-parsed match_val resolved (l ∷ ls) is regs parsed h e small)
