-- ===== src/Aot/Tests.antt =====
-- Concrete programs of the ahead-of-time compiler.
use optimized_nan_lang.Base.{
  length, get_or, set, All, Bytes, codes, ℕ, refl, true, false, not, Option, none, some, List, [],
  arith, ◌^◌, ◌<◌, ◌≡◌, ◌≢◌, ◌⊎◌, ◌&&◌, ◌∷◌, ◌++◌, ◌==◌,
}
use optimized_nan_lang.X86.{run, exited}
use optimized_nan_lang.Native.Run.{boot}
use optimized_nan_lang.Elf.{push_u64}
use optimized_nan_lang.Elf.Load.{execute}
use optimized_nan_lang.Aot.Generate.{generate, generate_blocks}
use optimized_nan_lang.Aot.Layout.{Simple, prints, halts}
use optimized_nan_lang.Aot.Run.{said, rounds}
use optimized_nan_lang.Aot.Correct.{main_func, run-generate}
use optimized_nan_lang.Aot.Parse.{compile_to_native, parse}
use optimized_nan_lang.Aot.Program.{execute-compile_to_native}
use optimized_nan_lang.Aot.Registers.{new_allocator, allocate, spill, find, erase, allocate_cases}
use optimized_nan_lang.Aot.Say.{IsPlain, say_line, execute-say_lines}

abbrev stops_early : List Simple
stops_early = prints (codes "Hi") ∷ halts ∷ prints (codes "there") ∷ []

stops_early-size : length (generate (main_func stops_early ∷ [])) ≡ 108
unfolding generate generate_blocks
stops_early-size = refl

run-generate_example :
    run (generate (main_func stops_early ∷ [])) 0x400078 8 (boot (λ k. k)) ≡ exited 0 (codes "Hi")
run-generate_example =
    run-generate stops_early 0x400078 (λ k. k) tt (omega (arith, stops_early-size))
      (omega (arith, stops_early-size))

-- The file of a source without a halt, and its size.
abbrev the_file : Option Bytes → Bytes
the_file none = []
the_file (some file) = file

abbrev greeting : List Bytes
greeting = say_line (codes "Hi") ∷ say_line (codes "you") ∷ []

abbrev greeting_file : Bytes
greeting_file = the_file (compile_to_native [] false greeting true)

greeting-compiled : compile_to_native [] false greeting true ≡ some greeting_file
unfolding compile_to_native
greeting-compiled = refl

greeting-size : length greeting_file < 2 ^ 31
unfolding compile_to_native push_u64 generate_blocks
greeting-size = omega arith

IsPlain-of : (c : ℕ) → (not (c == 0x22) && not (c == 0x5c) && not (c == 0x3d)) ≡ true → IsPlain c
IsPlain-of c h = ground arith

greeting-IsPlain : All (All IsPlain) (codes "Hi" ∷ codes "you" ∷ [])
greeting-IsPlain = (
  (IsPlain-of 72 refl, (IsPlain-of 105 refl, tt)),
  ((IsPlain-of 121 refl, (IsPlain-of 111 refl, (IsPlain-of 117 refl, tt))), tt),
)

execute-say_lines_example :
    execute greeting_file 13 (λ k. k) ≡ some (exited 0 (codes "Hi" ++ 10 ∷ codes "you" ++ 10 ∷ []))
execute-say_lines_example =
    execute-say_lines [] false (codes "Hi") (codes "you" ∷ []) (λ k. k) {file = greeting_file}
      greeting-IsPlain greeting-compiled greeting-size

execute-compile_to_native_example :
    (is : List Simple) × (parse [] false greeting ≡ some (main_func is ∷ []))
    × (execute greeting_file (rounds is) (λ k. k) ≡ some (exited 0 (said is)))
execute-compile_to_native_example =
    execute-compile_to_native [] false greeting (λ k. k) {file = greeting_file} greeting-compiled
      greeting-size

-- The sixteen registers are free but for two.
allocate_cases_example :
    ((r : ℕ) × (allocate (codes "x") new_allocator ≡ (
      r,
      record new_allocator {
        reg_used = set new_allocator.reg_used r true;
        var_to_reg = (codes "x", r) ∷ erase (codes "x") new_allocator.var_to_reg;
      },
    ))
      × (get_or new_allocator.reg_used r true ≡ false)
      × (r ≢ 4)
      × (r ≢ 5)
      × (find (codes "x") (allocate (codes "x") new_allocator).1.var_to_reg ≡ some r))
    ⊎ (((r : ℕ) → r ≢ 4 → r ≢ 5 → get_or new_allocator.reg_used r true ≡ true)
        × (allocate (codes "x") new_allocator ≡ (0, spill (codes "x") new_allocator)))
allocate_cases_example = allocate_cases (codes "x") new_allocator
