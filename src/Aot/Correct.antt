-- ===== src/Aot/Correct.antt =====
-- The whole of `generate` on a main function of PRINT and HALT instructions.
use optimized_nan_lang.Base.{
  length, length-append, Bytes, codes, ℕ, refl, sym, ap, List, [], map, append_assoc, arith, ◌+◌,
  ◌^◌, ◌<◌, ◌≡◌, ◌∙◌, ◌∷◌, ◌++◌,
}
use optimized_nan_lang.X86.{exited, run}
use optimized_nan_lang.Native.Layout.{flat}
use optimized_nan_lang.Native.Run.{boot}
use optimized_nan_lang.Aot.Ir.{IrBasicBlock, IrFunction}
use optimized_nan_lang.Aot.Generate.{
  Gen, cleared, generate_basic_block, generate_blocks, generate, close_code, pool_offsets, emit_ret,
  generate_functions, generate_function,
}
use optimized_nan_lang.Aot.Layout.{
  Simple, prints, halts, to_instruction, open_code, fixup_places, texts, length-print_block,
  generate_basic_block_lem,
}
use optimized_nan_lang.Aot.Patch.{disp_at, closed_code, append_pool_lem, patch_fixups_lem}
use optimized_nan_lang.Aot.Run.{said, HasHalt, rounds, code_size, run_code}

-- `entry_block` and `main_func` of NanCompiler::compile_to_native.
abbrev pub entry_block : List Simple → IrBasicBlock
entry_block is = record { label = codes "entry"; instructions = map to_instruction is }

abbrev pub main_func : List Simple → IrFunction
main_func is = record { name = codes "main"; blocks = entry_block is ∷ []; stack_size = 0 }

length-open_code : (is : List Simple) → length (open_code is) ≡ code_size is
length-open_code [] = refl
length-open_code (prints text ∷ is) =
    rw length-append (omega (arith, length-print_block 0 text, length-open_code is))
length-open_code (halts ∷ is) = omega (arith, length-open_code is)

length-closed_code :
    (size k r : ℕ) (is : List Simple) → length (closed_code size k r is) ≡ code_size is
length-closed_code size k r [] = refl
length-closed_code size k r (prints text ∷ is) = rw length-append (
    omega (
      arith,
      length-print_block (disp_at size k r) text,
      length-closed_code size (k + 39) (r + length text) is,
    ))
length-closed_code size k r (halts ∷ is) = omega (arith, length-closed_code size (k + 22) r is)

close_code_lem :
    (is : List Simple) (g : Gen)
    → g.code ≡ open_code is ++ 0xc3 ∷ []
    → g.string_pool ≡ texts is
    → g.print_fixups ≡ fixup_places 0 0 is
    → close_code g ≡ closed_code (code_size is + 1) 0 0 is ++ (0xc3 ∷ flat (texts is))
unfolding close_code
close_code_lem is g c p f =
    rw
      (
        append_pool_lem,
        c,
        p,
        f,
        size,
        patch_fixups_lem (code_size is + 1) is [] (0xc3 ∷ []) [] (pool_offsets 0 (texts is)) 0 0
            refl refl refl,
      )
      (append_assoc (closed_code (code_size is + 1) 0 0 is) (0xc3 ∷ []) (flat (texts is)))
  where
    size : length (open_code is ++ 0xc3 ∷ []) ≡ code_size is + 1
    size = rw length-append (omega (arith, length-open_code is))

generated : List Simple → Gen
generated is =
    let g =
      generate_basic_block (record cleared { label_positions = (codes "entry", 0) ∷ [] })
        (map to_instruction is) in
    record g { code = emit_ret g.code }

pub generate_lem :
    (is : List Simple)
    → generate (main_func is ∷ [])
      ≡ closed_code (code_size is + 1) 0 0 is ++ (0xc3 ∷ flat (texts is))
unfolding generated emit_ret generate_basic_block
generate_lem is =
    let (c, p, f) =
      generate_basic_block_lem is (record cleared { label_positions = (codes "entry", 0) ∷ [] }) in
    opened ∙ close_code_lem is (generated is) (ap (λ t. t ++ 0xc3 ∷ []) c) p f
  where
    opened : generate (main_func is ∷ []) ≡ close_code (generated is)
    opened = unfold generate generate_functions generate_function generate_blocks in refl

-- The code generated for a program that halts, loaded anywhere and entered with any registers, writes
-- exactly the texts in front of the first HALT to stdout and exits with status 0, if it is shorter than
-- 2 GiB and its addresses fit 64 bits.
pub run-generate :
    (is : List Simple) (base : ℕ) (regs : ℕ → ℕ)
    → HasHalt is
    → length (generate (main_func is ∷ [])) < 2 ^ 31
    → base + length (generate (main_func is ∷ [])) < 2 ^ 64
    → run (generate (main_func is ∷ [])) base (rounds is) (boot regs) ≡ exited 0 (said is)
run-generate is base regs stops small placed =
    run_code image code (flat (texts is)) base split small placed is 0 [] (0xc3 ∷ flat (texts is))
      (boot regs) stops refl (omega (arith, size)) refl begins
  where
    image : Bytes
    image = generate (main_func is ∷ [])

    code : Bytes
    code = closed_code (code_size is + 1) 0 0 is ++ 0xc3 ∷ []

    size : length code ≡ code_size is + 1
    size = rw length-append (omega (arith, length-closed_code (code_size is + 1) 0 0 is))

    split : image ≡ code ++ flat (texts is)
    split = generate_lem is ∙ sym (append_assoc _ (0xc3 ∷ []) (flat (texts is)))

    begins : image ≡ closed_code (length code) 0 0 is ++ (0xc3 ∷ flat (texts is))
    begins = generate_lem is ∙ ap (λ s. closed_code s 0 0 is ++ (0xc3 ∷ flat (texts is))) (sym size)
