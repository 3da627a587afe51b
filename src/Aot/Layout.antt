-- ===== src/Aot/Layout.antt =====
-- What `generate_basic_block` leaves of a list of PRINT and HALT instructions: 39 bytes with an open
-- displacement 23 bytes in for a PRINT, and 22 bytes for a HALT.
use optimized_nan_lang.Base.{
  length, length-append, Bytes, ℕ, refl, sym, ap, List, [], map, append-nil, append_assoc, arith,
  ◌+◌, ◌≡◌, ◌∙◌, ◌∷◌, ◌++◌,
}
use optimized_nan_lang.Words.{le32, le64}
use optimized_nan_lang.Aot.Ir.{print, halt, IrInstruction, instruction}
use optimized_nan_lang.Aot.Generate.{Gen, emit_print, emit_halt, generate_basic_block}

-- The instructions that the parser makes.
pub data Simple : Type 0 where
  prints : Bytes → Simple
  halts : Simple

abbrev pub to_instruction : Simple → IrInstruction
to_instruction (prints text) = instruction print text
to_instruction halts = instruction halt []

abbrev pub print_from : Bytes → Bytes
print_from rest =
    0x48 ∷ 0xb8 ∷ 1 ∷ 0 ∷ 0 ∷ 0 ∷ 0 ∷ 0 ∷ 0 ∷ 0 ∷ 0x48 ∷ 0xbf ∷ 1 ∷ 0 ∷ 0 ∷ 0 ∷ 0 ∷ 0 ∷ 0 ∷ 0 ∷ 0x48
    ∷ 0x8d ∷ 0x35 ∷ rest

abbrev pub print_tail : Bytes → Bytes
print_tail text = 0x48 ∷ 0xba ∷ (le64 (length text) ++ 0x0f ∷ 0x05 ∷ [])

abbrev pub print_block : ℕ → Bytes → Bytes
print_block d text = print_from (le32 d ++ print_tail text)

abbrev pub halt_block : Bytes
halt_block =
    0x48 ∷ 0xb8 ∷ 60 ∷ 0 ∷ 0 ∷ 0 ∷ 0 ∷ 0 ∷ 0 ∷ 0 ∷ 0x48 ∷ 0xbf ∷ 0 ∷ 0 ∷ 0 ∷ 0 ∷ 0 ∷ 0 ∷ 0 ∷ 0
    ∷ 0x0f ∷ 0x05 ∷ []

abbrev pub open_code : List Simple → Bytes
open_code [] = []
open_code (prints text ∷ is) = print_block 0 text ++ open_code is
open_code (halts ∷ is) = halt_block ++ open_code is

-- The displacements, for code from offset `k` on and strings from index `j` on.
abbrev pub fixup_places : ℕ → ℕ → List Simple → List (ℕ × ℕ)
fixup_places k j [] = []
fixup_places k j (prints text ∷ is) = (k + 23, j) ∷ fixup_places (k + 39) (j + 1) is
fixup_places k j (halts ∷ is) = fixup_places (k + 22) j is

abbrev pub texts : List Simple → List Bytes
texts [] = []
texts (prints text ∷ is) = text ∷ texts is
texts (halts ∷ is) = texts is

pub length-print_block : (d : ℕ) (text : Bytes) → length (print_block d text) ≡ 39
unfolding le32 le64
length-print_block d text = refl

emit_print_lem :
    (g : Gen) (text : Bytes)
    → ((emit_print g text).code ≡ g.code ++ print_block 0 text)
      × ((emit_print g text).string_pool ≡ g.string_pool ++ text ∷ [])
      × ((emit_print g text).print_fixups
          ≡ g.print_fixups ++ (length g.code + 23, length g.string_pool) ∷ [])
unfolding emit_print le32 le64
emit_print_lem g text = (
  simp append_assoc,
  refl,
  ap (λ n. g.print_fixups ++ (n, length g.string_pool) ∷ [])
      (simp (append_assoc, length-append) (omega arith)),
)

emit_halt_lem :
    (g : Gen)
    → ((emit_halt g).code ≡ g.code ++ halt_block)
      × ((emit_halt g).string_pool ≡ g.string_pool)
      × ((emit_halt g).print_fixups ≡ g.print_fixups)
unfolding emit_halt
emit_halt_lem g = (simp append_assoc, refl, refl)

-- The block from any state of the generator.
pub generate_basic_block_lem :
    (is : List Simple) (g : Gen)
    → ((generate_basic_block g (map to_instruction is)).code ≡ g.code ++ open_code is)
      × ((generate_basic_block g (map to_instruction is)).string_pool ≡ g.string_pool ++ texts is)
      × ((generate_basic_block g (map to_instruction is)).print_fixups
          ≡ g.print_fixups ++ fixup_places (length g.code) (length g.string_pool) is)
unfolding generate_basic_block
generate_basic_block_lem [] g =
    (sym (append-nil g.code), sym (append-nil g.string_pool), sym (append-nil g.print_fixups))
generate_basic_block_lem (prints text ∷ is) g =
    let (c, p, f) = emit_print_lem g text in
    let (c', p', f') = generate_basic_block_lem is (emit_print g text) in
    (
      c' ∙ rw c (append_assoc g.code (print_block 0 text) (open_code is)),
      p' ∙ rw p (append_assoc g.string_pool (text ∷ []) (texts is)),
      f'
          ∙ rw
              (
                f,
                c,
                p,
                length-append g.code (print_block 0 text),
                length-append g.string_pool (text ∷ []),
                append_assoc,
              )
              (unfold le32 le64 in refl),
    )
generate_basic_block_lem (halts ∷ is) g =
    let (c, p, f) = emit_halt_lem g in
    let (c', p', f') = generate_basic_block_lem is (emit_halt g) in
    (
      c' ∙ rw c (append_assoc g.code halt_block (open_code is)),
      p' ∙ rw p refl,
      f' ∙ rw (f, p, c, length-append g.code halt_block) refl,
    )
