-- ===== src/Native/Layout.antt =====
-- What the first loop of `emit_native_payload` leaves: a block of 30 bytes for each text, with an
-- open displacement 17 bytes in.
use optimized_nan_lang.Base.{
  length, length-append, Bytes, ℕ, refl, sym, ap, List, [], append-nil, append_assoc, arith, ◌+◌,
  ◌%◌, ◌^◌, ◌≡◌, ◌∙◌, ◌∷◌, ◌++◌,
}
use optimized_nan_lang.Words.{le32, append_u32_le}
use optimized_nan_lang.Native.{Payload, emit_write, emit_writes, emit_exit}

-- write(1, rip + d, length text)
abbrev pub block_tail : Bytes → Bytes
block_tail text = 0x48 ∷ 0xc7 ∷ 0xc2 ∷ (le32 (length text % 2 ^ 32) ++ 0x0f ∷ 0x05 ∷ [])

abbrev pub block_from : Bytes → Bytes
block_from rest =
    0x48 ∷ 0xc7 ∷ 0xc0 ∷ 1 ∷ 0 ∷ 0 ∷ 0 ∷ 0x48 ∷ 0xc7 ∷ 0xc7 ∷ 1 ∷ 0 ∷ 0 ∷ 0 ∷ 0x48 ∷ 0x8d ∷ 0x35
    ∷ rest

abbrev pub block : ℕ → Bytes → Bytes
block d text = block_from (le32 d ++ block_tail text)

abbrev pub open_blocks : List Bytes → Bytes
open_blocks [] = []
open_blocks (text ∷ texts) = block 0 text ++ open_blocks texts

abbrev pub flat : List Bytes → Bytes
flat [] = []
flat (text ∷ texts) = text ++ flat texts

-- The places of the displacements, for blocks from offset `k` on.
abbrev pub disp_places : ℕ → List Bytes → List ℕ
disp_places k [] = []
disp_places k (text ∷ texts) = (k + 17) ∷ disp_places (k + 30) texts

abbrev pub rodata_places : ℕ → List Bytes → List ℕ
rodata_places r [] = []
rodata_places r (text ∷ texts) = r ∷ rodata_places (r + length text) texts

emit_write_lem :
    (p : Payload) (text : Bytes)
    → ((emit_write p text).code ≡ p.code ++ block 0 text)
      × ((emit_write p text).rodata ≡ p.rodata ++ text)
      × ((emit_write p text).disp_patch_offsets ≡ p.disp_patch_offsets ++ (length p.code + 17) ∷ [])
      × ((emit_write p text).rodata_offsets ≡ p.rodata_offsets ++ length p.rodata ∷ [])
unfolding emit_write append_u32_le le32
emit_write_lem p text = (
  simp append_assoc,
  refl,
  ap (λ n. p.disp_patch_offsets ++ n ∷ []) (simp (append_assoc, length-append) (omega arith)),
  refl,
)

-- The first loop from any payload.
pub emit_writes_lem :
    (texts : List Bytes) (p : Payload)
    → ((emit_writes p texts).code ≡ p.code ++ open_blocks texts)
      × ((emit_writes p texts).rodata ≡ p.rodata ++ flat texts)
      × ((emit_writes p texts).disp_patch_offsets
          ≡ p.disp_patch_offsets ++ disp_places (length p.code) texts)
      × ((emit_writes p texts).rodata_offsets
          ≡ p.rodata_offsets ++ rodata_places (length p.rodata) texts)
unfolding emit_writes
emit_writes_lem [] p = (
  sym (append-nil p.code),
  sym (append-nil p.rodata),
  sym (append-nil p.disp_patch_offsets),
  sym (append-nil p.rodata_offsets),
)
emit_writes_lem (text ∷ texts) p =
    let (c, r, d, o) = emit_write_lem p text in
    let (c', r', d', o') = emit_writes_lem texts (emit_write p text) in
    (
      c' ∙ rw c (append_assoc p.code (block 0 text) (open_blocks texts)),
      r' ∙ rw r (append_assoc p.rodata text (flat texts)),
      d'
          ∙ rw (d, c, length-append, append_assoc)
              (ap (λ n. p.disp_patch_offsets ++ (length p.code + 17) ∷ disp_places n texts)
                (unfold le32 in refl)),
      o' ∙ rw (o, r, length-append, append_assoc) refl,
    )

pub length-block : (d : ℕ) (text : Bytes) → length (block d text) ≡ 30
unfolding le32
length-block d text = refl

abbrev pub exit_code : Bytes
exit_code = 0x48 ∷ 0xc7 ∷ 0xc0 ∷ 60 ∷ 0 ∷ 0 ∷ 0 ∷ 0x48 ∷ 0x31 ∷ 0xff ∷ 0x0f ∷ 0x05 ∷ []

pub emit_exit_lem : (code : Bytes) → emit_exit code ≡ code ++ exit_code
unfolding emit_exit append_u32_le
emit_exit_lem code = simp append_assoc
