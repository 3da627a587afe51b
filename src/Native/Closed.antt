-- ===== src/Native/Closed.antt =====
-- The whole payload of `emit_native_payload`: closed blocks, the exit, the texts.
use optimized_nan_lang.Base.{
  length, length-append, Bytes, ℕ, refl, List, [], append_assoc, arith, ◌+◌, ◌*◌, ◌<◌, ◌≡◌, ◌∙◌,
  ◌∷◌, ◌++◌,
}
use optimized_nan_lang.Native.{
  Payload, close_payload, emit_native_payload, emit_writes, empty_payload,
}
use optimized_nan_lang.Native.Layout.{
  open_blocks, flat, disp_places, rodata_places, length-block, exit_code, emit_writes_lem,
  emit_exit_lem,
}
use optimized_nan_lang.Native.Patch.{disp_at, closed_blocks, patch_all_lem}

pub length-open_blocks : (texts : List Bytes) → length (open_blocks texts) ≡ 30 * length texts
length-open_blocks [] = refl
length-open_blocks (text ∷ texts) =
    rw length-append (omega (arith, length-block 0 text, length-open_blocks texts))

pub length-closed_blocks :
    (size k r : ℕ) (texts : List Bytes) → length (closed_blocks size k r texts) ≡ 30 * length texts
length-closed_blocks size k r [] = refl
length-closed_blocks size k r (text ∷ texts) = rw length-append (
    omega (
      arith,
      length-block (disp_at size k r) text,
      length-closed_blocks size (k + 30) (r + length text) texts,
    ))

abbrev pub text_size : List Bytes → ℕ
text_size texts = 30 * length texts + 12

close_payload_lem :
    (texts : List Bytes) (p : Payload)
    → p.code ≡ open_blocks texts
    → p.rodata ≡ flat texts
    → p.disp_patch_offsets ≡ disp_places 0 texts
    → p.rodata_offsets ≡ rodata_places 0 texts
    → close_payload p ≡ closed_blocks (text_size texts) 0 0 texts ++ (exit_code ++ flat texts)
unfolding close_payload
close_payload_lem texts p c r d o =
    rw
      (c, r, d, o, emit_exit_lem, size, patch_all_lem (text_size texts) texts [] exit_code 0 0 refl)
      (append_assoc (closed_blocks (text_size texts) 0 0 texts) exit_code (flat texts))
  where
    size : length (open_blocks texts ++ exit_code) ≡ text_size texts
    size = rw length-append (omega (arith, length-open_blocks texts))

-- The payload: a closed block for each text, the exit, and the texts.
pub emit_native_payload_lem :
    (texts : List Bytes)
    → emit_native_payload texts
      ≡ closed_blocks (text_size texts) 0 0 texts ++ (exit_code ++ flat texts)
emit_native_payload_lem texts =
    let (c, r, d, o) = emit_writes_lem texts empty_payload in
    opened ∙ close_payload_lem texts (emit_writes empty_payload texts) c r d o
  where
    opened : emit_native_payload texts ≡ close_payload (emit_writes empty_payload texts)
    opened = unfold emit_native_payload in refl

pub payload_pos : (texts : List Bytes) → 0 < length (emit_native_payload texts)
payload_pos texts = rw (emit_native_payload_lem texts, length-append) (omega arith)
