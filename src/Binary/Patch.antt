-- ===== src/Binary/Patch.antt =====
-- BinaryPatcher, `write_minimal_elf` and `embed_resources` of include/nan_binary.h. The patcher's
-- image is its state; reading and writing files is left out.
use optimized_nan_lang.Base.{
  ltb, lt→ltb, length, take, drop, replicate, length-append, drop-length_append, take-length_append,
  Bytes, ℕ, zero, suc, refl, sym, ap, Bool, true, false, Option, none, some, List, [], append_assoc,
  arith, ◌+◌, ◌-◌, ◌%◌, ◌^◌, ◌≤◌, ◌<◌, ◌≡◌, ◌∙◌, ◌∷◌, ◌++◌, if◌then◌else◌,
}
use optimized_nan_lang.Text.{after_prefix}
use optimized_nan_lang.Words.{le16, le32, le64}

-- `memcpy` to the offset.
unfoldable pub overwrite : Bytes → ℕ → Bytes → Bytes
overwrite image offset bytes = take offset image ++ (bytes ++ drop (offset + length bytes) image)

-- The new image, and whether the patch was applied. The sum of two sizes is cut to 64 bits.
unfoldable pub patch : Bytes → ℕ → Bytes → Bytes × Bool
unfolding overwrite
patch image offset patch_bytes =
    if ltb (length image) ((offset + length patch_bytes) % 2 ^ 64)
    then (image, false)
    else (overwrite image offset patch_bytes, true)

-- The first place of `needle`, counted from `i`.
unfoldable pub find_from : ℕ → Bytes → Bytes → Option ℕ
unfolding after_prefix
find_from i needle [] = elim (after_prefix needle []) [ none ↦ none | some rest ↦ some i ]
find_from i needle (b ∷ bs) =
    let later = find_from (i + 1) needle bs in
    elim (after_prefix needle (b ∷ bs)) [ none ↦ later | some rest ↦ some i ]

unfoldable pub find_and_patch : Bytes → Bytes → Bytes → Bytes × Bool
unfolding find_from patch
find_and_patch image needle replacement = elim (find_from 0 needle image) [
  | none ↦ (image, false)
  | some i ↦ patch image i replacement
]

-- The 64 bytes of `hdr` and the 56 of `phdr`, and the code.
unfoldable pub write_minimal_elf : Bytes → ℕ → Bytes
unfolding le64
write_minimal_elf code entry_offset =
    let hdr =
      0x7f ∷ 0x45 ∷ 0x4c ∷ 0x46 ∷ 2 ∷ 1 ∷ 1 ∷ replicate 9 0
      ++ 2 ∷ 0 ∷ 0x3e ∷ 0 ∷ 1 ∷ 0 ∷ 0 ∷ 0 ∷ le64 ((0x400000 + 64 + entry_offset) % 2 ^ 64)
      ++ replicate 8 0
      ++ 64 ∷ replicate 11 0
      ++ 64 ∷ 0 ∷ 1 ∷ replicate 9 0 in
    let phdr =
      1 ∷ 0 ∷ 0 ∷ 0 ∷ 5 ∷ 0 ∷ 0 ∷ 0 ∷ le64 64
      ++ le64 (0x400000 + 64)
      ++ le64 (0x400000 + 64)
      ++ le64 (length code)
      ++ le64 (length code)
      ++ replicate 8 0 in
    hdr ++ (phdr ++ code)

pub record EmbeddedResource : Type 0 where
  pub name : Bytes
  pub content : Bytes

unfoldable pub embed_one : Bytes → EmbeddedResource → Bytes
unfolding le16 le32
embed_one binary r =
    (((binary ++ le16 (length r.name)) ++ r.name) ++ le32 (length r.content)) ++ r.content

unfoldable pub embed_each : Bytes → List EmbeddedResource → Bytes
unfolding embed_one
embed_each binary [] = binary
embed_each binary (r ∷ rs) = embed_each (embed_one binary r) rs

-- `count`, then the resources.
unfoldable pub embed_resources : Bytes → List EmbeddedResource → Bytes
unfolding embed_each le32
embed_resources binary resources = embed_each (binary ++ le32 (length resources)) resources

length-take_le : (n : ℕ) (xs : Bytes) → n ≤ length xs → length (take n xs) ≡ n
length-take_le zero xs h = refl
length-take_le (suc n) [] h = absurd (omega arith)
length-take_le (suc n) (x ∷ xs) h = ap suc (length-take_le n xs (omega arith))

length-drop_sub : (n : ℕ) (xs : Bytes) → length (drop n xs) ≡ length xs - n
length-drop_sub zero xs = omega arith
length-drop_sub (suc n) [] = omega arith
length-drop_sub (suc n) (x ∷ xs) = omega (arith, length-drop_sub n xs)

take-length_le : (a b : Bytes) (n : ℕ) → n ≡ length a → take n (a ++ b) ≡ a
take-length_le a b n e = ap (λ m. take m (a ++ b)) e ∙ take-length_append a b

drop-length_le : (a b c : Bytes) (n : ℕ) → n ≡ length a + length b → drop n (a ++ (b ++ c)) ≡ c
drop-length_le a b c n e =
    ap (λ m. drop m (a ++ (b ++ c))) (e ∙ sym (length-append a b))
    ∙ ap (drop (length (a ++ b))) (sym (append_assoc a b c))
    ∙ drop-length_append (a ++ b) c

ltb-false : (a b : ℕ) → b ≤ a → ltb a b ≡ false
ltb-false a b h = ground arith

-- A patch that lies within the image, and whose end fits 64 bits, is applied: the image keeps its
-- length, the patch stands at its offset, and what stands in front of it and behind it is as before.
pub patch_lem :
    (image : Bytes) (offset : ℕ) (bytes : Bytes)
    → offset + length bytes ≤ length image
    → length image < 2 ^ 64
    → (patch image offset bytes ≡ (overwrite image offset bytes, true))
      × (length (patch image offset bytes).0 ≡ length image)
      × (take offset (patch image offset bytes).0 ≡ take offset image)
      × (drop (offset + length bytes) (patch image offset bytes).0
          ≡ drop (offset + length bytes) image)
patch_lem image offset bytes h small = (applied, size, front, behind)
  where
    applied : patch image offset bytes ≡ (overwrite image offset bytes, true)
    applied =
        unfold patch in
        rw
          (ltb-false (length image) ((offset + length bytes) % 2 ^ 64) (omega arith), if◌then◌else◌)
          refl

    front_size : offset ≡ length (take offset image)
    front_size = sym (length-take_le offset image (omega arith))

    size : length (patch image offset bytes).0 ≡ length image
    size =
        ap (λ p. length p.0) applied
        ∙ (unfold overwrite in
            rw (length-append, length-append)
              (omega (arith, front_size, length-drop_sub (offset + length bytes) image)))

    front : take offset (patch image offset bytes).0 ≡ take offset image
    front =
        ap (λ p. take offset p.0) applied
        ∙ (unfold overwrite in
            take-length_le (take offset image) (bytes ++ drop (offset + length bytes) image) offset
              front_size)

    behind :
        drop (offset + length bytes) (patch image offset bytes).0
        ≡ drop (offset + length bytes) image
    behind =
        ap (λ p. drop (offset + length bytes) p.0) applied
        ∙ (unfold overwrite in
            drop-length_le (take offset image) bytes (drop (offset + length bytes) image)
              (offset + length bytes) (omega (arith, front_size)))

-- A patch whose end lies behind the image changes nothing, if its end fits 64 bits.
pub patch-outside :
    (image : Bytes) (offset : ℕ) (bytes : Bytes)
    → length image < offset + length bytes
    → offset + length bytes < 2 ^ 64
    → patch image offset bytes ≡ (image, false)
unfolding patch
patch-outside image offset bytes h small =
    rw (lt→ltb (length image) ((offset + length bytes) % 2 ^ 64) (omega arith), if◌then◌else◌) refl
