-- ===== src/Native/Patch.antt =====
-- What the second loop of `emit_native_payload` makes of the blocks.
use optimized_nan_lang.Base.{
  length, set, length-append, Bytes, ℕ, refl, sym, ap, List, [], append_assoc, arith, ◌+◌, ◌≡◌, ◌∙◌,
  ◌∷◌, ◌++◌,
}
use native.Mathlib.Nat.{zero-add}
use Prim.Native.Nat.add
use optimized_nan_lang.Words.{le32}
use optimized_nan_lang.Native.{patch_i32_le, patch_all, delta32}
use optimized_nan_lang.Native.Layout.{block, open_blocks, disp_places, rodata_places, length-block}

-- The displacement of the block at `k` to the text at `r` of the data behind `size` bytes of code.
abbrev pub disp_at : ℕ → ℕ → ℕ → ℕ
disp_at size k r = delta32 (size + r) (k + 17 + 4)

abbrev pub closed_blocks : ℕ → ℕ → ℕ → List Bytes → Bytes
closed_blocks size k r [] = []
closed_blocks size k r (text ∷ texts) =
    block (disp_at size k r) text ++ closed_blocks size (k + 30) (r + length text) texts

set-append : (xs ys : Bytes) (i v : ℕ) → set (xs ++ ys) (length xs + i) v ≡ xs ++ set ys i v
set-append [] ys i v = ap (λ n. set ys n v) (zero-add i)
set-append (x ∷ xs) ys i v = rw add.suc (ap (λ t. x ∷ t) (set-append xs ys i v))

-- A write past a prefix, at an offset counted from its front.
pub set_behind :
    (xs ys : Bytes) (k i v : ℕ) → k ≡ length xs + i → set (xs ++ ys) k v ≡ xs ++ set ys i v
set_behind xs ys k i v e = rw e (set-append xs ys i v)

patch_block :
    (front rest text : Bytes) (v : ℕ)
    → patch_i32_le (front ++ (block 0 text ++ rest)) (length front + 17) v
      ≡ front ++ (block v text ++ rest)
unfolding patch_i32_le le32
patch_block front rest text v = simp (
  set_behind front _ (length front + 17 + 0) 17 _ (omega arith),
  set_behind front _ (length front + 17 + 1) 18 _ (omega arith),
  set_behind front _ (length front + 17 + 2) 19 _ (omega arith),
  set_behind front _ (length front + 17 + 3) 20 _ (omega arith),
)

-- The second loop closes every block, and touches nothing else.
pub patch_all_lem :
    (size : ℕ) (texts : List Bytes) (front rest : Bytes) (k r : ℕ)
    → length front ≡ k
    → patch_all size
        (front ++ (open_blocks texts ++ rest))
        (disp_places k texts)
        (rodata_places r texts)
      ≡ front ++ (closed_blocks size k r texts ++ rest)
unfolding patch_all
patch_all_lem size [] front rest k r e = refl
patch_all_lem size (text ∷ texts) front rest k r e =
    ap
      (λ code.
        patch_all size code (disp_places (k + 30) texts) (rodata_places (r + length text) texts))
      patched
    ∙ patch_all_lem size texts (front ++ block d text) rest (k + 30) (r + length text)
        (rw length-append (omega (arith, length-block d text)))
    ∙ append_assoc front (block d text) _
    ∙ ap (λ t. front ++ t) (sym (append_assoc (block d text) _ rest))
  where
    d : ℕ
    d = disp_at size k r

    patched :
        patch_i32_le (front ++ ((block 0 text ++ open_blocks texts) ++ rest)) (k + 17) d
        ≡ (front ++ block d text) ++ (open_blocks texts ++ rest)
    patched =
        rw (append_assoc (block 0 text) (open_blocks texts) rest, ← e)
          (patch_block front (open_blocks texts ++ rest) text (disp_at size (length front) r)
            ∙ sym (
                append_assoc front (block (disp_at size (length front) r) text)
                  (open_blocks texts ++ rest)))
