-- ===== src/Aot/Patch.antt =====
-- What the patch loop of `generate` makes of the code.
use optimized_nan_lang.Base.{
  length, get_or, length-append, Bytes, ℕ, refl, sym, ap, List, [], append-nil, append_assoc, arith,
  ◌+◌, ◌-◌, ◌%◌, ◌^◌, ◌≡◌, ◌∙◌, ◌∷◌, ◌++◌,
}
use optimized_nan_lang.Words.{le32}
use optimized_nan_lang.Native.Layout.{flat}
use optimized_nan_lang.Native.Patch.{set_behind}
use optimized_nan_lang.Aot.Generate.{pool_offsets, patch_disp, patch_fixups, append_pool}
use optimized_nan_lang.Aot.Layout.{
  Simple, prints, halts, print_block, halt_block, open_code, fixup_places, texts,
  length-print_block,
}

-- The displacement at `k` to the string at `r` of the pool behind `size` bytes of code.
abbrev pub disp_at : ℕ → ℕ → ℕ → ℕ
disp_at size k r = (2 ^ 64 + (size + r) - (k + 23 + 4)) % 2 ^ 32

abbrev pub closed_code : ℕ → ℕ → ℕ → List Simple → Bytes
closed_code size k r [] = []
closed_code size k r (prints text ∷ is) =
    print_block (disp_at size k r) text ++ closed_code size (k + 39) (r + length text) is
closed_code size k r (halts ∷ is) = halt_block ++ closed_code size (k + 22) r is

-- The offset of a string behind others is their length.
pool_offsets-get :
    (front : List Bytes) (s : Bytes) (back : List Bytes) (r : ℕ)
    → get_or (pool_offsets r (front ++ s ∷ back)) (length front) 0 ≡ r + length (flat front)
unfolding pool_offsets
pool_offsets-get [] s back r = omega arith
pool_offsets-get (x ∷ front) s back r =
    pool_offsets-get front s back (r + length x) ∙ rw length-append (omega arith)

flat-append : (xs ys : List Bytes) → flat (xs ++ ys) ≡ flat xs ++ flat ys
flat-append [] ys = refl
flat-append (x ∷ xs) ys = rw (flat-append xs ys) (sym (append_assoc x (flat xs) (flat ys)))

patch_print :
    (front rest text : Bytes) (size r : ℕ)
    → patch_disp (front ++ (print_block 0 text ++ rest)) (length front + 23) (size + r)
      ≡ front ++ (print_block (disp_at size (length front) r) text ++ rest)
unfolding patch_disp le32
patch_print front rest text size r = simp (
  set_behind front _ (length front + 23 + 0) 23 _ (omega arith),
  set_behind front _ (length front + 23 + 1) 24 _ (omega arith),
  set_behind front _ (length front + 23 + 2) 25 _ (omega arith),
  set_behind front _ (length front + 23 + 3) 26 _ (omega arith),
)

pub append_pool_lem : (code : Bytes) (pool : List Bytes) → append_pool code pool ≡ code ++ flat pool
unfolding append_pool
append_pool_lem code [] = sym (append-nil code)
append_pool_lem code (s ∷ ss) = append_pool_lem (code ++ s) ss ∙ append_assoc code s (flat ss)

regroup : (a b c d : Bytes) → a ++ ((b ++ c) ++ d) ≡ (a ++ b) ++ (c ++ d)
regroup a b c d = rw (append_assoc b c d) (sym (append_assoc a b (c ++ d)))

-- The loop closes every PRINT of the code behind `front`, whose strings stand behind `before` in the
-- pool, and touches nothing else.
pub patch_fixups_lem :
    (size : ℕ) (is : List Simple) (front rest : Bytes) (before : List Bytes) (offsets : List ℕ)
    (k r : ℕ)
    → length front ≡ k
    → length (flat before) ≡ r
    → offsets ≡ pool_offsets 0 (before ++ texts is)
    → patch_fixups size offsets
        (front ++ (open_code is ++ rest))
        (fixup_places k (length before) is)
      ≡ front ++ (closed_code size k r is ++ rest)
patch_fixups_lem size [] front rest before offsets k r ek er eo = unfold patch_fixups in refl
patch_fixups_lem size (halts ∷ is) front rest before offsets k r ek er eo =
    ap (λ code. patch_fixups size offsets code (fixup_places (k + 22) (length before) is))
      (regroup front halt_block (open_code is) rest)
    ∙ patch_fixups_lem size is (front ++ halt_block) rest before offsets (k + 22) r
        (rw (length-append, ek) refl) er eo
    ∙ sym (regroup front halt_block (closed_code size (k + 22) r is) rest)
patch_fixups_lem size (prints text ∷ is) front rest before offsets k r ek er eo =
    stepped
    ∙ patched
    ∙ ap
        (λ n.
          patch_fixups size offsets ((front ++ print_block d text) ++ (open_code is ++ rest))
            (fixup_places (k + 39) n is))
        one_more
    ∙ patch_fixups_lem size is (front ++ print_block d text) rest (before ++ text ∷ []) offsets
        (k + 39) (r + length text) (rw length-append (omega (arith, length-print_block d text)))
        longer (eo ∙ ap (pool_offsets 0) (sym (append_assoc before (text ∷ []) (texts is))))
    ∙ sym (regroup front (print_block d text) (closed_code size (k + 39) (r + length text) is) rest)
  where
    d : ℕ
    d = disp_at size k r

    offset : get_or offsets (length before) 0 ≡ r
    offset = rw eo (pool_offsets-get before text (texts is) 0 ∙ omega (arith, er))

    one_more : length before + 1 ≡ length (before ++ text ∷ [])
    one_more = sym (length-append before (text ∷ []))

    longer : length (flat (before ++ text ∷ [])) ≡ r + length text
    longer = rw flat-append (rw length-append (rw append-nil (ap (λ n. n + length text) er)))

    at_front :
        (k' : ℕ)
        → length front ≡ k'
        → patch_disp (front ++ ((print_block 0 text ++ open_code is) ++ rest)) (k' + 23) (size + r)
          ≡ (front ++ print_block (disp_at size k' r) text) ++ (open_code is ++ rest)
    at_front k' e =
        rw (append_assoc (print_block 0 text) (open_code is) rest, ← e)
          (patch_print front (open_code is ++ rest) text size r
            ∙ sym (
                append_assoc front (print_block (disp_at size (length front) r) text)
                  (open_code is ++ rest)))

    stepped :
        patch_fixups size offsets
          (front ++ (open_code (prints text ∷ is) ++ rest))
          (fixup_places k (length before) (prints text ∷ is))
        ≡ patch_fixups size offsets
            (patch_disp
              (front ++ ((print_block 0 text ++ open_code is) ++ rest))
              (k + 23)
              (size + get_or offsets (length before) 0))
            (fixup_places (k + 39) (length before + 1) is)
    stepped = unfold patch_fixups in refl

    patched :
        patch_fixups size offsets
          (patch_disp
            (front ++ ((print_block 0 text ++ open_code is) ++ rest))
            (k + 23)
            (size + get_or offsets (length before) 0))
          (fixup_places (k + 39) (length before + 1) is)
        ≡ patch_fixups size offsets
            ((front ++ print_block d text) ++ (open_code is ++ rest))
            (fixup_places (k + 39) (length before + 1) is)
    patched = rw offset (
        ap (λ code. patch_fixups size offsets code (fixup_places (k + 39) (length before + 1) is))
          (at_front k ek))
