-- ===== src/Binary/Passes.antt =====
-- BranchResolver, ConstantFolder, NanLinker and SizeMinimizer of include/nan_compiler.h.
use optimized_nan_lang.Base.{
  ltb, leb, Bool-cases, length, set, length-append, length-set, Bytes, ℕ, min, bit_and, bit_or,
  bit_xor, refl, inl, inr, Bool, true, false, List, [], arith, ◌+◌, ◌-◌, ◌/◌, ◌%◌, ◌^◌, ◌≤◌, ◌≡◌,
  ◌∙◌, ◌||◌, ◌∷◌, ◌++◌, ◌==◌, if◌then◌else◌,
}
use optimized_nan_lang.Binary.Pack.{
  strip_nops, rle_compress, rle_decompress, rle_decompress-rle_compress,
}

pub record Branch : Type 0 where
  pub offset : ℕ
  pub condition : Bool
  pub target_true : ℕ
  pub target_false : ℕ

-- The target's four bytes, as many as the code has room for: a write out of bounds changes nothing.
write_target : Bytes → ℕ → ℕ → Bytes
write_target code at t =
    let c₀ = set code at (t % 256) in
    let c₁ = set c₀ (at + 1) (t / 2 ^ 8 % 256) in
    let c₂ = set c₁ (at + 2) (t / 2 ^ 16 % 256) in set c₂ (at + 3) (t / 2 ^ 24 % 256)

-- JMP is 7.
unfoldable pub resolve_branch : Bytes → Branch → Bytes
unfolding write_target
resolve_branch code br =
    let target = if br.condition then br.target_true else br.target_false in
    if leb (length code) br.offset
    then code
    else write_target (set code br.offset 7) (br.offset + 1) (target % 2 ^ 32)

unfoldable pub resolve : List Branch → Bytes → Bytes
unfolding resolve_branch
resolve [] code = code
resolve (br ∷ table) code = resolve table (resolve_branch code br)

-- `fold(e) & 0xFF`, where both operands are bytes.
unfoldable pub fold : ℕ → ℕ → ℕ → ℕ
fold op lhs rhs =
    if op == 5
    then (lhs + rhs) % 256
    else if op == 6
    then (2 ^ 64 + lhs - rhs) % 256
    else if op == 9
    then bit_xor lhs rhs % 256
    else if op == 0xb
    then bit_and lhs rhs % 256
    else if op == 0xa
    then bit_or lhs rhs % 256
    else lhs % 256

-- ADD, SUB and XOR with two operands become LOAD (3), if a byte follows.
unfoldable pub fold_bytecode : Bytes → Bytes
unfolding fold
fold_bytecode (op ∷ lhs ∷ rhs ∷ b ∷ bs) =
    let behind = fold_bytecode (b ∷ bs) in
    let next = fold_bytecode (lhs ∷ rhs ∷ b ∷ bs) in
    if op == 5 || (op == 6 || op == 9) then 3 ∷ fold op lhs rhs ∷ behind else op ∷ next
fold_bytecode bs = bs

-- The segments in order, stripped or as they are.
unfoldable pub link : Bool → List Bytes → Bytes
unfolding strip_nops
link strip_padding [] = []
link strip_padding (seg ∷ segments) =
    (if strip_padding then strip_nops seg else seg) ++ link strip_padding segments

unfoldable pub total_size : List Bytes → ℕ
total_size [] = 0
total_size (seg ∷ segments) = length seg + total_size segments

-- The result, the new baseline, and whether the size shrank.
unfoldable pub minimize : ℕ → Bytes → Bytes × ℕ × Bool
unfolding fold_bytecode rle_compress
minimize baseline code =
    let compressed = rle_compress (fold_bytecode (strip_nops code)) in
    if ltb (length compressed) baseline
    then (compressed, length compressed, true)
    else (compressed, baseline, false)

length-strip_nops : (bs : Bytes) → length (strip_nops bs) ≤ length bs
unfolding strip_nops
length-strip_nops [] = omega arith
length-strip_nops (b ∷ bs) = ground (arith, length-strip_nops bs)

-- The linked binary is no longer than the segments together, stripped or not.
pub length-link :
    (strip_padding : Bool) (segments : List Bytes)
    → length (link strip_padding segments) ≤ total_size segments
unfolding link total_size
length-link strip_padding [] = omega arith
length-link true (seg ∷ segments) =
    rw length-append (omega (arith, length-strip_nops seg, length-link true segments))
length-link false (seg ∷ segments) = rw length-append (omega (arith, length-link false segments))

length-set_thrice : (code : Bytes) (at t : ℕ) → length (write_target code at t) ≡ length code
unfolding write_target
length-set_thrice code at t = simp length-set

length-resolve_branch : (code : Bytes) (br : Branch) → length (resolve_branch code br) ≡ length code
unfolding resolve_branch
length-resolve_branch code br = cases (leb (length code) br.offset)
  where
    target : ℕ
    target = if br.condition then br.target_true else br.target_false

    cases :
        (b : Bool)
        → length (
            if b
            then code
            else write_target (set code br.offset 7) (br.offset + 1) (target % 2 ^ 32))
          ≡ length code
    cases true = refl
    cases false =
        length-set_thrice (set code br.offset 7) (br.offset + 1) (target % 2 ^ 32)
        ∙ length-set code br.offset 7

-- Resolving branches keeps the length of the code, wherever the branches stand.
pub length-resolve :
    (table : List Branch) (code : Bytes) → length (resolve table code) ≡ length code
unfolding resolve
length-resolve [] code = refl
length-resolve (br ∷ table) code =
    length-resolve table (resolve_branch code br) ∙ length-resolve_branch code br

-- What is decompressed from a minimized binary is the folded code without NOPs, and the new baseline
-- is the smaller one of the old baseline and the compressed size.
pub minimize_lem :
    (baseline : ℕ) (code : Bytes)
    → (rle_decompress (minimize baseline code).0 ≡ fold_bytecode (strip_nops code))
      × ((minimize baseline code).1
          ≡ min baseline (length (rle_compress (fold_bytecode (strip_nops code)))))
unfolding minimize
minimize_lem baseline code =
    cases (rle_compress (fold_bytecode (strip_nops code)))
      (rle_decompress-rle_compress (fold_bytecode (strip_nops code)))
  where
    cases :
        (c : Bytes)
        → rle_decompress c ≡ fold_bytecode (strip_nops code)
        → let r : Bytes × ℕ × Bool =
            if ltb (length c) baseline then (c, length c, true) else (c, baseline, false) in
          (rle_decompress r.0 ≡ fold_bytecode (strip_nops code)) × (r.1 ≡ min baseline (length c))
    cases c e = elim (Bool-cases (ltb (length c) baseline)) [
      | inl h ↦ rw h (e, smaller h)
      | inr h ↦ rw h (e, larger h)
    ]
      where
        smaller : ltb (length c) baseline ≡ true → length c ≡ min baseline (length c)
        smaller h = ground arith

        larger : ltb (length c) baseline ≡ false → baseline ≡ min baseline (length c)
        larger h = ground arith
