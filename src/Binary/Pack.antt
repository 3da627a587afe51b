-- ===== src/Binary/Pack.antt =====
-- `strip_nops`, `rle_compress`, `rle_decompress` and `hw_key_xor` of include/nan_binary.h.
use optimized_nan_lang.Base.{
  ltb, Bool-cases, replicate, bit_xor_twice, Bytes, ℕ, zero, suc, bit_xor, refl, sym, ap, ap₂, inl,
  inr, Bool, true, [], arith, ◌+◌, ◌*◌, ◌/◌, ◌%◌, ◌^◌, ◌≡◌, ◌∙◌, ◌&&◌, ◌∷◌, ◌++◌, ◌==◌,
  if◌then◌else◌,
}

-- NanOpcode::NOP is 0.
unfoldable pub strip_nops : Bytes → Bytes
strip_nops [] = []
strip_nops (b ∷ bs) = if b == 0 then strip_nops bs else b ∷ strip_nops bs

-- A run that is being counted: `cnt` bytes `val`.
run_bytes : ℕ → ℕ → Bytes
run_bytes cnt val = cnt ∷ val ∷ []

-- The loops of `rle_compress`: the inner one counts up to 255 equal bytes, the outer one writes a run.
rle_runs : ℕ → ℕ → Bytes → Bytes
unfolding run_bytes
rle_runs val cnt [] = run_bytes cnt val
rle_runs val cnt (b ∷ bs) =
    let longer = rle_runs val (suc cnt) bs in
    let next = rle_runs b 1 bs in
    if b == val && ltb cnt 255 then longer else run_bytes cnt val ++ next

unfoldable pub rle_compress : Bytes → Bytes
unfolding rle_runs
rle_compress [] = []
rle_compress (b ∷ bs) = rle_runs b 1 bs

-- An odd byte at the end is dropped.
unfoldable pub rle_decompress : Bytes → Bytes
rle_decompress [] = []
rle_decompress (cnt ∷ []) = []
rle_decompress (cnt ∷ val ∷ bs) = replicate cnt val ++ rle_decompress bs

-- `cpu_id` in its bytes, as a little-endian machine stores it.
key_byte : ℕ → ℕ → ℕ
key_byte cpu_id k = cpu_id / 2 ^ (8 * k) % 256

xor_from : ℕ → ℕ → Bytes → Bytes
unfolding key_byte
xor_from cpu_id i [] = []
xor_from cpu_id i (b ∷ bs) = bit_xor b (key_byte cpu_id (i % 8)) ∷ xor_from cpu_id (i + 1) bs

unfoldable pub hw_key_xor : Bytes → ℕ → Bytes
unfolding xor_from
hw_key_xor bytes cpu_id = xor_from cpu_id 0 bytes

replicate-snoc : (n v : ℕ) (rest : Bytes) → replicate (suc n) v ++ rest ≡ replicate n v ++ v ∷ rest
replicate-snoc zero v rest = refl
replicate-snoc (suc n) v rest = ap (λ t. v ∷ t) (replicate-snoc n v rest)

rle_runs_lem :
    (val cnt : ℕ) (bs : Bytes) → rle_decompress (rle_runs val cnt bs) ≡ replicate cnt val ++ bs
unfolding rle_runs rle_decompress
rle_runs_lem val cnt [] = unfold run_bytes in refl
rle_runs_lem val cnt (b ∷ bs) = elim (Bool-cases (b == val && ltb cnt 255)) [
  | inl e ↦ rw e (
      rle_runs_lem val (suc cnt) bs
      ∙ replicate-snoc cnt val bs
      ∙ ap (λ v. replicate cnt val ++ v ∷ bs) (sym (equal b val (ltb cnt 255) e)))
  | inr e ↦
      rw e
        (unfold run_bytes rle_decompress in ap (λ t. replicate cnt val ++ t) (rle_runs_lem b 1 bs))
]
  where
    equal : (b val : ℕ) (c : Bool) → (b == val && c) ≡ true → b ≡ val
    equal b val c e = ground arith

-- Decompressing what was compressed gives the bytes back, for every input.
pub rle_decompress-rle_compress : (bs : Bytes) → rle_decompress (rle_compress bs) ≡ bs
unfolding rle_compress
rle_decompress-rle_compress [] = unfold rle_decompress in refl
rle_decompress-rle_compress (b ∷ bs) = rle_runs_lem b 1 bs

xor_from-twice : (cpu_id i : ℕ) (bs : Bytes) → xor_from cpu_id i (xor_from cpu_id i bs) ≡ bs
unfolding xor_from
xor_from-twice cpu_id i [] = refl
xor_from-twice cpu_id i (b ∷ bs) =
    ap₂ (λ x xs. x ∷ xs) (bit_xor_twice b (key_byte cpu_id (i % 8)))
      (xor_from-twice cpu_id (i + 1) bs)

-- Decryption with the same key is the inverse of encryption.
pub hw_key_xor-hw_key_xor :
    (bs : Bytes) (cpu_id : ℕ) → hw_key_xor (hw_key_xor bs cpu_id) cpu_id ≡ bs
unfolding hw_key_xor
hw_key_xor-hw_key_xor bs cpu_id = xor_from-twice cpu_id 0 bs
