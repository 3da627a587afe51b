-- ===== src/Arch.antt =====
-- The structures of include/nan_arch.h that compute: SIMDProcessor, ZeroCopySlice, RegisterMap and the
-- rounding of HugePageAlloc. And CrossPlatformEmitter and HWFingerprint::embed of include/nan_compiler.h.
pub mod Emitter
pub mod Slice
use optimized_nan_lang.Base.{
  get_or, set, replicate, Bytes, ℕ, suc, bit_or, bit_xor, Bool, true, false, Option, none, some,
  List, [], arith, ◌+◌, ◌-◌, ◌%◌, ◌^◌, ◌≡◌, ◌∷◌, ◌==◌, if◌then◌else◌,
}

-- `out[i] = a[i] ^ b[i]` for the bytes that both have.
unfoldable pub xor32 : Bytes → Bytes → Bytes
xor32 (a ∷ xs) (b ∷ ys) = bit_xor a b ∷ xor32 xs ys
xor32 xs ys = []

unfoldable pub or32 : Bytes → Bytes → Bytes
or32 (a ∷ xs) (b ∷ ys) = bit_or a b ∷ or32 xs ys
or32 xs ys = []

unfoldable pub count_active : Bytes → ℕ
count_active [] = 0
count_active (b ∷ bs) = (if b == 0 then 0 else 1) + count_active bs

-- A register, and whether it is in use: an `int64_t` is the word of its 64 bits.
abbrev pub RegisterMap : Type 0
RegisterMap = List (ℕ × Bool)

abbrev pub new_map : RegisterMap
new_map = replicate 16 (0, false)

-- `none` is the result -1; the index is counted from `i`.
unfoldable pub allocate_from : ℕ → ℕ → RegisterMap → Option (RegisterMap × ℕ)
allocate_from i value [] = none
allocate_from i value ((r, used) ∷ rest) =
    let later = allocate_from (i + 1) value rest in
    if used
    then elim later [ none ↦ none | some (after, index) ↦ some ((r, used) ∷ after, index) ]
    else some ((value, true) ∷ rest, i)

-- An index out of range changes nothing.
unfoldable pub free_reg : ℕ → RegisterMap → RegisterMap
free_reg i m = set m i (0, false)

unfoldable pub read : ℕ → RegisterMap → ℕ
read i m = (get_or m i (0, false)).0

unfoldable pub used_count : RegisterMap → ℕ
used_count [] = 0
used_count ((r, used) ∷ rest) = (if used then 1 else 0) + used_count rest

-- The outcome of `allocate`: one more register is in use.
OneMore : ℕ → Option (RegisterMap × ℕ) → Type 0
OneMore used none = Unit
OneMore used (some (after, index)) = used_count after ≡ suc used

-- A register that is handed out was free: there is one more in use behind it.
allocate_from-OneMore :
    (i value : ℕ) (m : RegisterMap) → OneMore (used_count m) (allocate_from i value m)
unfolding allocate_from used_count OneMore
allocate_from-OneMore i value [] = tt
allocate_from-OneMore i value ((r, false) ∷ rest) = omega arith
allocate_from-OneMore i value ((r, true) ∷ rest) =
    later (allocate_from (i + 1) value rest) (allocate_from-OneMore (i + 1) value rest)
  where
    later :
        (o : Option (RegisterMap × ℕ))
        → OneMore (used_count rest) o
        → OneMore
            (used_count ((r, true) ∷ rest))
            (elim o [ none ↦ none | some (after, index) ↦ some ((r, true) ∷ after, index) ])
    later none h = tt
    later (some (after, index)) h = omega (arith, h)

-- `(size + HUGE_PAGE - 1) & ~(HUGE_PAGE - 1)`: the low 21 bits are cleared.
unfoldable pub huge_size : ℕ → ℕ
huge_size size = let s = (size + 2 ^ 21 - 1) % 2 ^ 64 in s - s % 2 ^ 21
