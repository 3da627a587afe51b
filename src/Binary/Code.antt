-- ===== src/Binary/Code.antt =====
-- `bit_swap_xor` and the Hamming code of include/nan_binary.h. A byte is a number below 256, and the
-- results of the C++ shifts are cut to a byte where the source stores one.
use optimized_nan_lang.Base.{
  ==_iff, checks_below, true_below, ℕ, bit_or, bit_xor, refl, Bool, true, false, not, arith, ◌+◌,
  ◌-◌, ◌*◌, ◌/◌, ◌%◌, ◌^◌, ◌<◌, ◌≡◌, ◌↔◌, ◌||◌, ◌==◌, if◌then◌else◌,
}

unfoldable pub bit_swap_xor : ℕ → ℕ → ℕ
bit_swap_xor a key = bit_xor (bit_xor a key) (bit_or (key * 2 ^ 4) (key / 2 ^ 4)) % 256

-- Bit `k` of a number: `(code >> k) & 1`.
bit : ℕ → ℕ → ℕ
bit code k = code / 2 ^ k % 2

unfoldable pub hamming_encode : ℕ → ℕ
unfolding bit
hamming_encode nibble =
    let d₁ = bit nibble 3 in
    let d₂ = bit nibble 2 in
    let d₃ = bit nibble 1 in
    let d₄ = bit nibble 0 in
    let p₁ = bit_xor (bit_xor d₁ d₂) d₄ in
    let p₂ = bit_xor (bit_xor d₁ d₃) d₄ in
    let p₃ = bit_xor (bit_xor d₂ d₃) d₄ in
    p₁ * 64 + p₂ * 32 + d₁ * 16 + p₃ * 8 + d₂ * 4 + d₃ * 2 + d₄

syndrome : ℕ → ℕ
unfolding bit
syndrome code =
    let s₁ = bit_xor (bit_xor (bit_xor (bit code 6) (bit code 4)) (bit code 2)) (bit code 0) in
    let s₂ = bit_xor (bit_xor (bit_xor (bit code 5) (bit code 4)) (bit code 1)) (bit code 0) in
    let s₃ = bit_xor (bit_xor (bit_xor (bit code 3) (bit code 2)) (bit code 1)) (bit code 0) in
    s₁ * 4 + s₂ * 2 + s₃

unfoldable pub hamming_decode_correct : ℕ → ℕ
unfolding syndrome
hamming_decode_correct code =
    let s = syndrome code in
    let corrected = if s == 0 then code else bit_xor code (2 ^ (7 - s)) in
    bit corrected 4 * 8 + bit corrected 2 * 4 + bit corrected 1 * 2 + bit corrected 0

-- The bits whose error the decoder repairs: the three parity bits, d2 and d4.
abbrev pub repairs : ℕ → Bool
repairs k = k == 6 || (k == 5 || (k == 3 || (k == 2 || k == 0)))

clean_table : checks_below 16 (λ n. hamming_decode_correct (hamming_encode n) == n) ≡ true
unfolding checks_below hamming_encode hamming_decode_correct
clean_table = refl

-- The code word of a number below 16 is decoded to that number.
pub hamming_decode_correct-hamming_encode :
    (n : ℕ) → n < 16 → hamming_decode_correct (hamming_encode n) ≡ n
hamming_decode_correct-hamming_encode n h = (==_iff _ n).0 (true_below 16 _ n h clean_table)

agrees : Bool → ℕ → ℕ → Bool
agrees b x n = if b then x == n else not (x == n)

flip_table :
    checks_below 16 (λ n.
      checks_below 7
        (λ k. agrees (repairs k) (hamming_decode_correct (bit_xor (hamming_encode n) (2 ^ k))) n))
    ≡ true
unfolding checks_below hamming_encode hamming_decode_correct agrees
flip_table = refl

flipped :
    (n k : ℕ)
    → n < 16
    → k < 7
    → agrees (repairs k) (hamming_decode_correct (bit_xor (hamming_encode n) (2 ^ k))) n ≡ true
flipped n k hn hk = true_below 7 _ k hk (true_below 16 _ n hn flip_table)

-- With one of the seven bits of the code word of a number below 16 turned over, the decoder gives back the nibble exactly when the bit is
-- one of 0, 2, 3, 5 and 6. An error in bit 1 or 4, which carry data, is not repaired.
pub hamming_decode_correct-flip_iff :
    (n k : ℕ)
    → n < 16
    → k < 7
    → (hamming_decode_correct (bit_xor (hamming_encode n) (2 ^ k)) ≡ n) ↔ (repairs k ≡ true)
hamming_decode_correct-flip_iff n k hn hk = cases (repairs k) _ (flipped n k hn hk)
  where
    cases : (b : Bool) (x : ℕ) → agrees b x n ≡ true → (x ≡ n) ↔ (b ≡ true)
    cases true x h = ((λ e. refl), λ e. unfold agrees in ground arith)
    cases false x h = ((λ e. unfold agrees in ground arith), λ e. ground arith)
