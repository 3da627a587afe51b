-- ===== src/Text/Ints.antt =====
-- `parse_int_token` of src/nanlang_cpp.cpp, and the decimal text that a stream writes for an integer.
use optimized_nan_lang.Base.{
  ltb, leb, same, ℤ, pos, negsuc, with_minus, Bytes, ℕ, zero, suc, Bool, Option, none, some, [],
  ◌+◌, ◌/◌, ◌%◌, ◌^◌, ◌&&◌, ◌∷◌, ◌++◌, if◌then◌else◌,
}
use optimized_nan_lang.Text.Numbers.{signed_number}

-- `long long` reaches from -2^63 to 2^63 - 1.
abbrev pub in_long_long : Bool → ℕ → Bool
in_long_long neg v = if neg then leb v (2 ^ 63) else ltb v (2 ^ 63)

-- `none` is the result `false`: no number, one out of range, or text behind it.
unfoldable pub parse_int_token : Bytes → Option ℤ
unfolding signed_number same
parse_int_token token = elim (signed_number token) [
  | none ↦ none
  | some (neg, v, rest) ↦
      if in_long_long neg v && same rest [] then some (with_minus neg v) else none
]

-- The last `n` decimal digits at most, without leading zeros.
unfoldable pub decimal_digits : ℕ → ℕ → Bytes
decimal_digits zero v = []
decimal_digits (suc n) v =
    let front = decimal_digits n (v / 10) in
    if ltb v 10 then (0x30 + v) ∷ [] else front ++ (0x30 + v % 10) ∷ []

-- Twenty digits are enough for 64 bits.
unfoldable pub decimal : ℕ → Bytes
unfolding decimal_digits
decimal v = decimal_digits 20 v

-- `out << v`.
unfoldable pub int_text : ℤ → Bytes
unfolding decimal
int_text (pos n) = decimal n
int_text (negsuc n) = 0x2d ∷ decimal (suc n)
