-- ===== src/Text/Numbers.antt =====
-- `std::stoul` and `std::stoll` with base 0, as src/nanlang_cpp.cpp calls them.
use optimized_nan_lang.Base.{
  ltb, leb, Bytes, ℕ, Bool, true, false, Option, none, some, [], ◌+◌, ◌-◌, ◌*◌, ◌%◌, ◌^◌, ◌&&◌,
  ◌||◌, ◌∷◌, ◌==◌, if◌then◌else◌,
}
use optimized_nan_lang.Text.{skip_spaces}

-- The value of a digit in any base up to 36, and 99 for every other byte.
unfoldable pub digit_value : ℕ → ℕ
digit_value c =
    if leb 0x30 c && leb c 0x39
    then c - 0x30
    else if leb 0x61 c && leb c 0x7a
    then c - 0x57
    else if leb 0x41 c && leb c 0x5a
    then c - 0x37
    else 99

-- The digits in front of the text: their value on top of `acc`, and what follows them.
unfoldable pub read_digits : ℕ → ℕ → Bytes → ℕ × Bytes
unfolding digit_value
read_digits base acc [] = (acc, [])
read_digits base acc (c ∷ cs) =
    let rest = read_digits base (acc * base + digit_value c) cs in
    if ltb (digit_value c) base then rest else (acc, c ∷ cs)

-- At least one digit is wanted.
unfoldable pub some_digits : ℕ → Bytes → Option (ℕ × Bytes)
unfolding read_digits
some_digits base [] = none
some_digits base (c ∷ cs) =
    if ltb (digit_value c) base then some (read_digits base 0 (c ∷ cs)) else none

-- Base 0: "0x" before a hexadecimal digit is base 16, another leading zero base 8.
unfoldable pub unsigned_number : Bytes → Option (ℕ × Bytes)
unfolding some_digits
unsigned_number (z ∷ x ∷ d ∷ cs) =
    if z == 0x30 && ((x == 0x78 || x == 0x58) && ltb (digit_value d) 16)
    then some_digits 16 (d ∷ cs)
    else some_digits (if z == 0x30 then 8 else 10) (z ∷ x ∷ d ∷ cs)
unsigned_number (z ∷ cs) = some_digits (if z == 0x30 then 8 else 10) (z ∷ cs)
unsigned_number [] = none

-- A sign, the magnitude, and what follows the number; `none` where there is no number.
unfoldable pub signed_number : Bytes → Option (Bool × ℕ × Bytes)
unfolding unsigned_number skip_spaces
signed_number s = with_sign (skip_spaces s)
  where
    found : Bool → Option (ℕ × Bytes) → Option (Bool × ℕ × Bytes)
    found neg none = none
    found neg (some (v, rest)) = some (neg, v, rest)

    with_sign : Bytes → Option (Bool × ℕ × Bytes)
    with_sign [] = none
    with_sign (c ∷ cs) =
        if c == 0x2d
        then found true (unsigned_number cs)
        else if c == 0x2b
        then found false (unsigned_number cs)
        else found false (unsigned_number (c ∷ cs))

-- `none` is an exception. A minus sign negates modulo 2^64.
unfoldable pub stoul : Bytes → Option ℕ
unfolding signed_number
stoul s = elim (signed_number s) [
  | none ↦ none
  | some (neg, v, rest) ↦
      if leb (2 ^ 64) v then none else if neg then some ((2 ^ 64 - v) % 2 ^ 64) else some v
]
