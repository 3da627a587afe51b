-- ===== src/Cache/Legacy.antt =====
-- The older text formats of the cache metadata: `parse_cache_meta_v2` of src/nanlang_cpp.cpp, and the form
-- "<mode>:<hash>" that `cache_hit_native` reads behind it.
use optimized_nan_lang.Base.{
  ltb, leb, same, ℤ, pos, with_minus, Bytes, codes, is_space, ℕ, Bool, true, false, Option, none,
  some, [], ◌-◌, ◌%◌, ◌^◌, ◌∷◌, ◌==◌, if◌then◌else◌,
}
use optimized_nan_lang.Text.{skip_spaces}
use optimized_nan_lang.Text.Numbers.{digit_value, read_digits}
use optimized_nan_lang.Cache.{CompileOutputMode, mode_int, SourceFingerprint, same_ℤ, to_hex_u64}

-- A decimal number as `std::stoi` and a stream read it: spaces, a sign, at least one digit. The sign, the
-- magnitude, and what follows.
digits_after : Bool → Bytes → Option (Bool × ℕ × Bytes)
unfolding digit_value read_digits
digits_after neg [] = none
digits_after neg (c ∷ cs) =
    let (v, rest) = read_digits 10 0 (c ∷ cs) in
    if ltb (digit_value c) 10 then some (neg, v, rest) else none

unfoldable pub extract_number : Bytes → Option (Bool × ℕ × Bytes)
unfolding digits_after skip_spaces
extract_number s = elim (skip_spaces s) [
  | [] ↦ none
  | ◌∷◌ c cs ↦
      if c == 0x2d
      then digits_after true cs
      else if c == 0x2b
      then digits_after false cs
      else digits_after false (c ∷ cs)
]

-- A signed number of `bits` bits, and what follows it.
signed_of : ℕ → Option (Bool × ℕ × Bytes) → Option (ℤ × Bytes)
signed_of bits none = none
signed_of bits (some (neg, v, rest)) =
    if (if neg then leb v (2 ^ (bits - 1)) else ltb v (2 ^ (bits - 1)))
    then some (with_minus neg v, rest)
    else none

-- An unsigned number of 64 bits: a minus sign negates modulo 2^64.
unsigned_of : Option (Bool × ℕ × Bytes) → Option (ℕ × Bytes)
unsigned_of none = none
unsigned_of (some (neg, v, rest)) =
    if ltb v (2 ^ 64) then some (if neg then (2 ^ 64 - v) % 2 ^ 64 else v, rest) else none

-- `iss >> word`: a word of at least one byte, and what follows it.
word_from : Bytes → Bytes × Bytes
unfolding is_space
word_from [] = ([], [])
word_from (c ∷ cs) =
    let (word, rest) = word_from cs in if is_space c then ([], c ∷ cs) else (c ∷ word, rest)

extract_word : Bytes → Option (Bytes × Bytes)
unfolding word_from skip_spaces
extract_word s =
    let (word, rest) = word_from (skip_spaces s) in
    elim word [ [] ↦ none | ◌∷◌ c cs ↦ some (c ∷ cs, rest) ]

-- The five extractions behind the tag, in their order; the hash is read and not used.
fields_from : Bytes → Option (ℤ × SourceFingerprint)
unfolding extract_number signed_of unsigned_of extract_word
fields_from s0 = elim (signed_of 32 (extract_number s0)) [
  | none ↦ none
  | some (mode, s1) ↦ elim (unsigned_of (extract_number s1)) [
    | none ↦ none
    | some (size, s2) ↦ elim (signed_of 64 (extract_number s2)) [
      | none ↦ none
      | some (sec, s3) ↦ elim (signed_of 64 (extract_number s3)) [
        | none ↦ none
        | some (nsec, s4) ↦ elim (extract_word s4) [
          | none ↦ none
          | some hash ↦ some (mode, record { size = size; sec = sec; nsec = nsec })
        ]
      ]
    ]
  ]
]

unfoldable pub parse_cache_meta_v2 : Bytes → Option (ℤ × SourceFingerprint)
unfolding extract_word fields_from same
parse_cache_meta_v2 line = elim (extract_word line) [
  | none ↦ none
  | some (tag, rest) ↦ if same tag (codes "v2") then fields_from rest else none
]

-- The text up to a colon, and behind it.
split_colon : Bytes → Option (Bytes × Bytes)
split_colon [] = none
split_colon (c ∷ cs) =
    let later = split_colon cs in
    if c == 0x3a
    then some ([], cs)
    else elim later [ none ↦ none | some (front, back) ↦ some (c ∷ front, back) ]

-- `hash` is the source's, or `none` where it cannot be read.
unfoldable pub legacy_hit : Bytes → CompileOutputMode → Option ℕ → Bool
unfolding split_colon extract_number signed_of same to_hex_u64
legacy_hit line mode hash = elim (split_colon line) [
  | none ↦ false
  | some (front, back) ↦ elim (signed_of 32 (extract_number front)) [
    | none ↦ false
    | some (legacy_mode, rest) ↦
        if same_ℤ legacy_mode (pos (mode_int mode))
        then elim hash [ none ↦ false | some h ↦ same back (to_hex_u64 h) ]
        else false
  ]
]
