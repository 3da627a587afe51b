-- ===== src/Signal.antt =====
-- The signals of `pulse` and `emit` statements: src/nanlang_cpp.cpp, the token parser and the names
-- that are printed.
use optimized_nan_lang.Base.{
  ltb, same, Bytes, codes, is_space, ℕ, Bool, true, false, not, Option, none, some, [], ◌+◌, ◌/◌,
  ◌%◌, ◌^◌, ◌&&◌, ◌∷◌, ◌==◌, if◌then◌else◌,
}
use optimized_nan_lang.Text.{skip_spaces, after_prefix}

unfoldable pub parse_signal_token : Bytes → Option ℕ
unfolding same
parse_signal_token token =
    if same token (codes "^")
    then some 0x01
    else if same token (codes "_")
    then some 0x00
    else if same token (codes "?")
    then some 0xff
    else if same token (codes "_>_")
    then some 0x10
    else if same token (codes "_>>_")
    then some 0x11
    else none

-- `while (p < sv.size() && !isspace(sv[p]) && sv[p] != ';') ++p;`
pub take_token : Bytes → Bytes
unfolding is_space
take_token [] = []
take_token (c ∷ cs) = if not (is_space c) && not (c == 0x3b) then c ∷ take_token cs else []

-- What follows the keyword: it must be set off by a space.
signal_after : Bytes → Option ℕ
unfolding parse_signal_token take_token skip_spaces
signal_after [] = none
signal_after (d ∷ ds) =
    if is_space d then parse_signal_token (take_token (skip_spaces (d ∷ ds))) else none

-- The pair of `is_pulse` and `signal`; `none` is the result `false`.
unfoldable pub parse_pulse_or_emit : Bytes → Option (Bool × ℕ)
unfolding after_prefix signal_after
parse_pulse_or_emit line = elim (after_prefix (codes "pulse") line) [
  | some rest ↦ elim (signal_after rest) [ none ↦ none | some s ↦ some (true, s) ]
  | none ↦ elim (after_prefix (codes "emit") line) [
    | none ↦ none
    | some rest ↦ elim (signal_after rest) [ none ↦ none | some s ↦ some (false, s) ]
  ]
]

-- "0123456789abcdef"[d]
unfoldable pub hex_digit : ℕ → ℕ
hex_digit d = if ltb d 10 then 0x30 + d else 0x57 + d

unfoldable pub signal_name : ℕ → Bytes
unfolding hex_digit
signal_name v =
    if v == 0x00
    then codes "LOW"
    else if v == 0x01
    then codes "HIGH"
    else if v == 0xff
    then codes "UNCERTAIN"
    else if v == 0x10
    then codes "FALLING"
    else if v == 0x11
    then codes "DOUBLE_FALLING"
    else 0x30 ∷ 0x78 ∷ hex_digit (v / 2 ^ 4 % 16) ∷ hex_digit (v % 16) ∷ []
