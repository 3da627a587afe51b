-- ===== src/Ui/Emit.antt =====
-- What the directives share: the two writers of `handle_ui_directive` of src/nanlang_cpp.cpp and the reading
-- of several numbers.
use optimized_nan_lang.Base.{
  length, get_or, ℤ, pos, ltb_ℤ, Bytes, codes, ℕ, Bool, true, false, Option, none, some, List, [],
  map, ◌+◌, ◌∷◌, ◌++◌, if◌then◌else◌,
}
use optimized_nan_lang.Text.Ints.{parse_int_token}
use optimized_nan_lang.Native.Program.{NativeProgram}

abbrev pub token : List Bytes → ℕ → Bytes
token tokens i = get_or tokens i []

unfoldable pub emit_lines : List Bytes → NativeProgram → NativeProgram
emit_lines lines p = record p {
  writes = p.writes ++ map (λ entry. entry ++ 10 ∷ []) lines;
  emitted_ops = p.emitted_ops + length lines;
}

unfoldable pub emit_signal_pair : Bool → NativeProgram → NativeProgram
unfolding emit_lines
emit_signal_pair high p =
    if high
    then emit_lines (codes "[pulse] HIGH" ∷ codes "[emit] HIGH" ∷ []) p
    else emit_lines (codes "[pulse] LOW" ∷ codes "[emit] LOW" ∷ []) p

-- `!parse_int_token(a, x) || !parse_int_token(b, y)`
unfoldable pub parse_two : Bytes → Bytes → Option (ℤ × ℤ)
unfolding parse_int_token
parse_two a b = elim (parse_int_token a) [
  | none ↦ none
  | some x ↦ elim (parse_int_token b) [ none ↦ none | some y ↦ some (x, y) ]
]

unfoldable pub parse_three : Bytes → Bytes → Bytes → Option (ℤ × ℤ × ℤ)
unfolding parse_two parse_int_token
parse_three a b c = elim (parse_two a b) [
  | none ↦ none
  | some (x, y) ↦ elim (parse_int_token c) [ none ↦ none | some z ↦ some (x, y, z) ]
]

abbrev pub positive : ℤ → Bool
positive v = ltb_ℤ (pos 0) v

unfoldable pub parse_five : Bytes → Bytes → Bytes → Bytes → Bytes → Option (ℤ × ℤ × ℤ × ℤ × ℤ)
unfolding parse_two parse_three
parse_five a b c d e = elim (parse_two a b) [
  | none ↦ none
  | some (x, y) ↦ elim (parse_three c d e) [ none ↦ none | some (z, v, w) ↦ some (x, y, z, v, w) ]
]

-- The early returns of a directive: one for too few tokens, one for what is no number.
unfoldable pub with_args {ℓ} :
    {A : Type ℓ}
    → Bool
    → NativeProgram
    → Option A
    → NativeProgram
    → (A → NativeProgram)
    → NativeProgram
with_args true malformed args invalid act = malformed
with_args false malformed none invalid act = invalid
with_args false malformed (some a) invalid act = act a
