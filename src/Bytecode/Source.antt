-- ===== src/Bytecode/Source.antt =====
-- How `compile_source` of src/nanlang_cpp.cpp reads a line: the tests of its loop in their order.
use optimized_nan_lang.Base.{
  ltb, same, Bytes, codes, ℕ, Bool, false, Option, none, some, [], ◌||◌, ◌∷◌, ◌==◌, if◌then◌else◌,
}
use optimized_nan_lang.Text.{
  trim, normalize_source_line, starts_with_keyword, extract_quoted_string,
}
use optimized_nan_lang.Text.Numbers.{stoul}
use optimized_nan_lang.Signal.{parse_pulse_or_emit}

pub data Mmio : Type 0 where
  no_equals not_numeric too_large : Mmio
  write : ℕ → ℕ → Mmio

-- `none` in `says` and `signals` is a malformed statement.
pub data Statement : Type 0 where
  ignored conditional looping returning halts unsupported : Statement
  says : Option Bytes → Statement
  signals : Option (Bool × ℕ) → Statement
  mmio : Mmio → Statement

-- The text around the first `=`.
unfoldable pub split_equals : Bytes → Option (Bytes × Bytes)
split_equals [] = none
split_equals (c ∷ cs) =
    let rest = split_equals cs in
    if c == 0x3d then some ([], cs) else elim rest [ none ↦ none | some (a, b) ↦ some (c ∷ a, b) ]

-- `if (!rhs.empty() && rhs.back() == ';') rhs.pop_back();`
unfoldable pub drop_semicolon : Bytes → Bytes
drop_semicolon [] = []
drop_semicolon (c ∷ []) = if c == 0x3b then [] else c ∷ []
drop_semicolon (c ∷ d ∷ cs) = c ∷ drop_semicolon (d ∷ cs)

unfoldable pub mmio_values : Option ℕ → Option ℕ → Mmio
mmio_values (some addr) (some value) =
    if ltb 0xff addr || ltb 0xff value then too_large else write addr value
mmio_values (some addr) none = not_numeric
mmio_values none value = not_numeric

-- The line behind its `@`.
unfoldable pub read_mmio : Bytes → Mmio
unfolding split_equals drop_semicolon mmio_values stoul trim
read_mmio line = elim (split_equals line) [
  | none ↦ no_equals
  | some (addr, rhs) ↦ mmio_values (stoul (trim addr)) (stoul (trim (drop_semicolon (trim rhs))))
]

unfoldable pub starts_brace : Bytes → Bool
starts_brace [] = false
starts_brace (c ∷ cs) = c == 0x7d

unfoldable pub ignored_keyword : Bytes → Bool
unfolding starts_with_keyword
ignored_keyword line =
    starts_with_keyword line (codes "fn")
    || (starts_with_keyword line (codes "let")
        || (starts_with_keyword line (codes "const")
            || (starts_with_keyword line (codes "on")
                || (starts_with_keyword line (codes "interrupt")
                    || (starts_with_keyword line (codes "purge")
                        || starts_with_keyword line (codes "jitter"))))))

-- The tests behind that for `pulse` and `emit`.
unfoldable pub classify_rest : Bytes → Statement
classify_rest [] = unsupported
classify_rest (c ∷ cs) =
    if c == 0x40
    then mmio (read_mmio cs)
    else if starts_with_keyword (c ∷ cs) (codes "@macro")
        || (starts_with_keyword (c ∷ cs) (codes "NAN3")
            || starts_with_keyword (c ∷ cs) (codes "@nan_magic"))
    then ignored
    else unsupported

-- A normalized line.
unfoldable pub classify : Bytes → Statement
classify line =
    if same line []
    then ignored
    else if same line (codes "{") || (same line (codes "}") || same line (codes "};"))
    then ignored
    else if starts_brace line
    then ignored
    else if starts_with_keyword line (codes "if") || starts_with_keyword line (codes "else")
    then conditional
    else if starts_with_keyword line (codes "loop") || starts_with_keyword line (codes "break")
    then looping
    else if starts_with_keyword line (codes "return")
    then returning
    else if ignored_keyword line
    then ignored
    else if starts_with_keyword line (codes "say")
    then says (extract_quoted_string line)
    else if starts_with_keyword line (codes "halt")
    then halts
    else if starts_with_keyword line (codes "pulse") || starts_with_keyword line (codes "emit")
    then signals (parse_pulse_or_emit line)
    else classify_rest line

-- A line as `std::getline` returns it.
unfoldable pub read_statement : Bytes → Statement
unfolding classify ignored_keyword starts_brace classify_rest read_mmio extract_quoted_string
    normalize_source_line parse_pulse_or_emit same
read_statement raw = classify (normalize_source_line raw)
