-- ===== src/Ui.antt =====
-- The directives of the user interface: `tokenize_ui_directive` of src/nanlang_cpp.cpp here, and below it
-- the two readers of the tokens.
pub mod Tokens
pub mod Emit
pub mod Widgets
pub mod Chart
pub mod Balance
pub mod Directive
pub mod Scene
mod Tests
use optimized_nan_lang.Base.{
  Bytes, is_space, ℕ, Bool, true, false, not, Option, none, some, List, [], ◌&&◌, ◌||◌, ◌∷◌, ◌++◌,
  ◌==◌, if◌then◌else◌,
}

-- The variables of the loop.
pub record Tokenizer : Type 0 where
  pub in_string : Bool
  pub escaped : Bool
  pub current : Bytes
  pub tokens : List Bytes

abbrev pub append_current : Bytes → Tokenizer → Tokenizer
append_current bs t = record t { current = t.current ++ bs }

abbrev pub end_token : Tokenizer → Tokenizer
end_token t = record t { tokens = t.tokens ++ t.current ∷ []; current = [] }

abbrev is_empty : Bytes → Bool
is_empty [] = true
is_empty (c ∷ cs) = false

-- The byte behind a backslash.
pub escaped_step : ℕ → Tokenizer → Tokenizer
escaped_step c t =
    record (append_current
      (if c == 0x6e
        then 10 ∷ []
        else if c == 0x72
        then 13 ∷ []
        else if c == 0x74
        then 9 ∷ []
        else if c == 0x22
        then 0x22 ∷ []
        else if c == 0x5c
        then 0x5c ∷ []
        else 0x5c ∷ c ∷ [])
      t) { escaped = false }

pub string_step : ℕ → Tokenizer → Tokenizer
unfolding escaped_step
string_step c t =
    if t.escaped
    then escaped_step c t
    else if c == 0x5c
    then record t { escaped = true }
    else if c == 0x22
    then record (end_token t) { in_string = false }
    else append_current (c ∷ []) t

abbrev starts_slash : Bytes → Bool
starts_slash [] = false
starts_slash (c ∷ cs) = c == 0x2f

-- `none` leaves the loop.
pub plain_step : ℕ → Bytes → Tokenizer → Option Tokenizer
unfolding is_space
plain_step c after t =
    if c == 0x22
    then some (record t { in_string = true })
    else if c == 0x3b || is_space c
    then some (if is_empty t.current then t else end_token t)
    else if c == 0x2f && starts_slash after
    then none
    else some (append_current (c ∷ []) t)

pub scan : Tokenizer → Bytes → Tokenizer
unfolding string_step plain_step
scan t [] = t
scan t (c ∷ cs) = elim t.in_string [
  | true ↦ scan (string_step c t) cs
  | false ↦ elim (plain_step c cs t) [ none ↦ t | some after ↦ scan after cs ]
]

-- `ok` and the tokens.
unfoldable pub tokenize_ui_directive : Bytes → Bool × List Bytes
unfolding scan
tokenize_ui_directive line =
    let t = scan (record { in_string = false; escaped = false; current = []; tokens = [] }) line in
    (not t.in_string, if is_empty t.current then t.tokens else t.tokens ++ t.current ∷ [])
