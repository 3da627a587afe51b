-- ===== src/Text.antt =====
-- The line helpers of src/nanlang_cpp.cpp: trimming, comments, keywords, quoted strings.
-- A `std::string` is the list of its bytes.
pub mod Trim
pub mod Comment
pub mod Quote
pub mod Numbers
pub mod Ints
pub mod Decimal
pub mod Lengths
mod Tests
use optimized_nan_lang.Base.{
  Bytes, is_space, ℕ, Bool, true, false, not, Option, none, some, List, [], ◌&&◌, ◌||◌, ◌∷◌, ◌++◌,
  ◌==◌, if◌then◌else◌,
}
use mathlib.Core.List.{reverse}

-- `while (b < s.size() && isspace(s[b])) ++b;`
unfoldable pub skip_spaces : Bytes → Bytes
skip_spaces [] = []
skip_spaces (c ∷ cs) = if is_space c then skip_spaces cs else c ∷ cs

-- The second loop walks back from the end.
unfoldable pub trim : Bytes → Bytes
unfolding skip_spaces
trim s = reverse (skip_spaces (reverse (skip_spaces s)))

-- One round of the loop at `c` with `next` after it: `none` cuts the line here, `some` carries
-- `in_string` and `escaped` on.
pub comment_step : Bool → Bool → ℕ → ℕ → Option (Bool × Bool)
comment_step in_string escaped c next =
    if escaped
    then some (in_string, false)
    else if c == 0x5c && in_string
    then some (in_string, true)
    else if c == 0x22
    then some (not in_string, false)
    else if not in_string && c == 0x2f && next == 0x2f
    then none
    else some (in_string, false)

-- The loop runs while `i + 1 < in.size()`, so the last byte is never looked at.
pub strip_from : Bool → Bool → Bytes → Bytes
unfolding comment_step
strip_from in_string escaped [] = []
strip_from in_string escaped (c ∷ []) = c ∷ []
strip_from in_string escaped (c ∷ next ∷ cs) = elim (comment_step in_string escaped c next) [
  | none ↦ []
  | some (q, e) ↦ c ∷ strip_from q e (next ∷ cs)
]

pub strip_line_comment : Bytes → Bytes
unfolding strip_from
strip_line_comment s = strip_from false false s

unfoldable pub normalize_source_line : Bytes → Bytes
unfolding strip_line_comment trim
normalize_source_line line = trim (strip_line_comment line)

-- What follows the prefix `kw` of `line`: `line.rfind(kw, 0) == 0`.
unfoldable pub after_prefix : Bytes → Bytes → Option Bytes
after_prefix [] line = some line
after_prefix (k ∷ ks) [] = none
after_prefix (k ∷ ks) (c ∷ cs) = if k == c then after_prefix ks cs else none

ends_keyword : Bytes → Bool
ends_keyword [] = true
ends_keyword (c ∷ cs) = is_space c || c == 0x3b

unfoldable pub starts_with_keyword : Bytes → Bytes → Bool
unfolding after_prefix ends_keyword is_space
starts_with_keyword line kw = elim (after_prefix kw line) [
  | none ↦ false
  | some rest ↦ ends_keyword rest
]

-- The byte that `\n` stands for, or `none` where the switch has no case for it.
pub escape_value : ℕ → Option ℕ
escape_value n =
    if n == 0x6e
    then some 10
    else if n == 0x74
    then some 9
    else if n == 0x72
    then some 13
    else if n == 0x22
    then some 0x22
    else if n == 0x5c
    then some 0x5c
    else if n == 0x30
    then some 0
    else none

escaped_bytes : ℕ → Bytes
unfolding escape_value
escaped_bytes n = elim (escape_value n) [ none ↦ 0x5c ∷ n ∷ [] | some v ↦ v ∷ [] ]

-- A trailing backslash is kept.
pub unescape_string : Bytes → Bytes
unfolding escaped_bytes
unescape_string [] = []
unescape_string (c ∷ []) = c ∷ []
unescape_string (c ∷ n ∷ cs) = elim (c == 0x5c) [
  | false ↦ c ∷ unescape_string (n ∷ cs)
  | true ↦ escaped_bytes n ++ unescape_string cs
]

-- Inside the string; `raw` is what was read so far.
pub read_quoted : Bool → Bytes → Bytes → Option Bytes
unfolding unescape_string
read_quoted escaped raw [] = none
read_quoted escaped raw (c ∷ cs) = elim escaped [
  | true ↦ read_quoted false (raw ++ c ∷ []) cs
  | false ↦ elim (c == 0x5c) [
    | true ↦ read_quoted true (raw ++ c ∷ []) cs
    | false ↦ elim (c == 0x22) [
      | true ↦ some (unescape_string raw)
      | false ↦ read_quoted false (raw ++ c ∷ []) cs
    ]
  ]
]

-- `none` is the result `false`.
unfoldable pub extract_quoted_string : Bytes → Option Bytes
unfolding read_quoted
extract_quoted_string [] = none
extract_quoted_string (c ∷ cs) =
    if c == 0x22 then read_quoted false [] cs else extract_quoted_string cs

unfoldable pub log_escape : ℕ → Bytes
log_escape c =
    if c == 0x5c
    then 0x5c ∷ 0x5c ∷ []
    else if c == 0x22
    then 0x5c ∷ 0x22 ∷ []
    else if c == 10
    then 0x5c ∷ 0x6e ∷ []
    else if c == 13
    then 0x5c ∷ 0x72 ∷ []
    else if c == 9
    then 0x5c ∷ 0x74 ∷ []
    else c ∷ []

unfoldable pub log_body : Bytes → Bytes
unfolding log_escape
log_body [] = []
log_body (c ∷ cs) = log_escape c ++ log_body cs

unfoldable pub quote_for_log : Bytes → Bytes
unfolding log_body
quote_for_log text = 0x22 ∷ log_body text ++ 0x22 ∷ []

-- `std::getline` to the end of the file: a last newline begins no further line.
add_front : ℕ → List Bytes → List Bytes
add_front c [] = (c ∷ []) ∷ []
add_front c (l ∷ ls) = (c ∷ l) ∷ ls

unfoldable pub get_lines : Bytes → List Bytes
unfolding add_front
get_lines [] = []
get_lines (c ∷ cs) = let ls = get_lines cs in if c == 10 then [] ∷ ls else add_front c ls
