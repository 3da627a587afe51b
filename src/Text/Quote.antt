-- ===== src/Text/Quote.antt =====
-- `extract_quoted_string` reads back what `quote_for_log` writes.
use optimized_nan_lang.Base.{
  All, Bytes, ℕ, refl, ap, false, some, [], append-nil, append_assoc, arith, ◌≡◌, ◌∙◌, ◌≢◌, ◌∷◌,
  ◌++◌,
}
use optimized_nan_lang.Text.{unescape_string, read_quoted, extract_quoted_string}
use optimized_nan_lang.Text.{log_escape, log_body, quote_for_log}

-- One byte that is no backslash passes through.
unescape-plain : (c : ℕ) (cs : Bytes) → c ≢ 0x5c → unescape_string (c ∷ cs) ≡ c ∷ unescape_string cs
unfolding unescape_string
unescape-plain c [] h = refl
unescape-plain c (d ∷ cs) h = ground arith

unescape-log_escape :
    (c : ℕ) (cs : Bytes) → unescape_string (log_escape c ++ cs) ≡ c ∷ unescape_string cs
unfolding log_escape unescape_string
unescape-log_escape c cs = ground (arith, unescape-plain c cs)

pub unescape-log_body : (text : Bytes) → unescape_string (log_body text) ≡ text
unfolding log_body
unescape-log_body [] = unfold unescape_string in refl
unescape-log_body (c ∷ cs) =
    unescape-log_escape c (log_body cs) ∙ ap (λ r. c ∷ r) (unescape-log_body cs)

read-log_escape :
    (c : ℕ) (raw cs : Bytes)
    → read_quoted false raw (log_escape c ++ cs) ≡ read_quoted false (raw ++ log_escape c) cs
unfolding log_escape read_quoted
read-log_escape c raw cs = ground (
  arith,
  append_assoc raw (0x5c ∷ []) (0x5c ∷ []),
  append_assoc raw (0x5c ∷ []) (0x22 ∷ []),
  append_assoc raw (0x5c ∷ []) (0x6e ∷ []),
  append_assoc raw (0x5c ∷ []) (0x72 ∷ []),
  append_assoc raw (0x5c ∷ []) (0x74 ∷ []),
)

read-log_body :
    (text raw rest : Bytes)
    → read_quoted false raw (log_body text ++ 0x22 ∷ rest)
      ≡ some (unescape_string (raw ++ log_body text))
unfolding log_body
read-log_body [] raw rest = unfold read_quoted in rw append-nil
read-log_body (c ∷ cs) raw rest = rw (
  append_assoc (log_escape c) (log_body cs) (0x22 ∷ rest),
  read-log_escape,
  read-log_body cs,
  append_assoc,
)

skip-unquoted :
    (pre rest : Bytes)
    → All (λ c. c ≢ 0x22) pre
    → extract_quoted_string (pre ++ rest) ≡ extract_quoted_string rest
unfolding extract_quoted_string
skip-unquoted [] rest h = refl
skip-unquoted (c ∷ pre) rest h = ground (arith, skip-unquoted pre rest)

-- Behind a prefix with no quote, and whatever follows, `extract_quoted_string` finds the string that
-- `quote_for_log` wrote and returns the text it was made of.
pub extract_quoted_string-quote_for_log :
    (text pre rest : Bytes)
    → All (λ c. c ≢ 0x22) pre
    → extract_quoted_string (pre ++ (quote_for_log text ++ rest)) ≡ some text
extract_quoted_string-quote_for_log text pre rest h = skip-unquoted pre _ h ∙ found
  where
    found : extract_quoted_string (quote_for_log text ++ rest) ≡ some text
    found =
        unfold extract_quoted_string quote_for_log in
        rw (append_assoc (log_body text) (0x22 ∷ []) rest, read-log_body text [] rest)
          (ap some (unescape-log_body text))
