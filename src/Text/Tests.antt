-- ===== src/Text/Tests.antt =====
-- Concrete lines.
use optimized_nan_lang.Base.{
  length, Bytes, codes, refl, false, some, arith, ◌≤◌, ◌≡◌, ◌⊎◌, ◌∷◌, ◌++◌,
}
use mathlib.Core.List.{reverse}
use optimized_nan_lang.Text.{trim, strip_line_comment, extract_quoted_string, quote_for_log}
use optimized_nan_lang.Text.Trim.{IsSpaces, StartsClean, trim_lem, trim-trim}
use optimized_nan_lang.Text.Comment.{lex_state, strip_line_comment_cases, strip_line_comment-cut}
use optimized_nan_lang.Text.Quote.{extract_quoted_string-quote_for_log}

abbrev padded : Bytes
padded = codes "  say \"a//b\" // c "

trim-padded :
    (pre post : Bytes) × (padded ≡ pre ++ (trim padded ++ post))
    × IsSpaces pre
    × IsSpaces post
    × StartsClean (trim padded)
    × StartsClean (reverse (trim padded))
trim-padded = trim_lem padded

trim-trim_example : trim (trim padded) ≡ trim padded
trim-trim_example = trim-trim padded

strip_line_comment-padded :
    (strip_line_comment padded ≡ padded)
    ⊎ ((rest : Bytes) × (padded ≡ strip_line_comment padded ++ 0x2f ∷ 0x2f ∷ rest)
        × (lex_state (false, false) (strip_line_comment padded) ≡ (false, false)))
strip_line_comment-padded = strip_line_comment_cases padded

-- The first `//` stands in a string, the second one does not.
padded-kept : strip_line_comment padded ≡ codes "  say \"a//b\" "
unfolding strip_line_comment
padded-kept = refl

padded-outside : lex_state (false, false) (codes "  say \"a//b\" ") ≡ (false, false)
unfolding lex_state
padded-outside = refl

length-padded : length (strip_line_comment padded) ≤ 13
length-padded = strip_line_comment-cut (codes "  say \"a//b\" ") (codes " c ") padded-outside

extract_quoted_string-quote_for_log_example :
    extract_quoted_string (codes "say " ++ (quote_for_log (codes "a\"b\\") ++ codes ";"))
    ≡ some (codes "a\"b\\")
extract_quoted_string-quote_for_log_example =
    extract_quoted_string-quote_for_log (codes "a\"b\\") (codes "say ") (codes ";")
      ((λ e. ground arith), ((λ e. ground arith), ((λ e. ground arith), ((λ e. ground arith), tt))))
