-- ===== src/Text/Lengths.antt =====
-- The line helpers make no line longer.
use optimized_nan_lang.Base.{
  length, length-append, Bytes, ℕ, suc, refl, Bool, true, false, Option, none, some, [], arith, ◌+◌,
  ◌≤◌, ◌≡◌, ◌∷◌, ◌++◌,
}
use mathlib.Core.List.{reverse, reverse-cons}
use optimized_nan_lang.Text.{
  skip_spaces, trim, comment_step, strip_from, strip_line_comment, normalize_source_line,
}
use optimized_nan_lang.Text.{escaped_bytes, unescape_string, read_quoted, extract_quoted_string}

length-reverse : (s : Bytes) → length (reverse s) ≡ length s
length-reverse [] = refl
length-reverse (c ∷ cs) = rw (reverse-cons, length-append) (omega (arith, length-reverse cs))

length-skip_spaces : (s : Bytes) → length (skip_spaces s) ≤ length s
unfolding skip_spaces
length-skip_spaces [] = omega arith
length-skip_spaces (c ∷ cs) = ground (arith, length-skip_spaces cs)

length-trim : (s : Bytes) → length (trim s) ≤ length s
unfolding trim
length-trim s = omega (
  arith,
  length-reverse (skip_spaces (reverse (skip_spaces s))),
  length-skip_spaces (reverse (skip_spaces s)),
  length-reverse (skip_spaces s),
  length-skip_spaces s,
)

length-strip_from : (q e : Bool) (s : Bytes) → length (strip_from q e s) ≤ length s
unfolding strip_from
length-strip_from q e [] = omega arith
length-strip_from q e (c ∷ []) = omega arith
length-strip_from q e (c ∷ d ∷ cs) =
    kept (comment_step q e c d) refl (λ q' e'. length-strip_from q' e' (d ∷ cs))
  where
    kept :
        (r : Option (Bool × Bool))
        → comment_step q e c d ≡ r
        → ((q' e' : Bool) → length (strip_from q' e' (d ∷ cs)) ≤ suc (length cs))
        → length (strip_from q e (c ∷ d ∷ cs)) ≤ suc (suc (length cs))
    kept none n ih = rw (n, strip_from) (omega arith)
    kept (some (q', e')) n ih = rw (n, strip_from) (omega (arith, ih q' e'))

pub length-normalize : (s : Bytes) → length (normalize_source_line s) ≤ length s
unfolding normalize_source_line
length-normalize s =
    omega (arith, length-trim (strip_line_comment s), length-strip_from false false s)

length-escaped : (n : ℕ) → length (escaped_bytes n) ≤ 2
unfolding escaped_bytes
length-escaped n = ground arith

length-unescape : (s : Bytes) → length (unescape_string s) ≤ length s
unfolding unescape_string
length-unescape [] = omega arith
length-unescape (c ∷ []) = omega arith
length-unescape (c ∷ n ∷ cs) = ground (
  arith,
  length-unescape (n ∷ cs),
  length-unescape cs,
  length-escaped n,
  length-append (escaped_bytes n) (unescape_string cs),
)

length-read_quoted :
    (e : Bool) (raw s : Bytes) {t : Bytes}
    → read_quoted e raw s ≡ some t
    → length t ≤ length raw + length s
unfolding read_quoted
length-read_quoted e raw [] h = ground arith
length-read_quoted e raw (c ∷ cs) {t} h = ground (
  arith,
  length-read_quoted false (raw ++ c ∷ []) cs {t = t},
  length-read_quoted true (raw ++ c ∷ []) cs {t = t},
  length-append raw (c ∷ []),
  length-unescape raw,
)

pub length-extract :
    (s : Bytes) {t : Bytes} → extract_quoted_string s ≡ some t → length t ≤ length s
unfolding extract_quoted_string
length-extract [] h = ground arith
length-extract (c ∷ cs) {t} h =
    ground (arith, length-read_quoted false [] cs {t = t}, length-extract cs {t = t})
