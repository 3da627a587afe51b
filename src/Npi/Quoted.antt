-- ===== src/Npi/Quoted.antt =====
-- The shell reads the words of a command line as the arguments that it was made of. The reader follows the
-- quoting rules of the POSIX shell for quoted words; bare text, and what double quotes expand, it refuses. It
-- is a specification and no part of the program.
use optimized_nan_lang.Base.{
  ==_iff, Bool-cases, All, Bytes, ℕ, refl, sym, ap, inl, inr, Bool, true, false, Option, none, some,
  List, [], append-nil, append_assoc, arith, ◌≡◌, ◌∙◌, ◌≢◌, ◌||◌, ◌∷◌, ◌++◌, ◌==◌, if◌then◌else◌,
}
use optimized_nan_lang.Npi.Shell.{quoted_byte, quoted_body, shell_quote, command_line}

-- Between words, in a word outside quotes, and inside the two kinds of quotes.
pub data Mode : Type 0 where
  between joined single double : Mode

-- `current` is the word begun. The text ends at a zero byte, so the reader refuses one.
unfoldable pub shell_words : Mode → Bytes → Bytes → Option (List Bytes)
shell_words between current [] = some []
shell_words joined current [] = some (current ∷ [])
shell_words single current [] = none
shell_words double current [] = none
shell_words between current (c ∷ cs) =
    if c == 0x20
    then shell_words between [] cs
    else if c == 0x27
    then shell_words single [] cs
    else if c == 0x22
    then shell_words double [] cs
    else none
shell_words joined current (c ∷ cs) =
    if c == 0x20
    then elim (shell_words between [] cs) [ none ↦ none | some words ↦ some (current ∷ words) ]
    else if c == 0x27
    then shell_words single current cs
    else if c == 0x22
    then shell_words double current cs
    else none
shell_words single current (c ∷ cs) =
    if c == 0x27
    then shell_words joined current cs
    else if c == 0
    then none
    else shell_words single (current ++ c ∷ []) cs
shell_words double current (c ∷ cs) =
    if c == 0x22
    then shell_words joined current cs
    else if c == 0 || (c == 0x24 || (c == 0x60 || c == 0x5c))
    then none
    else shell_words double (current ++ c ∷ []) cs

-- No zero byte.
abbrev pub IsText : Bytes → Type 0
IsText s = All (λ c. c ≢ 0) s

-- The third branch.
if-neither {ℓ} :
    {A : Type ℓ} (a b : Bool) (x y z : A)
    → a ≡ false
    → b ≡ false
    → (if a then x else if b then y else z) ≡ z
if-neither true b x y z e f = ground arith
if-neither false true x y z e f = ground arith
if-neither false false x y z e f = refl

single-plain :
    (c : ℕ) (current rest : Bytes)
    → (c == 0x27) ≡ false
    → (c == 0) ≡ false
    → shell_words single current (c ∷ rest) ≡ shell_words single (current ++ c ∷ []) rest
unfolding shell_words
single-plain c current rest e f = if-neither (c == 0x27) (c == 0) _ _ _ e f

single-mark :
    (current rest : Bytes)
    → shell_words single current (quoted_byte 0x27 ++ rest)
      ≡ shell_words single (current ++ 0x27 ∷ []) rest
unfolding shell_words quoted_byte
single-mark current rest = refl

quoted_byte-plain : (c : ℕ) → (c == 0x27) ≡ false → quoted_byte c ≡ c ∷ []
unfolding quoted_byte
quoted_byte-plain c e = rw e refl

single-quoted_byte :
    (c : ℕ) (current rest : Bytes)
    → c ≢ 0
    → shell_words single current (quoted_byte c ++ rest)
      ≡ shell_words single (current ++ c ∷ []) rest
single-quoted_byte c current rest h = elim (Bool-cases (c == 0x27)) [
  | inl e ↦ rw ((==_iff c 0x27).0 e) (single-mark current rest)
  | inr e ↦
      ap (λ q. shell_words single current (q ++ rest)) (quoted_byte-plain c e)
      ∙ single-plain c current rest e (ground (arith, h))
]

single-quoted_body :
    (s current rest : Bytes)
    → IsText s
    → shell_words single current (quoted_body s ++ 0x27 ∷ rest)
      ≡ shell_words joined (current ++ s) rest
unfolding quoted_body
single-quoted_body [] current rest h = unfold shell_words in rw append-nil
single-quoted_body (c ∷ cs) current rest (h, hs) =
    ap (shell_words single current) (append_assoc (quoted_byte c) (quoted_body cs) (0x27 ∷ rest))
    ∙ single-quoted_byte c current (quoted_body cs ++ 0x27 ∷ rest) h
    ∙ single-quoted_body cs (current ++ c ∷ []) rest hs
    ∙ ap (λ w. shell_words joined w rest) (append_assoc current (c ∷ []) cs)

between-shell_quote :
    (s rest : Bytes)
    → IsText s
    → shell_words between [] (shell_quote s ++ rest) ≡ shell_words joined s rest
unfolding shell_quote
between-shell_quote s rest h = opened ∙ single-quoted_body s [] rest h
  where
    opened :
        shell_words between [] ((0x27 ∷ quoted_body s ++ 0x27 ∷ []) ++ rest)
        ≡ shell_words single [] (quoted_body s ++ 0x27 ∷ rest)
    opened = unfold shell_words in rw (append_assoc (quoted_body s) (0x27 ∷ []) rest)

-- Arguments without a zero byte, whatever else they hold, are the words that the shell reads: none is
-- split, expanded or joined to another.
pub shell_words-command_line :
    (args : List Bytes) → All IsText args → shell_words between [] (command_line args) ≡ some args
unfolding command_line
shell_words-command_line [] h = unfold shell_words in refl
shell_words-command_line (arg ∷ []) (h, _) =
    ap (shell_words between []) (sym (append-nil (shell_quote arg)))
    ∙ between-shell_quote arg [] h
    ∙ (unfold shell_words in refl)
shell_words-command_line (arg ∷ next ∷ args) (h, hs) =
    between-shell_quote arg (32 ∷ command_line (next ∷ args)) h
    ∙ spaced (shell_words-command_line (next ∷ args) hs)
  where
    spaced :
        shell_words between [] (command_line (next ∷ args)) ≡ some (next ∷ args)
        → shell_words joined arg (32 ∷ command_line (next ∷ args)) ≡ some (arg ∷ next ∷ args)
    spaced e = unfold shell_words in rw e
