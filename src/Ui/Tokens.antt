-- ===== src/Ui/Tokens.antt =====
-- `tokenize_ui_directive` reads back what `quote_for_log` writes.
use optimized_nan_lang.Base.{
  Bytes, is_space, ℕ, refl, true, false, List, [], append-nil, append_assoc, arith, ◌≡◌, ◌∙◌, ◌∷◌,
  ◌++◌,
}
use optimized_nan_lang.Text.{log_escape, log_body, quote_for_log}
use optimized_nan_lang.Ui.{
  Tokenizer, scan, string_step, escaped_step, plain_step, tokenize_ui_directive,
}

-- Inside a string, between two bytes.
abbrev inside : Bytes → List Bytes → Tokenizer
inside current tokens = record {
  in_string = true;
  escaped = false;
  current = current;
  tokens = tokens;
}

-- Between two tokens.
abbrev between : List Bytes → Tokenizer
between tokens = record { in_string = false; escaped = false; current = []; tokens = tokens }

scan-log_escape :
    (c : ℕ) (current rest : Bytes) (tokens : List Bytes)
    → scan (inside current tokens) (log_escape c ++ rest)
      ≡ scan (inside (current ++ c ∷ []) tokens) rest
unfolding log_escape scan string_step escaped_step
scan-log_escape c current rest tokens = ground arith

scan-log_body :
    (text current rest : Bytes) (tokens : List Bytes)
    → scan (inside current tokens) (log_body text ++ 0x22 ∷ rest)
      ≡ scan (between (tokens ++ (current ++ text) ∷ [])) rest
unfolding log_body
scan-log_body [] current rest tokens = unfold scan string_step in rw append-nil
scan-log_body (c ∷ cs) current rest tokens = rw (
  append_assoc (log_escape c) (log_body cs) (0x22 ∷ rest),
  scan-log_escape,
  scan-log_body cs,
  append_assoc,
)

-- The texts, each in quotes and with a space behind it.
pub quote_all : List Bytes → Bytes
unfolding quote_for_log
quote_all [] = []
quote_all (text ∷ texts) = quote_for_log text ++ 32 ∷ quote_all texts

scan-quoted :
    (text rest : Bytes) (tokens : List Bytes)
    → scan (between tokens) (quote_for_log text ++ 32 ∷ rest)
      ≡ scan (between (tokens ++ text ∷ [])) rest
unfolding quote_for_log
scan-quoted text rest tokens = opened ∙ (scan-log_body text [] (32 ∷ rest) tokens ∙ spaced)
  where
    opened :
        scan (between tokens) ((0x22 ∷ log_body text ++ 0x22 ∷ []) ++ 32 ∷ rest)
        ≡ scan (inside [] tokens) (log_body text ++ 0x22 ∷ 32 ∷ rest)
    opened = unfold scan plain_step in rw (append_assoc (log_body text) (0x22 ∷ []) (32 ∷ rest))

    spaced :
        scan (between (tokens ++ text ∷ [])) (32 ∷ rest) ≡ scan (between (tokens ++ text ∷ [])) rest
    spaced = unfold scan plain_step is_space in refl

scan-quote_all :
    (texts : List Bytes) (tokens : List Bytes)
    → scan (between tokens) (quote_all texts) ≡ between (tokens ++ texts)
unfolding quote_all
scan-quote_all [] tokens = unfold scan in rw append-nil
scan-quote_all (text ∷ texts) tokens = rw (scan-quoted, scan-quote_all texts, append_assoc)

-- Any texts at all, written in quotes with a space behind each, are the tokens that the tokenizer finds,
-- and it finds every string closed.
pub tokenize_ui_directive-quote_all :
    (texts : List Bytes) → tokenize_ui_directive (quote_all texts) ≡ (true, texts)
unfolding tokenize_ui_directive
tokenize_ui_directive-quote_all texts = rw (scan-quote_all texts [])
