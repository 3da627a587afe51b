-- ===== src/Command/Tests.antt =====
-- The command line on concrete inputs.
use optimized_nan_lang.Base.{pos, Bytes, codes, is_space, refl, none, List, [], ◌≡◌, ◌∷◌}
use optimized_nan_lang.Command.{parse, get, get_int, resolve_compile_mode, parse_flag_output_mode}
use optimized_nan_lang.Command.Options.{option_words, last_value, get-parse}
use optimized_nan_lang.Command.{is_value}

abbrev words : List Bytes
words = codes "--run" ∷ codes "a.nan" ∷ codes "--bin" ∷ codes "--cores" ∷ codes "0x10" ∷ []

value-words : get (parse words) (codes "run") [] ≡ codes "a.nan"
unfolding parse get
value-words = refl

int-words : get_int (parse words) (codes "cores") (pos 1) ≡ pos 16
unfolding parse get_int is_space
int-words = refl

mode-words : resolve_compile_mode (parse words) ≡ parse_flag_output_mode (codes "--bin")
unfolding parse resolve_compile_mode parse_flag_output_mode
mode-words = refl

mode-two : resolve_compile_mode (parse (codes "--bin" ∷ codes "--sh" ∷ [])) ≡ none
unfolding parse resolve_compile_mode
mode-two = refl

abbrev options : List (Bytes × Bytes)
options = (codes "run", codes "a") ∷ (codes "out", codes "b") ∷ (codes "run", codes "c") ∷ []

values-parse : get (parse (option_words options)) (codes "run") [] ≡ codes "c"
unfolding last_value is_value
values-parse = get-parse options (codes "run") [] (refl, (refl, (refl, tt)))
