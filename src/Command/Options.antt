-- ===== src/Command/Options.antt =====
-- Args::parse of src/nanlang_cpp.cpp reads options with values.
use optimized_nan_lang.Base.{
  same, All, Bytes, refl, ap, true, List, [], arith, ◌≡◌, ◌∙◌, ◌∷◌, if◌then◌else◌,
}
use optimized_nan_lang.Text.{after_prefix}
use optimized_nan_lang.Command.Lookup.{get-set_value}
use optimized_nan_lang.Command.{
  Args, no_args, get, parse, classify, is_value, set_value, parse_words,
}

-- The words `--key value` for each option.
abbrev pub option_words : List (Bytes × Bytes) → List Bytes
option_words [] = []
option_words ((key, value) ∷ options) = (0x2d ∷ 0x2d ∷ key) ∷ value ∷ option_words options

-- The value of the last option with the key; without one, the value given.
unfoldable pub last_value : List (Bytes × Bytes) → Bytes → Bytes → Bytes
unfolding same
last_value [] k v = v
last_value ((key, value) ∷ options) k v = last_value options k (if same key k then value else v)

abbrev pub AreValues : List (Bytes × Bytes) → Type 0
AreValues options = All (λ o. is_value (o.1) ≡ true) options

-- One option is read with its value.
option-step :
    (key value : Bytes) (rest : List Bytes) (a : Args)
    → is_value value ≡ true
    → parse_words ((0x2d ∷ 0x2d ∷ key) ∷ value ∷ rest) a ≡ parse_words rest (set_value key value a)
unfolding parse_words classify after_prefix
option-step key value rest a e = ground arith

-- Where options with values that do not begin with a dash are read, each key has the value of its last
-- option, and a key without an option has the value that it had.
pub get-parse_words :
    (options : List (Bytes × Bytes)) (a : Args) (k def : Bytes)
    → AreValues options
    → get (parse_words (option_words options) a) k def ≡ last_value options k (get a k def)
unfolding parse_words last_value
get-parse_words [] a k def values = refl
get-parse_words ((key, value) ∷ options) a k def (v, values) =
    ap (λ b. get b k def) (option-step key value (option_words options) a v)
    ∙ get-parse_words options (set_value key value a) k def values
    ∙ ap (last_value options k) (get-set_value key value k def a)

-- Where the words are options, each a key behind two dashes and a value that does not begin with a dash,
-- Args::parse gives each key the value of its last option, and Args::get falls back to its default for the
-- other keys.
pub get-parse :
    (options : List (Bytes × Bytes)) (k def : Bytes)
    → AreValues options
    → get (parse (option_words options)) k def ≡ last_value options k def
unfolding parse get
get-parse options k def values = get-parse_words options no_args k def values
