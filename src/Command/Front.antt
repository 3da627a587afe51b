-- ===== src/Command/Front.antt =====
-- src/nanlang_cc.c, which stands in front of nanlang_cpp and leaves a compilation out where the output is
-- newer than the source. `modified` gives the time and the size of a file that is there.
use optimized_nan_lang.Base.{
  Bool-cases, Option-cases, same, eq_of_same, ℤ, ltb_ℤ, Bytes, codes, ℕ, refl, sym, ap, inl, inr,
  Bool, true, false, not, Option, none, some, List, [], ◌≡◌, ◌∙◌, ◌&&◌, ◌∷◌, ◌==◌, if◌then◌else◌,
}
use mathlib.Core.Path.{subst}
use optimized_nan_lang.Text.{after_prefix}
use optimized_nan_lang.Command.Main.{
  FastOptions, set_mode, set_out, fast_word, FastWord, mode_word, skipped_word, output_word,
  output_equals, fast_options, first_options,
}
use optimized_nan_lang.Command.Choices.{mode_step, skip_step, equals_step, output_step}
use optimized_nan_lang.Command.{parse_flag_output_mode}

-- Not for an unset or empty variable, nor for "0".
unfoldable pub flag_enabled : Option Bytes → Bool
unfolding same
flag_enabled none = false
flag_enabled (some []) = false
flag_enabled (some (c ∷ cs)) = not (same (c ∷ cs) (codes "0"))

-- The words behind the source; the path so far.
unfoldable pub output_path : Bytes → List Bytes → Bytes
unfolding same after_prefix
output_path out [] = out
output_path out (tok ∷ []) = elim (after_prefix (codes "--output=") tok) [
  | some path ↦ path
  | none ↦ out
]
output_path out (tok ∷ next ∷ rest) = elim (same tok (codes "--output")) [
  | true ↦ output_path next rest
  | false ↦
      output_path (elim (after_prefix (codes "--output=") tok) [ some path ↦ path | none ↦ out ])
        (next ∷ rest)
]

unfoldable pub parse_output_path : List Bytes → Bytes
unfolding output_path
parse_output_path words = output_path (codes "output.elf") words

-- The time of the last change, in seconds, and the size of a file that is there.
abbrev pub Stat : Type 0
Stat = Option (ℤ × ℕ)

-- The source, then the output.
unfoldable pub front_is_fresh : Stat → Stat → Bool
front_is_fresh (some (src_sec, src_size)) (some (out_sec, out_size)) =
    if out_size == 0 then false else not (ltb_ℤ out_sec src_sec)
front_is_fresh src out = false

-- What the words are answered by: nothing is done, or nanlang_cpp gets them.
pub data Handling : Type 0 where
  up_to_date : Handling
  delegated : List Bytes → Handling

unfoldable pub front_main : Option Bytes → (Bytes → Stat) → List Bytes → Handling
unfolding flag_enabled front_is_fresh parse_output_path same
front_main fast_cache stat (verb ∷ src ∷ words) =
    if same verb (codes "--compile")
      && (flag_enabled fast_cache && front_is_fresh (stat src) (stat (parse_output_path words)))
    then up_to_date
    else delegated (verb ∷ src ∷ words)
front_main fast_cache stat short = delegated short

-- What a word of nanlang_cpp is to the front.
abbrev Fits : FastWord → Bytes → Type 0
Fits output_word tok = same tok (codes "--output") ≡ true
Fits (output_equals out) tok =
    (same tok (codes "--output") ≡ false) × (after_prefix (codes "--output=") tok ≡ some out)
Fits other tok =
    (same tok (codes "--output") ≡ false) × (after_prefix (codes "--output=") tok ≡ none)

-- A word that is equal to one for which it is known.
fast_word-Fits-same :
    (tok word : Bytes)
    → same tok word ≡ true
    → Fits (fast_word word) word
    → Fits (fast_word tok) tok
fast_word-Fits-same tok word e fits =
    subst (λ t. Fits (fast_word t) t) (sym (eq_of_same tok word e)) fits

fast_word-Fits_other :
    (tok : Bytes)
    → parse_flag_output_mode tok ≡ none
    → same tok (codes "--aot") ≡ false
    → same tok (codes "--output") ≡ false
    → Fits (fast_word tok) tok
unfolding fast_word
fast_word-Fits_other tok mode not_aot not_output =
    elim (Option-cases (after_prefix (codes "--output=") tok)) [
      | inl e ↦
          let word : fast_word tok ≡ skipped_word =
            rw (mode, fast_word) (rw not_aot (rw not_output (rw e))) in
          subst (λ w. Fits w tok) (sym word) (not_output, e)
      | inr (out, e) ↦
          let word : fast_word tok ≡ output_equals out =
            rw (mode, fast_word) (rw not_aot (rw not_output (rw e))) in
          subst (λ w. Fits w tok) (sym word) (not_output, e)
    ]

fast_word-Fits : (tok : Bytes) → Fits (fast_word tok) tok
unfolding fast_word parse_flag_output_mode same after_prefix
fast_word-Fits tok = elim (Bool-cases (same tok (codes "--bin"))) [
  | inl e ↦ fast_word-Fits-same tok (codes "--bin") e (refl, refl)
  | inr a ↦ elim (Bool-cases (same tok (codes "--elf"))) [
    | inl e ↦ fast_word-Fits-same tok (codes "--elf") e (refl, refl)
    | inr b ↦ elim (Bool-cases (same tok (codes "--asm"))) [
      | inl e ↦ fast_word-Fits-same tok (codes "--asm") e (refl, refl)
      | inr c ↦ elim (Bool-cases (same tok (codes "--sh"))) [
        | inl e ↦ fast_word-Fits-same tok (codes "--sh") e (refl, refl)
        | inr d ↦ elim (Bool-cases (same tok (codes "--aot"))) [
          | inl e ↦ fast_word-Fits-same tok (codes "--aot") e (refl, refl)
          | inr f ↦ elim (Bool-cases (same tok (codes "--output"))) [
            | inl e ↦ fast_word-Fits-same tok (codes "--output") e refl
            | inr g ↦ fast_word-Fits_other tok (rw a (rw b (rw c (rw d)))) f g
          ]
        ]
      ]
    ]
  ]
]

-- A word that is not `--output`.
plain_path :
    (out tok : Bytes) (rest : List Bytes)
    → same tok (codes "--output") ≡ false
    → after_prefix (codes "--output=") tok ≡ none
    → output_path out (tok ∷ rest) ≡ output_path out rest
unfolding output_path
plain_path out tok [] a b = rw b
plain_path out tok (next ∷ rest) a b = rw (a, output_path) (rw b)

equals_path :
    (out tok path : Bytes) (rest : List Bytes)
    → same tok (codes "--output") ≡ false
    → after_prefix (codes "--output=") tok ≡ some path
    → output_path out (tok ∷ rest) ≡ output_path path rest
unfolding output_path
equals_path out tok path [] a b = rw b
equals_path out tok path (next ∷ rest) a b = rw (a, output_path) (rw b)

-- A word in front of words for which it is known; `at_output` is the case of `--output`.
module _ {result : FastOptions} (tok : Bytes) (rest : List Bytes) (o : FastOptions) where
  out-word :
      (word : FastWord)
      → fast_word tok ≡ word
      → Fits word tok
      → fast_options (tok ∷ rest) o ≡ some result
      → ((p : FastOptions)
          → fast_options rest p ≡ some result
          → result.out ≡ output_path p.out rest)
      → (same tok (codes "--output") ≡ true → result.out ≡ output_path o.out (tok ∷ rest))
      → result.out ≡ output_path o.out (tok ∷ rest)
  unfolding set_mode set_out
  out-word (mode_word mode) w (a, b) e ih at_output =
      ih (set_mode mode o) (sym (mode_step tok mode rest o w) ∙ e)
      ∙ sym (plain_path o.out tok rest a b)
  out-word skipped_word w (a, b) e ih at_output =
      ih o (sym (skip_step tok rest o w) ∙ e) ∙ sym (plain_path o.out tok rest a b)
  out-word (output_equals out) w (a, b) e ih at_output =
      ih (set_out out o) (sym (equals_step tok out rest o w) ∙ e)
      ∙ sym (equals_path o.out tok out rest a b)
  out-word output_word w a e ih at_output = at_output a

fast_word-output : (tok : Bytes) → same tok (codes "--output") ≡ true → fast_word tok ≡ output_word
unfolding fast_word parse_flag_output_mode same after_prefix
fast_word-output tok e = ap fast_word (eq_of_same tok (codes "--output") e)

out-fast_options :
    (words : List Bytes) (o result : FastOptions)
    → fast_options words o ≡ some result
    → result.out ≡ output_path o.out words
unfolding output_path set_out
out-fast_options [] o result e = unfold fast_options in cc e
out-fast_options (tok ∷ []) o result e =
    out-word tok [] o (fast_word tok) refl (fast_word-Fits tok) e
      (λ p. out-fast_options [] p result)
      (λ a.
        let none_left : fast_options (tok ∷ []) o ≡ none =
          unfold fast_options in rw (fast_word-output tok a, fast_options) in
        cc (none_left, e))
out-fast_options (tok ∷ next ∷ rest) o result e =
    out-word tok (next ∷ rest) o (fast_word tok) refl (fast_word-Fits tok) e
      (λ p. out-fast_options (next ∷ rest) p result)
      (λ a.
        out-fast_options rest (set_out next o) result
          (sym (output_step tok next rest o (fast_word-output tok a)) ∙ e)
        ∙ rw (a, output_path))

-- For every list of options that nanlang_cpp accepts behind `--compile src`, the output whose age
-- nanlang_cc looks at is the output to which nanlang_cpp compiles.
pub parse_output_path-fast_options :
    (words : List Bytes) (result : FastOptions)
    → fast_options words first_options ≡ some result
    → parse_output_path words ≡ result.out
unfolding parse_output_path
parse_output_path-fast_options words result e = sym (out-fast_options words first_options result e)
