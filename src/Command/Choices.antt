-- ===== src/Command/Choices.antt =====
-- The options of a compilation as choices, and how `nanlang_cpp --compile` reads them.
use optimized_nan_lang.Base.{
  Bytes, codes, ℕ, refl, ap, Bool, true, false, some, List, [], arith, ◌+◌, ◌≤◌, ◌≡◌, ◌∙◌, ◌≢◌, ◌∷◌,
}
use optimized_nan_lang.Cache.{CompileOutputMode, bin, elf, asm, sh}
use optimized_nan_lang.Command.{is_value}
use optimized_nan_lang.Command.Main.{
  FastOptions, set_mode, set_out, fast_word, fast_options, first_options, is_bin, compile_action,
  fast_compile, mode_word, skipped_word, output_word, output_equals,
}

pub data Choice : Type 0 where
  output : Bytes → Choice
  want_bin want_elf want_asm want_sh aot : Choice

unfoldable pub choice_words : List Choice → List Bytes
choice_words [] = []
choice_words (output out ∷ choices) = codes "--output" ∷ out ∷ choice_words choices
choice_words (want_bin ∷ choices) = codes "--bin" ∷ choice_words choices
choice_words (want_elf ∷ choices) = codes "--elf" ∷ choice_words choices
choice_words (want_asm ∷ choices) = codes "--asm" ∷ choice_words choices
choice_words (want_sh ∷ choices) = codes "--sh" ∷ choice_words choices
choice_words (aot ∷ choices) = codes "--aot" ∷ choice_words choices

-- Outputs do not begin with a dash.
abbrev pub AreOutputs : List Choice → Type 0
AreOutputs [] = Unit
AreOutputs (output out ∷ choices) = (is_value out ≡ true) × AreOutputs choices
AreOutputs (other ∷ choices) = AreOutputs choices

unfoldable pub modes : List Choice → ℕ
modes [] = 0
modes (output out ∷ choices) = modes choices
modes (aot ∷ choices) = modes choices
modes (other ∷ choices) = modes choices + 1

-- Without `--output` the executable is "output.elf".
unfoldable pub output_of : Bytes → List Choice → Bytes
output_of out [] = out
output_of out (output next ∷ choices) = output_of next choices
output_of out (other ∷ choices) = output_of out choices

unfoldable pub wants_bin : List Choice → Bool
wants_bin [] = false
wants_bin (want_bin ∷ choices) = true
wants_bin (other ∷ choices) = wants_bin choices

abbrev apply_fast : Choice → FastOptions → FastOptions
apply_fast (output out) o = set_out out o
apply_fast want_bin o = set_mode bin o
apply_fast want_elf o = set_mode elf o
apply_fast want_asm o = set_mode asm o
apply_fast want_sh o = set_mode sh o
apply_fast aot o = o

abbrev apply_all : List Choice → FastOptions → FastOptions
apply_all [] o = o
apply_all (choice ∷ choices) o = apply_all choices (apply_fast choice o)

pub mode_step :
    (tok : Bytes) (mode : CompileOutputMode) (rest : List Bytes) (o : FastOptions)
    → fast_word tok ≡ mode_word mode
    → fast_options (tok ∷ rest) o ≡ fast_options rest (set_mode mode o)
unfolding fast_options
mode_step tok mode [] o e = rw (e, fast_options)
mode_step tok mode (next ∷ rest) o e = rw (e, fast_options)

pub skip_step :
    (tok : Bytes) (rest : List Bytes) (o : FastOptions)
    → fast_word tok ≡ skipped_word
    → fast_options (tok ∷ rest) o ≡ fast_options rest o
unfolding fast_options
skip_step tok [] o e = rw (e, fast_options)
skip_step tok (next ∷ rest) o e = rw (e, fast_options)

pub equals_step :
    (tok out : Bytes) (rest : List Bytes) (o : FastOptions)
    → fast_word tok ≡ output_equals out
    → fast_options (tok ∷ rest) o ≡ fast_options rest (set_out out o)
unfolding fast_options
equals_step tok out [] o e = rw (e, fast_options)
equals_step tok out (next ∷ rest) o e = rw (e, fast_options)

pub output_step :
    (tok out : Bytes) (rest : List Bytes) (o : FastOptions)
    → fast_word tok ≡ output_word
    → fast_options (tok ∷ out ∷ rest) o ≡ fast_options rest (set_out out o)
unfolding fast_options
output_step tok out rest o e = rw (e, fast_options)

fast_options-choice_words :
    (choices : List Choice) (o : FastOptions)
    → fast_options (choice_words choices) o ≡ some (apply_all choices o)
unfolding fast_word choice_words
fast_options-choice_words [] o = unfold fast_options in refl
fast_options-choice_words (output out ∷ choices) o =
    output_step (codes "--output") out _ o refl ∙ fast_options-choice_words choices (set_out out o)
fast_options-choice_words (want_bin ∷ choices) o =
    mode_step (codes "--bin") bin _ o refl ∙ fast_options-choice_words choices (set_mode bin o)
fast_options-choice_words (want_elf ∷ choices) o =
    mode_step (codes "--elf") elf _ o refl ∙ fast_options-choice_words choices (set_mode elf o)
fast_options-choice_words (want_asm ∷ choices) o =
    mode_step (codes "--asm") asm _ o refl ∙ fast_options-choice_words choices (set_mode asm o)
fast_options-choice_words (want_sh ∷ choices) o =
    mode_step (codes "--sh") sh _ o refl ∙ fast_options-choice_words choices (set_mode sh o)
fast_options-choice_words (aot ∷ choices) o =
    skip_step (codes "--aot") _ o refl ∙ fast_options-choice_words choices o

apply_all-out :
    (choices : List Choice) (o : FastOptions) → (apply_all choices o).out ≡ output_of o.out choices
unfolding output_of set_out set_mode
apply_all-out [] o = refl
apply_all-out (output out ∷ choices) o = apply_all-out choices _
apply_all-out (want_bin ∷ choices) o = apply_all-out choices _
apply_all-out (want_elf ∷ choices) o = apply_all-out choices _
apply_all-out (want_asm ∷ choices) o = apply_all-out choices _
apply_all-out (want_sh ∷ choices) o = apply_all-out choices _
apply_all-out (aot ∷ choices) o = apply_all-out choices o

apply_all-mode_count :
    (choices : List Choice) (o : FastOptions)
    → (apply_all choices o).mode_count ≡ o.mode_count + modes choices
unfolding modes set_out set_mode
apply_all-mode_count [] o = omega arith
apply_all-mode_count (output out ∷ choices) o =
    omega (arith, apply_all-mode_count choices (set_out out o))
apply_all-mode_count (want_bin ∷ choices) o =
    omega (arith, apply_all-mode_count choices (set_mode bin o))
apply_all-mode_count (want_elf ∷ choices) o =
    omega (arith, apply_all-mode_count choices (set_mode elf o))
apply_all-mode_count (want_asm ∷ choices) o =
    omega (arith, apply_all-mode_count choices (set_mode asm o))
apply_all-mode_count (want_sh ∷ choices) o =
    omega (arith, apply_all-mode_count choices (set_mode sh o))
apply_all-mode_count (aot ∷ choices) o = omega (arith, apply_all-mode_count choices o)

-- Without a mode among the choices, the mode stays.
apply_all-mode :
    (choices : List Choice) (o : FastOptions)
    → modes choices ≡ 0
    → ((apply_all choices o).mode ≡ o.mode) × (wants_bin choices ≡ false)
unfolding modes wants_bin set_out set_mode
apply_all-mode [] o h = (refl, refl)
apply_all-mode (output out ∷ choices) o h = apply_all-mode choices _ h
apply_all-mode (want_bin ∷ choices) o h = absurd (omega arith)
apply_all-mode (want_elf ∷ choices) o h = absurd (omega arith)
apply_all-mode (want_asm ∷ choices) o h = absurd (omega arith)
apply_all-mode (want_sh ∷ choices) o h = absurd (omega arith)
apply_all-mode (aot ∷ choices) o h = apply_all-mode choices o h

apply_all-is_bin :
    (choices : List Choice) (o : FastOptions)
    → modes choices ≤ 1
    → is_bin o.mode ≡ false
    → is_bin (apply_all choices o).mode ≡ wants_bin choices
unfolding modes wants_bin set_out set_mode
apply_all-is_bin [] o h e = e
apply_all-is_bin (output out ∷ choices) o h e = apply_all-is_bin choices _ h e
apply_all-is_bin (want_bin ∷ choices) o h e =
    ap is_bin (apply_all-mode choices (set_mode bin o) (omega arith)).0
apply_all-is_bin (want_elf ∷ choices) o h e =
    apply_all-is_bin choices (set_mode elf o) (omega arith) refl
apply_all-is_bin (want_asm ∷ choices) o h e =
    apply_all-is_bin choices (set_mode asm o) (omega arith) refl
apply_all-is_bin (want_sh ∷ choices) o h e =
    apply_all-is_bin choices (set_mode sh o) (omega arith) refl
apply_all-is_bin (aot ∷ choices) o h e = apply_all-is_bin choices o h e

-- `--compile` with at most one mode.
pub fast_compile-choice_words :
    (src : Bytes) (choices : List Choice)
    → src ≢ []
    → modes choices ≤ 1
    → fast_compile src (choice_words choices)
      ≡ compile_action (wants_bin choices) src (output_of (codes "output.elf") choices)
unfolding fast_compile
fast_compile-choice_words [] choices s h = absurd (s refl)
fast_compile-choice_words (c ∷ cs) choices s h =
    rw (fast_options-choice_words choices first_options) (
      rw (apply_all-mode_count choices first_options) (
        rw (apply_all-is_bin choices first_options h refl)
          (rw (apply_all-out choices first_options) (ground arith))))
