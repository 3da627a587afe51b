-- ===== src/Command/Entry.antt =====
-- `nanlang_cpp --compile` and `nanlang_cpp compile` have parsers of their own, which agree on options with
-- at most one mode.
use optimized_nan_lang.Base.{
  same, Bytes, codes, refl, sym, ap, Bool, true, false, List, [], ◌≤◌, ◌≡◌, ◌∙◌, ◌≢◌, ◌||◌, ◌∷◌,
}
use optimized_nan_lang.Npi.Config.{assign}
use optimized_nan_lang.Command.{
  Args, no_args, find, has, get, is_value, set_value, set_flag, classify, command, option,
  parse_words, parse,
}
use optimized_nan_lang.Command.Lookup.{has-set_value, has-set_flag, get-set_value, get-set_flag}
use mathlib.Core.Bool.{or-true, or-false}
use optimized_nan_lang.Command.Main.{
  compile_action, fast_path_compile_run, args_action, main, is_missing,
}
use optimized_nan_lang.Command.Choices.{
  Choice, output, want_bin, want_elf, want_asm, want_sh, aot, choice_words, AreOutputs, modes,
  output_of, wants_bin, fast_compile-choice_words,
}

-- The same choices as flags and values.
abbrev apply_args : Choice → Args → Args
apply_args (output out) a = set_value (codes "output") out a
apply_args want_bin a = set_flag (codes "bin") a
apply_args want_elf a = set_flag (codes "elf") a
apply_args want_asm a = set_flag (codes "asm") a
apply_args want_sh a = set_flag (codes "sh") a
apply_args aot a = set_flag (codes "aot") a

abbrev apply_all_args : List Choice → Args → Args
apply_all_args [] a = a
apply_all_args (choice ∷ choices) a = apply_all_args choices (apply_args choice a)

-- No word that an option would take as its value.
abbrev NextIsOption : List Bytes → Type 0
NextIsOption [] = Unit
NextIsOption (next ∷ rest) = is_value next ≡ false

choice_words-NextIsOption : (choices : List Choice) → NextIsOption (choice_words choices)
unfolding choice_words is_value
choice_words-NextIsOption [] = tt
choice_words-NextIsOption (output out ∷ choices) = refl
choice_words-NextIsOption (want_bin ∷ choices) = refl
choice_words-NextIsOption (want_elf ∷ choices) = refl
choice_words-NextIsOption (want_asm ∷ choices) = refl
choice_words-NextIsOption (want_sh ∷ choices) = refl
choice_words-NextIsOption (aot ∷ choices) = refl

flag_step :
    (tok key : Bytes) (rest : List Bytes) (a : Args)
    → classify tok ≡ option key
    → NextIsOption rest
    → parse_words (tok ∷ rest) a ≡ parse_words rest (set_flag key a)
unfolding parse_words
flag_step tok key [] a e h = rw (e, parse_words)
flag_step tok key (next ∷ rest) a e h = rw (e, parse_words) (rw h)

pub value_step :
    (tok key value : Bytes) (rest : List Bytes) (a : Args)
    → classify tok ≡ option key
    → is_value value ≡ true
    → parse_words (tok ∷ value ∷ rest) a ≡ parse_words rest (set_value key value a)
unfolding parse_words
value_step tok key value rest a e h = rw (e, parse_words) (rw h)

command_step :
    (tok name value : Bytes) (rest : List Bytes) (a : Args)
    → classify tok ≡ command name
    → parse_words (tok ∷ value ∷ rest) a ≡ parse_words rest (set_value name value a)
unfolding parse_words
command_step tok name value rest a e = rw (e, parse_words)

parse_words-choice_words :
    (choices : List Choice) (a : Args)
    → AreOutputs choices
    → parse_words (choice_words choices) a ≡ apply_all_args choices a
unfolding classify choice_words
parse_words-choice_words [] a h = unfold parse_words in refl
parse_words-choice_words (output out ∷ choices) a (v, h) =
    value_step (codes "--output") (codes "output") out _ a refl v
    ∙ parse_words-choice_words choices (set_value (codes "output") out a) h
parse_words-choice_words (want_bin ∷ choices) a h =
    flag_step (codes "--bin") (codes "bin") _ a refl (choice_words-NextIsOption choices)
    ∙ parse_words-choice_words choices (set_flag (codes "bin") a) h
parse_words-choice_words (want_elf ∷ choices) a h =
    flag_step (codes "--elf") (codes "elf") _ a refl (choice_words-NextIsOption choices)
    ∙ parse_words-choice_words choices (set_flag (codes "elf") a) h
parse_words-choice_words (want_asm ∷ choices) a h =
    flag_step (codes "--asm") (codes "asm") _ a refl (choice_words-NextIsOption choices)
    ∙ parse_words-choice_words choices (set_flag (codes "asm") a) h
parse_words-choice_words (want_sh ∷ choices) a h =
    flag_step (codes "--sh") (codes "sh") _ a refl (choice_words-NextIsOption choices)
    ∙ parse_words-choice_words choices (set_flag (codes "sh") a) h
parse_words-choice_words (aot ∷ choices) a h =
    flag_step (codes "--aot") (codes "aot") _ a refl (choice_words-NextIsOption choices)
    ∙ parse_words-choice_words choices (set_flag (codes "aot") a) h

-- A key that no choice sets.
abbrev IsOther : Bytes → Type 0
IsOther k =
    (same (codes "output") k ≡ false)
    × (same (codes "bin") k ≡ false)
    × (same (codes "elf") k ≡ false)
    × (same (codes "asm") k ≡ false)
    × (same (codes "sh") k ≡ false)
    × (same (codes "aot") k ≡ false)

has-apply_all :
    (choices : List Choice) (a : Args) (k : Bytes)
    → IsOther k
    → has (apply_all_args choices a) k ≡ has a k
has-apply_all [] a k h = refl
has-apply_all (choice ∷ choices) a k h =
    has-apply_all choices (apply_args choice a) k h ∙ one choice
  where
    one : (choice : Choice) → has (apply_args choice a) k ≡ has a k
    one (output out) = rw (has-set_value (codes "output") out k a) (rw h.0)
    one want_bin = rw (has-set_flag (codes "bin") k a) (rw h.1)
    one want_elf = rw (has-set_flag (codes "elf") k a) (rw h.2)
    one want_asm = rw (has-set_flag (codes "asm") k a) (rw h.3)
    one want_sh = rw (has-set_flag (codes "sh") k a) (rw h.4)
    one aot = rw (has-set_flag (codes "aot") k a) (rw h.5)

get-apply_all :
    (choices : List Choice) (a : Args) (k def : Bytes)
    → IsOther k
    → get (apply_all_args choices a) k def ≡ get a k def
get-apply_all [] a k def h = refl
get-apply_all (choice ∷ choices) a k def h =
    get-apply_all choices (apply_args choice a) k def h ∙ one choice
  where
    one : (choice : Choice) → get (apply_args choice a) k def ≡ get a k def
    one (output out) = rw (get-set_value (codes "output") out k def a) (rw h.0)
    one want_bin = get-set_flag (codes "bin") k def a
    one want_elf = get-set_flag (codes "elf") k def a
    one want_asm = get-set_flag (codes "asm") k def a
    one want_sh = get-set_flag (codes "sh") k def a
    one aot = get-set_flag (codes "aot") k def a

output-apply_all :
    (choices : List Choice) (a : Args) (def : Bytes)
    → get (apply_all_args choices a) (codes "output") def
      ≡ output_of (get a (codes "output") def) choices
unfolding output_of same
output-apply_all [] a def = refl
output-apply_all (output out ∷ choices) a def =
    output-apply_all choices (set_value (codes "output") out a) def
    ∙ ap (λ o. output_of o choices) (get-set_value (codes "output") out (codes "output") def a)
output-apply_all (want_bin ∷ choices) a def =
    output-apply_all choices _ def
    ∙ ap (λ o. output_of o choices) (get-set_flag (codes "bin") (codes "output") def a)
output-apply_all (want_elf ∷ choices) a def =
    output-apply_all choices _ def
    ∙ ap (λ o. output_of o choices) (get-set_flag (codes "elf") (codes "output") def a)
output-apply_all (want_asm ∷ choices) a def =
    output-apply_all choices _ def
    ∙ ap (λ o. output_of o choices) (get-set_flag (codes "asm") (codes "output") def a)
output-apply_all (want_sh ∷ choices) a def =
    output-apply_all choices _ def
    ∙ ap (λ o. output_of o choices) (get-set_flag (codes "sh") (codes "output") def a)
output-apply_all (aot ∷ choices) a def =
    output-apply_all choices _ def
    ∙ ap (λ o. output_of o choices) (get-set_flag (codes "aot") (codes "output") def a)

bin-apply_all :
    (choices : List Choice) (a : Args)
    → has (apply_all_args choices a) (codes "bin") ≡ (has a (codes "bin") || wants_bin choices)
unfolding wants_bin same
bin-apply_all [] a = sym (or-false _)
bin-apply_all (output out ∷ choices) a =
    bin-apply_all choices _
    ∙ ap (λ b. b || wants_bin choices) (has-set_value (codes "output") out (codes "bin") a)
bin-apply_all (want_bin ∷ choices) a =
    bin-apply_all choices _
    ∙ ap (λ b. b || wants_bin choices) (has-set_flag (codes "bin") (codes "bin") a)
    ∙ sym (or-true _)
bin-apply_all (want_elf ∷ choices) a =
    bin-apply_all choices _
    ∙ ap (λ b. b || wants_bin choices) (has-set_flag (codes "elf") (codes "bin") a)
bin-apply_all (want_asm ∷ choices) a =
    bin-apply_all choices _
    ∙ ap (λ b. b || wants_bin choices) (has-set_flag (codes "asm") (codes "bin") a)
bin-apply_all (want_sh ∷ choices) a =
    bin-apply_all choices _
    ∙ ap (λ b. b || wants_bin choices) (has-set_flag (codes "sh") (codes "bin") a)
bin-apply_all (aot ∷ choices) a =
    bin-apply_all choices _
    ∙ ap (λ b. b || wants_bin choices) (has-set_flag (codes "aot") (codes "bin") a)

-- The words of `compile src` with choices behind them.
compile_args : Bytes → List Choice → Args
unfolding set_value
compile_args src choices = apply_all_args choices (set_value (codes "compile") src no_args)

parse-compile :
    (src : Bytes) (choices : List Choice)
    → AreOutputs choices
    → parse (codes "compile" ∷ src ∷ choice_words choices) ≡ compile_args src choices
unfolding parse compile_args
parse-compile src choices h =
    command_step (codes "compile") (codes "compile") src (choice_words choices) no_args refl
    ∙ parse_words-choice_words choices _ h

-- What the arguments of a compilation answer.
module _ (src : Bytes) (choices : List Choice) where
  compile_others :
      (has (compile_args src choices) (codes "help") ≡ false)
      × (has (compile_args src choices) (codes "version") ≡ false)
      × (has (compile_args src choices) (codes "ui-render") ≡ false)
      × (has (compile_args src choices) (codes "compile") ≡ true)
  unfolding compile_args same has set_value assign find
  compile_others = (
    has-apply_all choices _ (codes "help") (refl, refl, refl, refl, refl, refl),
    has-apply_all choices _ (codes "version") (refl, refl, refl, refl, refl, refl),
    has-apply_all choices _ (codes "ui-render") (refl, refl, refl, refl, refl, refl),
    has-apply_all choices _ (codes "compile") (refl, refl, refl, refl, refl, refl),
  )

  compile_values :
      (get (compile_args src choices) (codes "compile") [] ≡ src)
      × (has (compile_args src choices) (codes "bin") ≡ wants_bin choices)
      × (get (compile_args src choices) (codes "output") (codes "output.elf")
          ≡ output_of (codes "output.elf") choices)
  unfolding compile_args same has get set_value assign find
  compile_values = (
    get-apply_all choices _ (codes "compile") [] (refl, refl, refl, refl, refl, refl),
    bin-apply_all choices _,
    output-apply_all choices _ (codes "output.elf"),
  )

  args_action-compile :
      (is_nan3 : Bytes → Bool)
      → is_missing src ≡ false
      → args_action is_nan3 (compile_args src choices)
        ≡ compile_action (wants_bin choices) src (output_of (codes "output.elf") choices)
  unfolding args_action same
  args_action-compile is_nan3 s =
      let (help, version, render, compile) = compile_others in
      let (source, binary, out) = compile_values in
      rw help (rw version (rw render (rw compile (rw source (rw s (rw binary (rw out)))))))

nonempty : (src : Bytes) → is_missing src ≡ false → src ≢ []
nonempty [] s = absurd (cc)
nonempty (c ∷ cs) s = cc

-- For a source that is not missing, with the words `--output x`, `--bin`, `--elf`, `--asm`, `--sh` and `--aot`
-- behind it in any number and order, but with at most one mode and no `x` that begins with a dash (the form
-- `--output=x` is not among them), `--compile src` and `compile src` make nanlang_cpp do the same: it compiles
-- the source, to a binary for `--bin` and else to an executable, under the name of the last `--output`, or
-- else "output.elf".
pub main-compile :
    (is_nan3 : Bytes → Bool) (src : Bytes) (choices : List Choice)
    → is_missing src ≡ false
    → AreOutputs choices
    → modes choices ≤ 1
    → (main is_nan3 (codes "--compile" ∷ src ∷ choice_words choices)
        ≡ compile_action (wants_bin choices) src (output_of (codes "output.elf") choices))
      × (main is_nan3 (codes "compile" ∷ src ∷ choice_words choices)
          ≡ compile_action (wants_bin choices) src (output_of (codes "output.elf") choices))
unfolding main fast_path_compile_run same
main-compile is_nan3 src choices s h m = (
  fast_compile-choice_words src choices (nonempty src s) m,
  ap (args_action is_nan3) (parse-compile src choices h)
      ∙ args_action-compile src choices is_nan3 s,
)
