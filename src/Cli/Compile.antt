-- ===== src/Cli/Compile.antt =====
-- From `nanlang compile` to what nanlang_cpp does with the words that it gets.
use optimized_nan_lang.Base.{
  same, All, Bytes, codes, refl, ap, inr, Bool, true, false, some, List, [], append-nil,
  append_assoc, arith, ◌≤◌, ◌≡◌, ◌∙◌, ◌∷◌, ◌++◌,
}
use optimized_nan_lang.Npi.World.{World, Effect, made_temp, removed, ran, ◌>>=◌}
use optimized_nan_lang.Npi.Shell.{command_text}
use optimized_nan_lang.Npi.Quoted.{between, shell_words, IsText, shell_words-command_line}
use optimized_nan_lang.Npi.Build.{run_command, run_shell}
use optimized_nan_lang.Npi.Paths.{resolve_cpp_command_path, preprocess_source_file}
use optimized_nan_lang.Command.{is_value}
use optimized_nan_lang.Command.Choices.{
  Choice, choice_words, AreOutputs, modes, output_of, wants_bin,
}
use optimized_nan_lang.Command.Main.{compile_action, is_missing, main}
use optimized_nan_lang.Command.Entry.{main-compile}
use optimized_nan_lang.Cli.{
  source_index, find_compile_source_index, make_temp_preprocessed_file, finally_remove,
  compile_with, compile_at, run_compile_cmd,
}
use optimized_nan_lang.Cli.Main.{nanlang_command, nanlang_main}

-- A first argument that does not begin with a dash is the source.
find_source-first :
    (src : Bytes) (args : List Bytes)
    → is_value src ≡ true
    → find_compile_source_index (src ∷ args) ≡ some 0
unfolding find_compile_source_index source_index is_value same
find_source-first [] args h = refl
find_source-first (c ∷ cs) args h = ground arith

-- A temporary file, a source that is preprocessed and a compiler that is found.
module _ (w : World) (src temp cpp : Bytes) (before after : List Effect)
    (made : w.temp_file ≡ some temp)
    (preprocessed : preprocess_source_file src temp w (made_temp temp ∷ []) ≡ (before, inr tt))
    (found : resolve_cpp_command_path w before ≡ (after, inr cpp)) where
  compile_with-ran :
      (words : Bytes → List Bytes)
      → (compile_with src words w []).0
        ≡ after ++ ran (command_text (cpp ∷ words temp) true) ∷ removed temp ∷ []
  unfolding compile_with make_temp_preprocessed_file finally_remove run_command run_shell ◌>>=◌
  compile_with-ran words = simp made (
      rw preprocessed (
        rw found (
          append_assoc after (ran (command_text (cpp ∷ words temp) true) ∷ [])
            (removed temp ∷ []))))

  -- `nanlang compile src` with the source first, which does not begin with a dash, and behind it the words
  -- `--output x`, `--bin`, `--elf`, `--asm`, `--sh` and `--aot` in any number and order, but with at most one
  -- mode and no `x` that begins with a dash: where a temporary file with a name is made, the source is
  -- preprocessed without an error, nanlang_cpp is found, and no word of the command has a zero byte, it runs
  -- one command behind the preprocessor and removes the temporary file. The shell reads the command as the path of nanlang_cpp and words for which
  -- nanlang_cpp compiles the temporary file to the output that was asked for.
  pub nanlang_main-compile :
      (is_nan3 : Bytes → Bool) (choices : List Choice)
      → is_value src ≡ true
      → is_missing temp ≡ false
      → AreOutputs choices
      → modes choices ≤ 1
      → All IsText (cpp ∷ codes "compile" ∷ temp ∷ choice_words choices)
      → (command : Bytes) × (words : List Bytes) × ((nanlang_main
            (codes "compile" ∷ src ∷ choice_words choices)
            w).0
          ≡ after ++ ran command ∷ removed temp ∷ [])
        × (shell_words between [] command ≡ some (cpp ∷ words))
        × (main is_nan3 words
            ≡ compile_action (wants_bin choices) temp (output_of (codes "output.elf") choices))
  unfolding nanlang_main nanlang_command run_compile_cmd compile_at same command_text
  nanlang_main-compile is_nan3 choices s t outs one texts = (
    command_text (cpp ∷ words temp) true,
    words temp,
    rw (find_source-first src (choice_words choices) s) (compile_with-ran words),
    ap (shell_words between []) (append-nil _) ∙ shell_words-command_line (cpp ∷ words temp) texts,
    (main-compile is_nan3 temp choices t outs one).1,
  )
    where
      words : Bytes → List Bytes
      words t = codes "compile" ∷ t ∷ choice_words choices
