-- ===== src/Cli/Tidy.antt =====
-- The temporary file of src/nanlang_cli.cpp is removed on every path.
use optimized_nan_lang.Base.{
  same, same_refl, Bytes, ℕ, refl, ap, true, Option, none, some, List, [], ◌≡◌, ◌∙◌, ◌∷◌, ◌++◌,
  if◌then◌else◌,
}
use optimized_nan_lang.Npi.Build.{run_command, config_path}
use optimized_nan_lang.Npi.Build.Plain.{IsPlain, run_command-Keeps, require-Keeps, run_build-Keeps}
use optimized_nan_lang.Npi.Paths.{resolve_cpp_command_path, preprocess_source_file}
use optimized_nan_lang.Npi.Paths.Found.{resolve_cpp-Keeps, preprocess-Keeps}
use optimized_nan_lang.Cli.{
  conf_or_path, preview_packages, compile_at, finally_remove, make_temp_preprocessed_file,
  compile_with, run_pkg, run_build_cmd, run_compile_cmd, delegate_cpp, find_compile_source_index,
  Run, ◌>>=◌,
}
use optimized_nan_lang.Cli.Main.{print_lines, nanlang_help, nanlang_command, nanlang_main}
use optimized_nan_lang.Npi.World.{
  World, Effect, said, made_directories, made_temp, removed, ran, wrote, Run, ◌>>=◌, ◌>>◌, act,
  missing_source,
}
use optimized_nan_lang.Npi.Keeps.{
  Keeps, Keeps-bind, Keeps-return, Keeps-throw, Keeps-asks, keeps_rules,
}

-- The temporary files that are left, the newest first.
without : Bytes → List Bytes → List Bytes
without path [] = []
without path (p ∷ ps) = let later = p ∷ without path ps in if same p path then ps else later

unfoldable pub left_over : List Bytes → List Effect → List Bytes
unfolding without
left_over open_files [] = open_files
left_over open_files (made_temp path ∷ log) = left_over (path ∷ open_files) log
left_over open_files (removed path ∷ log) = left_over (without path open_files) log
left_over open_files (other ∷ log) = left_over open_files log

left_over-append :
    (open_files : List Bytes) (log more : List Effect)
    → left_over open_files (log ++ more) ≡ left_over (left_over open_files log) more
unfolding left_over
left_over-append open_files [] more = refl
left_over-append open_files (said x ∷ log) more = left_over-append open_files log more
left_over-append open_files (made_directories x ∷ log) more = left_over-append open_files log more
left_over-append open_files (made_temp x ∷ log) more = left_over-append (x ∷ open_files) log more
left_over-append open_files (removed x ∷ log) more =
    left_over-append (without x open_files) log more
left_over-append open_files (ran x ∷ log) more = left_over-append open_files log more
left_over-append open_files (wrote x y ∷ log) more = left_over-append open_files log more

abbrev Leaves : List Bytes → List Effect → Type 0
Leaves files log = left_over [] log ≡ files

module _ {files : List Bytes} where
  Keeps-said : (text : Bytes) → Keeps (Leaves files) (act (said text))
  unfolding act left_over
  Keeps-said text = record { at = λ w log h. left_over-append [] log _ ∙ h }

  Keeps-ran : (text : Bytes) → Keeps (Leaves files) (act (ran text))
  unfolding act left_over
  Keeps-ran text = record { at = λ w log h. left_over-append [] log _ ∙ h }

  Keeps-made_directories : (path : Bytes) → Keeps (Leaves files) (act (made_directories path))
  unfolding act left_over
  Keeps-made_directories path = record { at = λ w log h. left_over-append [] log _ ∙ h }

  Keeps-wrote : (path text : Bytes) → Keeps (Leaves files) (act (wrote path text))
  unfolding act left_over
  Keeps-wrote path text = record { at = λ w log h. left_over-append [] log _ ∙ h }

ruleset tidy_rules = (keeps_rules, Keeps-said, Keeps-ran, Keeps-made_directories, Keeps-wrote)

Leaves-IsPlain : (files : List Bytes) → IsPlain (Leaves files)
Leaves-IsPlain files = record {
  after_said = Keeps-said;
  after_ran = Keeps-ran;
  after_made = Keeps-made_directories;
  after_wrote = Keeps-wrote;
}

without_self : (path : Bytes) (files : List Bytes) → without path (path ∷ files) ≡ files
unfolding without
without_self path files = rw (same_refl path)

-- What the temporary file is made for leaves it alone, and so it is the one that is removed.
finally-Leaves :
    {A : Type 0} (temp : Bytes) (files : List Bytes) (m : Run A) (w : World) (log : List Effect)
    → Keeps (Leaves (temp ∷ files)) m
    → Leaves files log
    → Leaves files (finally_remove temp m w (log ++ made_temp temp ∷ [])).0
unfolding finally_remove left_over
finally-Leaves temp files m w log km h =
    let made : left_over [] (log ++ made_temp temp ∷ []) ≡ temp ∷ files =
      left_over-append [] log (made_temp temp ∷ []) ∙ ap (λ l. temp ∷ l) h in
    let (log', result) = m w (log ++ made_temp temp ∷ []) in
    left_over-append [] log' (removed temp ∷ [])
    ∙ ap (without temp) (km.at w (log ++ made_temp temp ∷ []) made)
    ∙ without_self temp files

module _ {files : List Bytes} where
  body-Keeps :
      (src temp : Bytes) (words : List Bytes)
      → Keeps (Leaves files) (do
        preprocess_source_file src temp
        cpp ← resolve_cpp_command_path
        run_command (cpp ∷ words) true)
  body-Keeps src temp words =
      search
        (
          keeps_rules,
          preprocess-Keeps (Leaves-IsPlain files),
          resolve_cpp-Keeps,
          run_command-Keeps (Leaves-IsPlain files),
        )
        depth 20

module _ {files : List Bytes} where
  -- With a temporary file, or without one.
  compile_with-Leaves :
      (src : Bytes) (words : Bytes → List Bytes) (w : World) (log : List Effect)
      (temp : Option Bytes)
      → w.temp_file ≡ temp
      → Leaves files log
      → Leaves files (compile_with src words w log).0
  unfolding compile_with make_temp_preprocessed_file ◌>>=◌
  compile_with-Leaves src words w log none e h = simp e h
  compile_with-Leaves src words w log (some t) e h =
      simp e (finally-Leaves t files _ w log (body-Keeps {files = t ∷ files} src t (words t)) h)

  compile_with-Keeps :
      (src : Bytes) (words : Bytes → List Bytes) → Keeps (Leaves files) (compile_with src words)
  compile_with-Keeps src words = record {
    at = λ w log h. compile_with-Leaves src words w log w.temp_file refl h;
  }

  config-Keeps : (conf : Option Bytes) → Keeps (Leaves files) (conf_or_path conf)
  unfolding conf_or_path config_path
  config-Keeps none = Keeps-asks _
  config-Keeps (some conf) = Keeps-return conf

  run_pkg-Keeps : (args : List Bytes) → Keeps (Leaves files) (run_pkg args)
  unfolding run_pkg
  run_pkg-Keeps args = Keeps-bind _ _ (require-Keeps (Leaves-IsPlain files) _ _) (λ _.
      Keeps-bind _ _ (config-Keeps _)
        (λ conf. Keeps-bind _ _ (run_build-Keeps (Leaves-IsPlain files) _) (λ _. Keeps-return 0)))

  preview-Keeps : (req : Bytes) → Keeps (Leaves files) (preview_packages req)
  unfolding preview_packages
  preview-Keeps [] = Keeps-return 0
  preview-Keeps (c ∷ cs) = run_pkg-Keeps _

  run_build_cmd-Keeps : (args : List Bytes) → Keeps (Leaves files) (run_build_cmd args)
  unfolding run_build_cmd
  run_build_cmd-Keeps args =
      Keeps-bind _ _ (require-Keeps (Leaves-IsPlain files) _ _)
        (λ _. Keeps-bind _ _ (preview-Keeps _) (λ _. compile_with-Keeps _ _))

  compile_at-Keeps : (args : List Bytes) (i : Option ℕ) → Keeps (Leaves files) (compile_at args i)
  unfolding compile_at
  compile_at-Keeps args none = Keeps-throw missing_source
  compile_at-Keeps args (some i) = compile_with-Keeps _ _

  run_compile_cmd-Keeps : (args : List Bytes) → Keeps (Leaves files) (run_compile_cmd args)
  unfolding run_compile_cmd
  run_compile_cmd-Keeps args = compile_at-Keeps args (find_compile_source_index args)

  delegate-Keeps :
      (verb : Bytes) (args : List Bytes) → Keeps (Leaves files) (delegate_cpp verb args)
  unfolding delegate_cpp
  delegate-Keeps verb args =
      search (keeps_rules, resolve_cpp-Keeps, run_command-Keeps (Leaves-IsPlain files)) depth 20

  print_lines-Keeps : (lines : List Bytes) → Keeps (Leaves files) (print_lines lines)
  unfolding print_lines
  print_lines-Keeps [] = Keeps-return tt
  print_lines-Keeps (line ∷ lines) = Keeps-bind _ _ (Keeps-said _) (λ _. print_lines-Keeps lines)

  nanlang_command-Keeps :
      (cmd : Bytes) (args : List Bytes) → Keeps (Leaves files) (nanlang_command cmd args)
  unfolding nanlang_command
  nanlang_command-Keeps cmd args =
      search
        (
          keeps_rules, print_lines-Keeps, Keeps-said, run_pkg-Keeps, run_build_cmd-Keeps,
          run_compile_cmd-Keeps, delegate-Keeps,
        )
        depth 20

-- Whatever the system answers and however `nanlang` ends, also by an exception, every temporary file that it
-- made is removed.
pub left_over-nanlang_main :
    (argv : List Bytes) (w : World) → left_over [] (nanlang_main argv w).0 ≡ []
unfolding nanlang_main
left_over-nanlang_main [] w = (print_lines-Keeps nanlang_help).at w [] (unfold left_over in refl)
left_over-nanlang_main (cmd ∷ args) w =
    (nanlang_command-Keeps cmd args).at w [] (unfold left_over in refl)
