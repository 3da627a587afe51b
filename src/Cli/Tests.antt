-- ===== src/Cli/Tests.antt =====
-- The command line tools on concrete inputs.
use optimized_nan_lang.Base.{
  same, drop, pos, Bytes, codes, refl, true, false, some, List, [], arith, ◌≡◌, ◌∷◌, ◌++◌,
}
use optimized_nan_lang.Npi.World.{World, Effect, made_temp, removed, ran, ◌>>=◌}
use optimized_nan_lang.Npi.Paths.{preprocess_source_file, resolve_cpp_command_path}
use optimized_nan_lang.Command.{is_value}
use optimized_nan_lang.Npi.Build.{BuildOptions, run_build}
use optimized_nan_lang.Npi.Build.DryRun.{changes, changes-run_build}
use optimized_nan_lang.Npi.Build.Refused.{main-compiler_args}
use optimized_nan_lang.Npi.Config.{default_config}
use optimized_nan_lang.Npi.Shell.{compiler_args}
use optimized_nan_lang.Npi.Quoted.{between, shell_words}
use optimized_nan_lang.Command.Choices.{
  Choice, modes, output_of, wants_bin, output, want_bin, choice_words,
}
use optimized_nan_lang.Command.Main.{
  compile_action, compile_to_binary, compile_to_elf, complain, invalid_arguments, main,
}
use optimized_nan_lang.Command.Entry.{main-compile}
use optimized_nan_lang.Command.Main.{fast_options, set_mode, set_out}
use optimized_nan_lang.Command.Front.{parse_output_path, parse_output_path-fast_options}
use optimized_nan_lang.Cache.{bin}
use optimized_nan_lang.Cli.Main.{nanlang_main}
use optimized_nan_lang.Cli.Tidy.{left_over, left_over-nanlang_main}
use optimized_nan_lang.Cli.Compile.{nanlang_main-compile}

-- A machine where everything is there and every command succeeds.
abbrev well : World
well = record {
  file_lines = λ path. some (codes "fmt@1" ∷ []);
  path_exists = λ path. true;
  refuses = λ path. false;
  environment = λ name. some (codes "/x");
  executable = codes "/bin/nanlang";
  temp_file = some (codes "/t");
  wait_status = λ command. pos 0;
  seconds = codes "0.5";
  lexically_normal = λ path. path;
}

abbrev choices : List Choice
choices = want_bin ∷ output (codes "o") ∷ []

-- An option in front of the source is what nanlang_cpp takes for the source.
options-first :
    main (λ path. false) (codes "compile" ∷ codes "--output" ∷ codes "o" ∷ codes "/t" ∷ [])
    ≡ compile_to_elf (codes "--output") (codes "output.elf")
unfolding main
options-first = refl

main-compile_example :
    (main (λ path. false) (codes "--compile" ∷ codes "s" ∷ choice_words choices)
      ≡ compile_to_binary (codes "s") (codes "o"))
    × (main (λ path. false) (codes "compile" ∷ codes "s" ∷ choice_words choices)
        ≡ compile_to_binary (codes "s") (codes "o"))
unfolding choice_words modes output_of wants_bin compile_action is_value same
main-compile_example =
    main-compile (λ path. false) (codes "s") choices refl (refl, tt) (omega arith)

main-compiler_args_example :
    main (λ path. false) (drop 1 (compiler_args default_config (codes "m") (codes "o")))
    ≡ complain invalid_arguments
unfolding is_value
main-compiler_args_example = main-compiler_args (λ path. false) (codes "m") (codes "o") refl refl

abbrev preview : BuildOptions
preview = record {
  req_path = codes "req.txt";
  conf_path = codes "npi.conf";
  dry_run = true;
  verbose = false;
  target_name = [];
}

changes-run_build_example :
    changes (run_build preview well (ran (codes "ls") ∷ [])).0 ≡ changes (ran (codes "ls") ∷ [])
changes-run_build_example = changes-run_build preview well (ran (codes "ls") ∷ []) refl

left_over-nanlang_main_example :
    left_over [] (nanlang_main (codes "compile" ∷ codes "s" ∷ []) well).0 ≡ []
left_over-nanlang_main_example = left_over-nanlang_main (codes "compile" ∷ codes "s" ∷ []) well

abbrev preprocessed : List Effect
preprocessed = made_temp (codes "/t") ∷ ran (codes "'/x/raku' '/x' 's' > '/t'") ∷ []

nanlang_main-compile_example :
    (command : Bytes) × (words : List Bytes) × ((nanlang_main
        (codes "compile" ∷ codes "s" ∷ choice_words choices)
        well).0
      ≡ preprocessed ++ ran command ∷ removed (codes "/t") ∷ [])
    × (shell_words between [] command ≡ some (codes "/x" ∷ words))
    × (main (λ path. false) words ≡ compile_to_binary (codes "/t") (codes "o"))
unfolding choice_words modes output_of wants_bin compile_action is_value same preprocess_source_file
    resolve_cpp_command_path ◌>>=◌
nanlang_main-compile_example =
    nanlang_main-compile well (codes "s") (codes "/t") (codes "/x") preprocessed preprocessed refl
      refl refl (λ path. false) choices refl refl (refl, tt) (omega arith) (omega arith)

parse_output_path-fast_options_example :
    parse_output_path (codes "--bin" ∷ codes "--output=o" ∷ codes "--aot" ∷ []) ≡ codes "o"
unfolding fast_options set_mode set_out
parse_output_path-fast_options_example =
    parse_output_path-fast_options (codes "--bin" ∷ codes "--output=o" ∷ codes "--aot" ∷ [])
      (record { out = codes "o"; mode = bin; mode_count = 1 }) refl
