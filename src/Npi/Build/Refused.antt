-- ===== src/Npi/Build/Refused.antt =====
-- What nanlang_cpp makes of the words with which the package tool starts it.
use optimized_nan_lang.Base.{
  same, drop, Bytes, codes, is_space, refl, ap, Bool, true, [], ◌≡◌, ◌∙◌, ◌∷◌,
}
use optimized_nan_lang.Text.{after_prefix}
use optimized_nan_lang.Npi.Config.{default_config, assign}
use optimized_nan_lang.Npi.Shell.{compiler_args}
use optimized_nan_lang.Command.{
  is_value, set_value, parse, find, Args, classify, has, no_args, parse_words,
}
use optimized_nan_lang.Command.Entry.{value_step}
use optimized_nan_lang.Command.Main.{
  complain, invalid_arguments, fast_path_compile_run, args_action, main,
}

abbrev build_args : Bytes → Bytes → Args
build_args manifest out_path = record {
  kv =
      (codes "manifest", manifest) ∷ (codes "output", out_path) ∷ (codes "lib", codes "./lib") ∷ [];
  flags = [];
}

parse-compiler_args :
    (manifest out_path : Bytes)
    → is_value manifest ≡ true
    → is_value out_path ≡ true
    → parse (drop 1 (compiler_args default_config manifest out_path)) ≡ build_args manifest out_path
unfolding parse compiler_args is_space same classify after_prefix set_value assign
parse-compiler_args manifest out_path m o =
    value_step (codes "--manifest") (codes "manifest") manifest
      (codes "--output" ∷ out_path ∷ codes "--lib" ∷ codes "./lib" ∷ []) no_args refl m
    ∙ value_step (codes "--output") (codes "output") out_path (codes "--lib" ∷ codes "./lib" ∷ [])
        (set_value (codes "manifest") manifest no_args) refl o
    ∙ (unfold parse_words is_value in refl)

-- With the default configuration nanlang_cpp refuses the command line of a build, whatever the manifest and
-- the output are, as long as they do not begin with a dash: it has no word `build`.
pub main-compiler_args :
    (is_nan3 : Bytes → Bool) (manifest out_path : Bytes)
    → is_value manifest ≡ true
    → is_value out_path ≡ true
    → main is_nan3 (drop 1 (compiler_args default_config manifest out_path))
      ≡ complain invalid_arguments
unfolding main fast_path_compile_run args_action compiler_args same is_space find has
main-compiler_args is_nan3 manifest out_path m o =
    ap (args_action is_nan3) (parse-compiler_args manifest out_path m o)
