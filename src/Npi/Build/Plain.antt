-- ===== src/Npi/Build/Plain.antt =====
-- What holds of the effects of run_build and of the programs that it looks for, whatever is asked of them:
-- they make no temporary file and remove none.
use optimized_nan_lang.Base.{Bytes, Bool, List, [], ◌∷◌}
use optimized_nan_lang.Npi.{PackageEntry}
use optimized_nan_lang.Npi.Config.{ConfigMap}
use optimized_nan_lang.Npi.World.{
  Effect, said, made_directories, ran, wrote, Failure, Run, return, act, create_directories,
}
use optimized_nan_lang.Npi.Keeps.{Keeps, Keeps-bind, keeps_rules}
use optimized_nan_lang.Npi.Build.{
  BuildOptions, require, run_shell, run_command, stage, stage_all, resolve_deps,
  write_placeholder_output, write_manifest, invoke_compiler, config_path, conf_path_of,
  list_packages, run_build,
}

-- An invariant of the effects that printing, commands, directories and files do not break.
pub record IsPlain (P : List Effect → Type 0) : Type 0 where
  pub after_said : (text : Bytes) → Keeps P (act (said text))
  pub after_ran : (command : Bytes) → Keeps P (act (ran command))
  pub after_made : (path : Bytes) → Keeps P (act (made_directories path))
  pub after_wrote : (path text : Bytes) → Keeps P (act (wrote path text))

module _ {P : List Effect → Type 0} (plain : IsPlain P) where
  open plain use {after_said, after_ran, after_made, after_wrote}

  create_directories-Keeps : (path : Bytes) → Keeps P (create_directories path)
  unfolding create_directories
  create_directories-Keeps path = search (keeps_rules, after_made)

  pub run_shell-Keeps : (cmdline : Bytes) → Keeps P (run_shell cmdline)
  unfolding run_shell
  run_shell-Keeps cmdline = search (keeps_rules, after_ran)

  pub run_command-Keeps :
      (args : List Bytes) (inherit_io : Bool) → Keeps P (run_command args inherit_io)
  unfolding run_command
  run_command-Keeps args inherit_io = run_shell-Keeps _

  stage-Keeps :
      (lib_dir : Bytes) (dry_run : Bool) (pkg : PackageEntry) → Keeps P (stage lib_dir dry_run pkg)
  unfolding stage
  stage-Keeps lib_dir dry_run pkg =
      search (keeps_rules, after_said, after_wrote, create_directories-Keeps) depth 20

  stage_all-Keeps :
      (lib_dir : Bytes) (dry_run : Bool) (pkgs : List PackageEntry)
      → Keeps P (stage_all lib_dir dry_run pkgs)
  unfolding stage_all
  stage_all-Keeps lib_dir dry_run [] = search keeps_rules
  stage_all-Keeps lib_dir dry_run (pkg ∷ pkgs) =
      Keeps-bind _ _ (stage-Keeps lib_dir dry_run pkg) (λ _. stage_all-Keeps lib_dir dry_run pkgs)

  resolve_deps-Keeps :
      (pkgs : List PackageEntry) (cfg : ConfigMap) (dry_run : Bool)
      → Keeps P (resolve_deps pkgs cfg dry_run)
  unfolding resolve_deps
  resolve_deps-Keeps pkgs cfg dry_run =
      search (keeps_rules, stage_all-Keeps, create_directories-Keeps) depth 20

  write_placeholder-Keeps :
      (out_path manifest : Bytes) → Keeps P (write_placeholder_output out_path manifest)
  unfolding write_placeholder_output
  write_placeholder-Keeps out_path manifest =
      search (keeps_rules, after_wrote, create_directories-Keeps)

  write_manifest-Keeps :
      (path : Bytes) (pkgs : List PackageEntry) (cfg : ConfigMap)
      → Keeps P (write_manifest path pkgs cfg)
  unfolding write_manifest
  write_manifest-Keeps path pkgs cfg = search (keeps_rules, after_wrote, create_directories-Keeps)

  invoke_compiler-Keeps :
      (cfg : ConfigMap) (manifest out_path : Bytes) (opts : BuildOptions)
      → Keeps P (invoke_compiler cfg manifest out_path opts)
  unfolding invoke_compiler
  invoke_compiler-Keeps cfg manifest out_path opts =
      search (keeps_rules, after_said, run_command-Keeps, write_placeholder-Keeps) depth 20

  list_packages-Keeps : (pkgs : List PackageEntry) → Keeps P (list_packages pkgs)
  unfolding list_packages
  list_packages-Keeps [] = search keeps_rules
  list_packages-Keeps (pkg ∷ pkgs) = Keeps-bind _ _ (after_said _) (λ _. list_packages-Keeps pkgs)

  pub require-Keeps : (text : Bytes) (failure : Failure) → Keeps P (require text failure)
  require-Keeps [] failure = search keeps_rules
  require-Keeps (c ∷ cs) failure = search keeps_rules

  conf_path_of-Keeps : (opts : BuildOptions) → Keeps P (conf_path_of opts)
  unfolding conf_path_of config_path
  conf_path_of-Keeps opts = by_conf opts.conf_path
    where
      by_conf :
          (p : Bytes)
          → Keeps P (elim p as (λ x. Run Bytes) [ [] ↦ config_path | ◌∷◌ c cs ↦ return (c ∷ cs) ])
      by_conf [] = search keeps_rules
      by_conf (c ∷ cs) = search keeps_rules

  pub run_build-Keeps : (opts : BuildOptions) → Keeps P (run_build opts)
  unfolding run_build
  run_build-Keeps opts =
      search
        (
          keeps_rules, after_said, require-Keeps, conf_path_of-Keeps, list_packages-Keeps,
          resolve_deps-Keeps, write_manifest-Keeps, invoke_compiler-Keeps,
        )
        depth 60 fits 9000
