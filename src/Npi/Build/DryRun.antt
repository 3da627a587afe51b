-- ===== src/Npi/Build/DryRun.antt =====
-- A dry run of the package tool only prints.
use optimized_nan_lang.Base.{Bytes, refl, sym, ap, true, List, [], ◌≡◌, ◌∙◌, ◌∷◌, ◌++◌}
use mathlib.Core.Path.{subst}
use optimized_nan_lang.Npi.{PackageEntry}
use optimized_nan_lang.Npi.Config.{ConfigMap}
use optimized_nan_lang.Npi.World.{
  World, Failure, Run, return, Effect, said, made_directories, made_temp, removed, ran, wrote, act,
  Failure,
}
use optimized_nan_lang.Npi.Keeps.{Keeps, Keeps-bind, keeps_rules}
use optimized_nan_lang.Npi.Build.{
  BuildOptions, require, stage, stage_all, resolve_deps, config_path, conf_path_of, read_config,
  list_packages, run_build,
}

-- The effects but what is printed.
unfoldable pub changes : List Effect → List Effect
changes [] = []
changes (said text ∷ log) = changes log
changes (made_directories path ∷ log) = made_directories path ∷ changes log
changes (made_temp path ∷ log) = made_temp path ∷ changes log
changes (removed path ∷ log) = removed path ∷ changes log
changes (ran command ∷ log) = ran command ∷ changes log
changes (wrote path text ∷ log) = wrote path text ∷ changes log

changes-said : (log : List Effect) (text : Bytes) → changes (log ++ said text ∷ []) ≡ changes log
unfolding changes
changes-said [] text = refl
changes-said (said x ∷ log) text = changes-said log text
changes-said (made_directories x ∷ log) text =
    ap (λ l. made_directories x ∷ l) (changes-said log text)
changes-said (made_temp x ∷ log) text = ap (λ l. made_temp x ∷ l) (changes-said log text)
changes-said (removed x ∷ log) text = ap (λ l. removed x ∷ l) (changes-said log text)
changes-said (ran x ∷ log) text = ap (λ l. ran x ∷ l) (changes-said log text)
changes-said (wrote x y ∷ log) text = ap (λ l. wrote x y ∷ l) (changes-said log text)

abbrev Same : List Effect → List Effect → Type 0
Same before log = changes log ≡ before

module _ {before : List Effect} where
  Keeps-say : (text : Bytes) → Keeps (Same before) (act (said text))
  unfolding act
  Keeps-say text = record { at = λ w log h. changes-said log text ∙ h }

ruleset quiet_rules = (keeps_rules, Keeps-say)

dry : BuildOptions → BuildOptions
dry opts = record opts { dry_run = true }

module _ {before : List Effect} where
  stage-IsQuiet :
      (lib_dir : Bytes) (pkg : PackageEntry) → Keeps (Same before) (stage lib_dir true pkg)
  unfolding stage
  stage-IsQuiet lib_dir pkg = search quiet_rules

  stage_all-IsQuiet :
      (lib_dir : Bytes) (pkgs : List PackageEntry)
      → Keeps (Same before) (stage_all lib_dir true pkgs)
  unfolding stage_all
  stage_all-IsQuiet lib_dir [] = search quiet_rules
  stage_all-IsQuiet lib_dir (pkg ∷ pkgs) =
      Keeps-bind _ _ (stage-IsQuiet lib_dir pkg) (λ _. stage_all-IsQuiet lib_dir pkgs)

  resolve_deps-IsQuiet :
      (pkgs : List PackageEntry) (cfg : ConfigMap)
      → Keeps (Same before) (resolve_deps pkgs cfg true)
  unfolding resolve_deps
  resolve_deps-IsQuiet pkgs cfg = search (quiet_rules, stage_all-IsQuiet)

  list_packages-IsQuiet : (pkgs : List PackageEntry) → Keeps (Same before) (list_packages pkgs)
  unfolding list_packages
  list_packages-IsQuiet [] = search quiet_rules
  list_packages-IsQuiet (pkg ∷ pkgs) =
      Keeps-bind _ _ (Keeps-say _) (λ _. list_packages-IsQuiet pkgs)

  require-IsQuiet : (text : Bytes) (failure : Failure) → Keeps (Same before) (require text failure)
  require-IsQuiet [] failure = search quiet_rules
  require-IsQuiet (c ∷ cs) failure = search quiet_rules

  conf_path_of-IsQuiet : (opts : BuildOptions) → Keeps (Same before) (conf_path_of opts)
  unfolding conf_path_of config_path
  conf_path_of-IsQuiet opts = by_conf opts.conf_path
    where
      by_conf :
          (p : Bytes)
          → Keeps
              (Same before)
              (elim p as (λ x. Run Bytes) [ [] ↦ config_path | ◌∷◌ c cs ↦ return (c ∷ cs) ])
      by_conf [] = search quiet_rules
      by_conf (c ∷ cs) = search quiet_rules

  read_config-IsQuiet : (path : Bytes) → Keeps (Same before) (read_config path)
  unfolding read_config
  read_config-IsQuiet path = search quiet_rules

  module _ (opts : BuildOptions) where
    run_build-IsQuiet : Keeps (Same before) (run_build (dry opts))
    unfolding run_build dry
    run_build-IsQuiet =
        search
          (
            quiet_rules, require-IsQuiet, conf_path_of-IsQuiet, list_packages-IsQuiet,
            read_config-IsQuiet, resolve_deps-IsQuiet,
          )
          depth 60 fits 9000

-- Whatever the system answers, a dry run of `run_build` makes no directory, writes and removes no file and
-- starts no command: it adds nothing but output to the effects so far, also where it ends with an exception.
pub changes-run_build :
    (opts : BuildOptions) (w : World) (log : List Effect)
    → opts.dry_run ≡ true
    → changes (run_build opts w log).0 ≡ changes log
changes-run_build opts w log is_dry =
    subst (λ b. changes (run_build (record opts { dry_run = b }) w log).0 ≡ changes log)
      (sym is_dry) (unfold dry in (run_build-IsQuiet {before = changes log} opts).at w log refl)
