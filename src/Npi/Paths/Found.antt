-- ===== src/Npi/Paths/Found.antt =====
-- Looking for programs asks the system and changes nothing.
use optimized_nan_lang.Base.{Bytes, Option, none, some, List, [], ◌∷◌, if◌then◌else◌}
use optimized_nan_lang.Npi.World.{Effect, Run, return, exists, ◌>>=◌}
use optimized_nan_lang.Npi.Keeps.{
  Keeps, Keeps-bind, Keeps-return, Keeps-asks, Keeps-if, Keeps-exists, keeps_rules,
}
use optimized_nan_lang.Npi.Build.Plain.{IsPlain, run_shell-Keeps}
use optimized_nan_lang.Npi.Paths.{
  path_items, search_items, find_in_path, named_by, first_of, otherwise, beside,
  resolve_cpp_command_path, resolve_raku_path, normal_candidates, resolve_preprocessor_path,
  preprocess_source_file, parent_path,
}

module _ {P : List Effect → Type 0} where
  search_items-Keeps : (items : List Bytes) (name : Bytes) → Keeps P (search_items items name)
  unfolding search_items
  search_items-Keeps [] name = Keeps-return none
  search_items-Keeps ([] ∷ items) name = search_items-Keeps items name
  search_items-Keeps ((c ∷ cs) ∷ items) name =
      Keeps-bind _ _ (Keeps-exists _)
        (λ there. Keeps-if there _ _ (Keeps-return _) (search_items-Keeps items name))

  first_of-Keeps : (paths : List Bytes) → Keeps P (first_of paths)
  unfolding first_of
  first_of-Keeps [] = Keeps-return none
  first_of-Keeps (path ∷ paths) =
      Keeps-bind _ _ (Keeps-exists _)
        (λ there. Keeps-if there _ _ (Keeps-return _) (first_of-Keeps paths))

  find_in_path-Keeps : (name : Bytes) → Keeps P (find_in_path name)
  unfolding find_in_path
  find_in_path-Keeps name = Keeps-bind _ _ (Keeps-asks _) by_path
    where
      by_path :
          (path : Option Bytes)
          → Keeps P (elim path as (λ x. Run (Option Bytes)) [
            | none ↦ return none
            | some items ↦ search_items (path_items items) name
          ])
      by_path none = Keeps-return none
      by_path (some items) = search_items-Keeps (path_items items) name

  named_by-Keeps : (variable : Bytes) → Keeps P (named_by variable)
  unfolding named_by
  named_by-Keeps variable = Keeps-bind _ _ (Keeps-asks _) by_value
    where
      by_value :
          (value : Option Bytes)
          → Keeps P (elim value as (λ x. Run (Option Bytes)) [
            | some (◌∷◌ c cs) ↦ (do
              there ← exists (c ∷ cs)
              return (if there then some (c ∷ cs) else none))
            | _ ↦ return none
          ])
      by_value none = Keeps-return none
      by_value (some []) = Keeps-return none
      by_value (some (c ∷ cs)) = Keeps-bind _ _ (Keeps-exists _) (λ there. Keeps-return _)

  beside-Keeps : (candidates : Bytes → List Bytes) → Keeps P (beside candidates)
  unfolding beside
  beside-Keeps candidates = Keeps-bind _ _ (Keeps-asks _) by_exe
    where
      by_exe :
          (exe : Bytes)
          → Keeps P (elim exe as (λ x. Run (Option Bytes)) [
            | [] ↦ return none
            | ◌∷◌ c cs ↦ first_of (candidates (parent_path (c ∷ cs)))
          ])
      by_exe [] = Keeps-return none
      by_exe (c ∷ cs) = first_of-Keeps _

module _ {A : Type 0} {P : List Effect → Type 0} where
  otherwise-Keeps :
      (m : Run (Option A)) (k : Run A) → Keeps P m → Keeps P k → Keeps P (otherwise m k)
  otherwise-Keeps m k km kk = Keeps-bind m _ km by_found
    where
      by_found :
          (found : Option A) → Keeps P (elim found as (λ x. Run A) [ some a ↦ return a | none ↦ k ])
      by_found none = kk
      by_found (some a) = Keeps-return a

ruleset found_rules =
    (keeps_rules, otherwise-Keeps, beside-Keeps, named_by-Keeps, find_in_path-Keeps, first_of-Keeps)

module _ {P : List Effect → Type 0} where
  pub resolve_cpp-Keeps : Keeps P resolve_cpp_command_path
  unfolding resolve_cpp_command_path
  resolve_cpp-Keeps = search found_rules depth 20

  resolve_raku-Keeps : Keeps P resolve_raku_path
  unfolding resolve_raku_path
  resolve_raku-Keeps = search found_rules

  resolve_preprocessor-Keeps : Keeps P resolve_preprocessor_path
  unfolding resolve_preprocessor_path normal_candidates
  resolve_preprocessor-Keeps = search found_rules depth 20

  pub preprocess-Keeps :
      IsPlain P → (source out : Bytes) → Keeps P (preprocess_source_file source out)
  unfolding preprocess_source_file
  preprocess-Keeps plain source out =
      search (keeps_rules, resolve_raku-Keeps, resolve_preprocessor-Keeps, run_shell-Keeps plain)
        depth 20
