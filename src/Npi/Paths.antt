-- ===== src/Npi/Paths.antt =====
-- How src/nan_cli_lib.cpp finds the programs that it starts, and preprocess_source_file.
pub mod Found
use optimized_nan_lang.Base.{
  pos, Bytes, codes, inr, Option, none, some, List, [], ◌∷◌, ◌++◌, ◌==◌, if◌then◌else◌,
}
use optimized_nan_lang.Npi.Shell.{shell_quote}
use optimized_nan_lang.Npi.World.{
  no_compiler, no_preprocessor, no_raku, preprocess_failed, Run, ◌>>=◌, return, throw, asks, exists,
  ◌//◌, parent_path,
}
use optimized_nan_lang.Npi.Build.{run_shell}

-- The items of PATH: `getline` with ':', which gives no empty item behind the last ':'.
items_from : Bytes → Bytes → List Bytes
items_from item [] = elim item [ [] ↦ [] | ◌∷◌ c cs ↦ (c ∷ cs) ∷ [] ]
items_from item (c ∷ cs) =
    if c == 0x3a then item ∷ items_from [] cs else items_from (item ++ c ∷ []) cs

unfoldable pub path_items : Bytes → List Bytes
unfolding items_from
path_items path = items_from [] path

-- The first item under which the program is there; `none` is the empty result.
search_items : List Bytes → Bytes → Run (Option Bytes)
unfolding exists ◌//◌
search_items [] bin_name = return none
search_items ([] ∷ items) bin_name = search_items items bin_name
search_items ((c ∷ cs) ∷ items) bin_name = do
  there ← exists ((c ∷ cs) // bin_name)
  if there then return (some ((c ∷ cs) // bin_name)) else search_items items bin_name

unfoldable pub find_in_path : Bytes → Run (Option Bytes)
unfolding search_items path_items
find_in_path bin_name = do
  path ← asks (λ w. inr (w.environment (codes "PATH")))
  elim path [ none ↦ return none | some items ↦ search_items (path_items items) bin_name ]

-- The value of a variable that is set, not empty and the name of something that is there.
named_by : Bytes → Run (Option Bytes)
unfolding exists
named_by variable = do
  value ← asks (λ w. inr (w.environment variable))
  elim value [
    | some (◌∷◌ c cs) ↦ (do there ← exists (c ∷ cs); return (if there then some (c ∷ cs) else none))
    | _ ↦ return none
  ]

-- The first of the paths that is there.
first_of : List Bytes → Run (Option Bytes)
unfolding exists
first_of [] = return none
first_of (path ∷ paths) = do
  there ← exists path
  if there then return (some path) else first_of paths

-- A result that was found, or the next way.
abbrev otherwise : {A : Type 0} → Run (Option A) → Run A → Run A
otherwise m k = m >>= λ found. elim found [ some a ↦ return a | none ↦ k ]

-- Candidates beside the running program, which is not known where the link cannot be read.
beside : (Bytes → List Bytes) → Run (Option Bytes)
unfolding first_of parent_path
beside candidates = do
  exe ← asks (λ w. inr w.executable)
  elim exe [ [] ↦ return none | ◌∷◌ c cs ↦ first_of (candidates (parent_path (c ∷ cs))) ]

unfoldable pub resolve_cpp_command_path : Run Bytes
unfolding named_by beside find_in_path first_of ◌//◌
resolve_cpp_command_path = otherwise (named_by (codes "NANLANG_CPP")) (
    otherwise (beside (λ dir. (dir // codes "nanlang_cpp") ∷ [])) (
      otherwise (find_in_path (codes "nanlang_cpp"))
        (otherwise (first_of (codes "./bin/nanlang_cpp" ∷ [])) (throw no_compiler))))

unfoldable pub resolve_raku_path : Run Bytes
unfolding find_in_path
resolve_raku_path = otherwise (find_in_path (codes "raku")) (throw no_raku)

abbrev script_name : Bytes
script_name = codes "nan_preprocessor.raku"

normal_candidates : Run (Option Bytes)
unfolding beside ◌//◌
normal_candidates = do
  found ← beside (λ dir.
      (dir // codes ".." // codes "share" // codes "nanlang" // codes "scripts" // script_name)
      ∷ (dir // codes "scripts" // script_name)
      ∷ (dir // codes ".." // codes "scripts" // script_name)
      ∷ [])
  asks (λ w. inr (elim found [ none ↦ none | some path ↦ some (w.lexically_normal path) ]))

unfoldable pub resolve_preprocessor_path : Run Bytes
unfolding named_by normal_candidates find_in_path first_of ◌//◌
resolve_preprocessor_path = otherwise (named_by (codes "NANLANG_PREPROCESSOR")) (
    otherwise normal_candidates (
      otherwise (first_of (codes "./scripts/nan_preprocessor.raku" ∷ [])) (
        otherwise (first_of (codes "/usr/share/nanlang/scripts/nan_preprocessor.raku" ∷ []))
          (otherwise (find_in_path script_name) (throw no_preprocessor)))))

unfoldable pub preprocess_source_file : Bytes → Bytes → Run (Unit {0})
unfolding resolve_raku_path resolve_preprocessor_path run_shell shell_quote
preprocess_source_file source_path out_path = do
  raku ← resolve_raku_path
  pre ← resolve_preprocessor_path
  rc ← run_shell (
      shell_quote raku
      ++ (32 ∷ shell_quote pre
          ++ (32 ∷ shell_quote source_path ++ (codes " > " ++ shell_quote out_path))))
  if rc == 0 then return tt else throw (preprocess_failed source_path (pos rc))
