-- ===== src/Cli.antt =====
-- The command line tools of src/nanlang_cli.cpp, which hands its work to the package tool and to
-- nanlang_cpp. src/npi_cli.cpp has the same `parse_tokens`.
pub mod Main
pub mod Tidy
pub mod Compile
mod Tests
use optimized_nan_lang.Base.{
  same, get_or, set, Bytes, codes, ℕ, inl, inr, Bool, true, false, Option, none, some, List, [],
  ◌+◌, ◌||◌, ◌∷◌, ◌++◌, ◌==◌, if◌then◌else◌,
}
use optimized_nan_lang.Text.{after_prefix}
use optimized_nan_lang.Npi.{split_at}
use optimized_nan_lang.Npi.Config.{ConfigMap, assign}
use optimized_nan_lang.Npi.World.{
  missing_flag, missing_source, no_temp_file, made_temp, removed, Run, ◌>>=◌, ◌>>◌, return, throw,
  asks, act,
}
use optimized_nan_lang.Npi.Build.{run_build, run_command, config_path, require}
use optimized_nan_lang.Npi.Paths.{resolve_cpp_command_path, preprocess_source_file}
use optimized_nan_lang.Command.{find, is_value}

pub record Parsed : Type 0 where
  pub positional : List Bytes
  pub kv : ConfigMap
  pub flags : ConfigMap

pub data Token : Type 0 where
  assigned : Bytes → Bytes → Token
  key_word plain_word : Bytes → Token

-- `--key=value`, `--key`, `-k`, or none of these.
unfoldable pub read_token : Bytes → Token
unfolding after_prefix split_at
read_token tok = elim (after_prefix (codes "--") tok) [
  | some key ↦ elim (split_at 0x3d key) [
    | some (name, value) ↦ assigned name value
    | none ↦ key_word key
  ]
  | none ↦ elim tok [
    | ◌∷◌ d (k ∷ []) ↦ if d == 0x2d then key_word (k ∷ []) else plain_word (d ∷ k ∷ [])
    | other ↦ plain_word other
  ]
]

unfoldable pub put_value : Bytes → Bytes → Parsed → Parsed
unfolding assign
put_value key value p = record p { kv = assign key value p.kv }

unfoldable pub put_flag : Bytes → Parsed → Parsed
unfolding assign
put_flag key p = record p { flags = assign key (codes "true") p.flags }

unfoldable pub put_word : Bytes → Parsed → Parsed
put_word tok p = record p { positional = p.positional ++ tok ∷ [] }

unfoldable pub parse_tokens : List Bytes → Parsed → Parsed
unfolding read_token put_value put_flag put_word is_value
parse_tokens [] p = p
parse_tokens (tok ∷ []) p = elim (read_token tok) [
  | assigned key value ↦ put_value key value p
  | key_word key ↦ put_flag key p
  | plain_word word ↦ put_word word p
]
parse_tokens (tok ∷ next ∷ rest) p = elim (read_token tok) [
  | assigned key value ↦ parse_tokens (next ∷ rest) (put_value key value p)
  | key_word key ↦ elim (is_value next) [
    | true ↦ parse_tokens rest (put_value key next p)
    | false ↦ parse_tokens (next ∷ rest) (put_flag key p)
  ]
  | plain_word word ↦ parse_tokens (next ∷ rest) (put_word word p)
]

abbrev pub no_tokens : Parsed
no_tokens = record { positional = []; kv = []; flags = [] }

-- `p.kv.count(key) ? p.kv[key] : def`
unfoldable pub value_of : Parsed → Bytes → Bytes → Bytes
unfolding find
value_of p key def = elim (find p.kv key) [ none ↦ def | some v ↦ v ]

unfoldable pub has_flag : Parsed → Bytes → Bool
unfolding find
has_flag p key = elim (find p.flags key) [ none ↦ false | some v ↦ true ]

-- The index of the first argument that is neither an option nor the value of `--output` or `-o`; `none` is
-- the result -1.
unfoldable pub source_index : Bool → ℕ → List Bytes → Option ℕ
unfolding same
source_index skip_next i [] = none
source_index true i (a ∷ args) = source_index false (i + 1) args
source_index false i (a ∷ args) =
    if same a (codes "--output") || same a (codes "-o")
    then source_index true (i + 1) args
    else elim a [
      | ◌∷◌ c cs ↦ if c == 0x2d then source_index false (i + 1) args else some i
      | [] ↦ some i
    ]

unfoldable pub find_compile_source_index : List Bytes → Option ℕ
unfolding source_index
find_compile_source_index args = source_index false 0 args

unfoldable pub make_temp_preprocessed_file : Run Bytes
make_temp_preprocessed_file = do
  temp ← asks (λ w. elim w.temp_file [ none ↦ inl no_temp_file | some path ↦ inr path ])
  act (made_temp temp)
  return temp

-- `try { … fs::remove(temp); return rc; } catch (...) { fs::remove(temp); throw; }`
unfoldable pub finally_remove : {A : Type 0} → Bytes → Run A → Run A
finally_remove temp m w log = let (log', result) = m w log in (log' ++ removed temp ∷ [], result)

-- `install` may stand in front.
without_install : List Bytes → List Bytes
unfolding same
without_install [] = []
without_install (a ∷ args) = if same a (codes "install") then args else a ∷ args

unfoldable pub conf_or_path : Option Bytes → Run Bytes
unfolding config_path
conf_or_path none = config_path
conf_or_path (some conf) = return conf

unfoldable pub run_pkg : List Bytes → Run ℕ
unfolding without_install value_of has_flag
run_pkg args = do
  let p = parse_tokens (without_install args) no_tokens
  let req = value_of p (codes "r") []
  require req (missing_flag (codes "-r"))
  conf ← conf_or_path (find p.kv (codes "config"))
  run_build (record {
    req_path = req;
    conf_path = conf;
    dry_run = has_flag p (codes "dry-run");
    verbose = has_flag p (codes "verbose");
    target_name = [];
  })
  return 0

-- What both commands do with the temporary file.
unfoldable pub compile_with : Bytes → (Bytes → List Bytes) → Run ℕ
compile_with src words = do
  temp ← make_temp_preprocessed_file
  finally_remove temp (do
    preprocess_source_file src temp
    cpp ← resolve_cpp_command_path
    run_command (cpp ∷ words temp) true)

-- The requirements are only previewed.
unfoldable pub preview_packages : Bytes → Run ℕ
preview_packages [] = return 0
preview_packages (c ∷ cs) = run_pkg (codes "-r" ∷ (c ∷ cs) ∷ codes "--dry-run" ∷ [])

unfoldable pub run_build_cmd : List Bytes → Run ℕ
unfolding value_of
run_build_cmd args = do
  let p = parse_tokens args no_tokens
  let src = value_of p (codes "src") []
  let out = value_of p (codes "output") (codes "out.elf")
  let req = value_of p (codes "r") []
  require src (missing_flag (codes "--src"))
  preview_packages req
  compile_with src (λ temp. codes "--compile" ∷ temp ∷ codes "--elf" ∷ codes "--output" ∷ out ∷ [])

unfoldable pub compile_at : List Bytes → Option ℕ → Run ℕ
compile_at args none = throw missing_source
compile_at args (some i) =
    compile_with (get_or args i []) (λ temp. codes "compile" ∷ set args i temp)

unfoldable pub run_compile_cmd : List Bytes → Run ℕ
run_compile_cmd args = compile_at args (find_compile_source_index args)

unfoldable pub delegate_cpp : Bytes → List Bytes → Run ℕ
unfolding same
delegate_cpp verb args = do
  cpp ← resolve_cpp_command_path
  let word = if same verb (codes "ui-render") then codes "--ui-render" else verb
  run_command (cpp ∷ word ∷ args) true
