-- ===== src/Cli/Main.antt =====
-- The main functions of src/nanlang_cli.cpp and src/npi_cli.cpp. A run ends with its effects and the exit
-- status; the lines of the help are given without their newlines.
use optimized_nan_lang.Base.{
  same, Bytes, codes, ℕ, inl, inr, Bool, false, List, [], ◌+◌, ◌⊎◌, ◌||◌, ◌∷◌, ◌++◌, if◌then◌else◌,
}
use optimized_nan_lang.Text.Ints.{decimal}
use optimized_nan_lang.Npi.{PackageEntry, to_string}
use optimized_nan_lang.Npi.World.{
  World, Effect, Failure, missing_flag, unknown_command, Run, ◌>>=◌, ◌>>◌, return, throw, asks,
  print,
}
use optimized_nan_lang.Npi.Build.{BuildOptions, read_requirements, run_build, count}
use optimized_nan_lang.Cli.{
  Parsed, conf_or_path, parse_tokens, no_tokens, value_of, has_flag, run_pkg, run_build_cmd,
  run_compile_cmd, delegate_cpp,
}
use optimized_nan_lang.Command.{find}

-- The banner has a dash of three bytes.
abbrev pub full_banner : Bytes
full_banner = codes "nanlang v4.0.0 " ++ (0xe2 ∷ 0x80 ∷ 0x94 ∷ codes " NanLang Unified Monorepo")

unfoldable pub print_lines : List Bytes → Run (Unit {0})
print_lines [] = return tt
print_lines (line ∷ lines) = print (line ∷ []) >> print_lines lines

abbrev pub nanlang_help : List Bytes
nanlang_help =
    full_banner
    ∷ []
    ∷ codes "Usage:"
    ∷ codes "  nanlang <command> [args]"
    ∷ []
    ∷ codes "Commands:"
    ∷ codes "  help                         Show this help"
    ∷ codes "  version                      Print version banner"
    ∷ codes "  pkg install -r req.txt       Resolve package requirements"
    ∷ codes "  build --src app.nl           Compile source with optional package resolution"
    ∷ codes "  compile <src.nl> --output o  Preprocess + native compile (--elf default)"
    ∷ codes "  run <file.elf|script>        Execute native artifact"
    ∷ codes "  ui-render <scene.nl>         Open the NanLang GTK renderer"
    ∷ codes "  demo <name> [flags]          Run C++ demo mode"
    ∷ []

abbrev npi_help : List Bytes
npi_help =
    full_banner
    ∷ []
    ∷ codes "USAGE (Legacy CLI - prefer ./nanlang pkg ...)"
    ∷ codes "  npi -r <req.txt> [flags]"
    ∷ []
    ∷ codes "FLAGS"
    ∷ codes "  -r <file>          Requirements file (required)"
    ∷ codes "  --build            Full pipeline"
    ∷ codes "  --dry-run          Preview"
    ∷ codes "  --verbose          Verbose"
    ∷ []

-- One of the words.
abbrev is_one_of : Bytes → List Bytes → Bool
is_one_of word [] = false
is_one_of word (w ∷ words) = same word w || is_one_of word words

unfoldable pub nanlang_command : Bytes → List Bytes → Run ℕ
unfolding same
nanlang_command cmd args =
    if is_one_of cmd (codes "help" ∷ codes "-h" ∷ codes "--help" ∷ [])
    then print_lines nanlang_help >> return 0
    else if is_one_of cmd (codes "version" ∷ codes "-v" ∷ codes "--version" ∷ [])
    then print (full_banner ∷ []) >> return 0
    else if same cmd (codes "pkg")
    then run_pkg args
    else if same cmd (codes "build")
    then run_build_cmd args
    else if same cmd (codes "compile")
    then run_compile_cmd args
    else if is_one_of cmd (codes "run" ∷ codes "demo" ∷ codes "ui-render" ∷ [])
    then delegate_cpp cmd args
    else (print_lines nanlang_help >> throw (unknown_command cmd))

-- An exception is printed, and its exit status is 1.
abbrev exit_status : Failure ⊎ ℕ → ℕ
exit_status (inl failure) = 1
exit_status (inr status) = status

unfoldable pub nanlang_main : List Bytes → World → List Effect × ℕ
nanlang_main [] w = let (log, result) = print_lines nanlang_help w [] in (log, exit_status (inr 0))
nanlang_main (cmd ∷ args) w =
    let (log, result) = nanlang_command cmd args w [] in (log, exit_status result)

-- The packages with their numbers and comments.
list_loaded : ℕ → List PackageEntry → Run (Unit {0})
unfolding to_string decimal
list_loaded i [] = return tt
list_loaded i (pkg ∷ pkgs) = do
  print (
      codes "  "
      ∷ decimal i
      ∷ codes ". "
      ∷ to_string pkg
      ∷ elim pkg.comment [ [] ↦ [] | ◌∷◌ c cs ↦ codes "  # " ++ c ∷ cs ]
      ∷ [])
  list_loaded (i + 1) pkgs

build_and_report : BuildOptions → Run ℕ
unfolding run_build decimal
build_and_report opts = do
  result ← run_build opts
  print ([] ∷ [])
  print (codes "[OK] Output: " ∷ result.output_file ∷ [])
  print (codes "  Packages : " ∷ decimal result.packages ∷ [])
  seconds ← asks (λ w. inr w.seconds)
  print (codes "  Duration : " ∷ seconds ∷ codes "s" ∷ [])
  return 0

abbrev origin_key : Bytes
origin_key = codes "iTjz07jXdTggEDBfmYLK+xrkRgNipuDI63JvIdsQzXB4yES7J/N8wq+xpyFT0dYEGNZ6spRFyJ4="

npi_packages : Parsed → Bytes → Run ℕ
unfolding value_of has_flag conf_or_path read_requirements list_loaded decimal build_and_report find
npi_packages p req_path = do
  conf ← conf_or_path (find p.kv (codes "config"))
  print (full_banner ∷ [])
  print ([] ∷ [])
  packages ← read_requirements req_path
  print (
      codes "Loaded "
      ∷ decimal (count packages)
      ∷ codes " package(s) from "
      ∷ req_path
      ∷ codes ":"
      ∷ [])
  list_loaded 1 packages
  print ([] ∷ [])
  if has_flag p (codes "build")
      then build_and_report (record {
        req_path = req_path;
        conf_path = conf;
        dry_run = has_flag p (codes "dry-run");
        verbose = has_flag p (codes "verbose");
        target_name = value_of p (codes "output") (codes "output.elf");
      })
      else (print_lines (
            codes "Run with --build to execute the full build pipeline."
            ∷ codes "Use ./nanlang pkg install -r req.txt for unified CLI."
            ∷ [])
          >> return 0)

unfoldable pub npi_command : List Bytes → Run ℕ
unfolding parse_tokens has_flag print_lines npi_packages value_of
npi_command args =
    let p = parse_tokens args no_tokens in
    if has_flag p (codes "help") || has_flag p (codes "h")
    then print_lines npi_help >> return 0
    else if has_flag p (codes "version")
    then print (full_banner ∷ []) >> return 0
    else if has_flag p (codes "origin")
    then print_lines (
        codes "Project originality key (source-only, never compiled into binary):"
        ∷ (32 ∷ origin_key)
        ∷ [])
      >> return 0
    else elim (value_of p (codes "r") []) [
      | [] ↦ print_lines npi_help >> throw {A = ℕ} (missing_flag (codes "-r"))
      | ◌∷◌ c cs ↦ npi_packages p (c ∷ cs)
    ]
