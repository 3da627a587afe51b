-- ===== src/Npi/Build.antt =====
-- run_build of src/nan_cli_lib.cpp and what it calls: the requirements are staged, the manifest is written
-- and the compiler is started.
pub mod DryRun
pub mod Plain
pub mod Refused
use optimized_nan_lang.Base.{
  length, ℤ, pos, negsuc, Bytes, codes, ℕ, zero, suc, inl, inr, Bool, not, none, some, List, [],
  ◌-◌, ◌*◌, ◌/◌, ◌%◌, ◌^◌, ◌⊎◌, ◌∷◌, ◌++◌, ◌==◌, if◌then◌else◌,
}
use optimized_nan_lang.Text.Ints.{decimal}
use optimized_nan_lang.Npi.{PackageEntry, ReqFailure, to_string, parse_reqfile}
use optimized_nan_lang.Npi.Config.{ConfigFailure, ConfigMap, get, load_config, dump}
use optimized_nan_lang.Npi.Shell.{command_line, command_text, compiler_args}
use optimized_nan_lang.Npi.World.{
  Failure, reqfile_failed, config_failed, config_unreadable, missing_reqfile, Run, ◌>>=◌, ◌>>◌,
  return, throw, act, asks, ran, wrote, exists, create_directories, print, joined, ◌//◌,
  parent_path,
}

pub record BuildOptions : Type 0 where
  pub req_path : Bytes
  pub conf_path : Bytes
  pub dry_run : Bool
  pub verbose : Bool
  pub target_name : Bytes

pub record BuildResult : Type 0 where
  pub output_file : Bytes
  pub packages : ℕ

-- `std::system` gives -1 where no process could be made.
unfoldable pub decode_wait_status : ℤ → ℕ
decode_wait_status (negsuc zero) = 127
decode_wait_status (negsuc (suc n)) =
    let word = 2 ^ 32 - 2 - n in if word % 128 == 0 then word / 256 % 256 else 1
decode_wait_status (pos n) = if n % 128 == 0 then n / 256 % 256 else 1

unfoldable pub run_shell : Bytes → Run ℕ
unfolding decode_wait_status
run_shell cmdline = do
  act (ran cmdline)
  asks (λ w. inr (decode_wait_status (w.wait_status cmdline)))

unfoldable pub run_command : List Bytes → Bool → Run ℕ
unfolding command_text run_shell
run_command args inherit_io = run_shell (command_text args inherit_io)

newline : Bytes
newline = 10 ∷ []

unfoldable pub placeholder_text : Bytes → Bytes
unfolding newline
placeholder_text manifest_path = joined (
    codes "# npi placeholder output"
    ∷ newline
    ∷ codes "# Real nanlang binary would be here."
    ∷ newline
    ∷ codes "# Manifest: "
    ∷ manifest_path
    ∷ newline
    ∷ [])

write_placeholder_output : Bytes → Bytes → Run (Unit {0})
unfolding create_directories placeholder_text parent_path
write_placeholder_output out_path manifest_path = do
  create_directories (parent_path out_path)
  act (wrote out_path (placeholder_text manifest_path))

unfoldable pub stub_text : PackageEntry → Bytes
unfolding to_string newline
stub_text pkg = joined (
    codes "// Stub for "
    ∷ to_string pkg
    ∷ codes " (staged by npi)"
    ∷ newline
    ∷ codes "// Replace with real source."
    ∷ newline
    ∷ codes "fn init() -> void {}"
    ∷ newline
    ∷ [])

-- One round over the packages.
stage : Bytes → Bool → PackageEntry → Run (Unit {0})
unfolding create_directories stub_text to_string ◌//◌
stage lib_dir dry_run pkg =
    if dry_run
    then print (
        codes "      [dry-run] would stage "
        ∷ to_string pkg
        ∷ codes " -> "
        ∷ (lib_dir // pkg.name)
        ∷ [])
    else (do
      create_directories (lib_dir // pkg.name)
      let stub = lib_dir // pkg.name // (pkg.name ++ codes ".nl")
      staged ← exists stub
      if staged then return tt else act (wrote stub (stub_text pkg))
      print (codes "      [OK] staged " ∷ to_string pkg ∷ []))

stage_all : Bytes → Bool → List PackageEntry → Run (Unit {0})
unfolding stage
stage_all lib_dir dry_run [] = return tt
stage_all lib_dir dry_run (pkg ∷ pkgs) = stage lib_dir dry_run pkg >> stage_all lib_dir dry_run pkgs

resolve_deps : List PackageEntry → ConfigMap → Bool → Run (Unit {0})
unfolding create_directories stage_all get
resolve_deps packages cfg dry_run = do
  if dry_run then return tt else (do
    create_directories (get cfg (codes "lib_dir"))
    create_directories (get cfg (codes "cache_dir"))
    create_directories (get cfg (codes "output_dir")))
  stage_all (get cfg (codes "lib_dir")) dry_run packages

package_lines : List PackageEntry → Bytes
unfolding to_string
package_lines [] = []
package_lines (pkg ∷ pkgs) = codes "  " ++ (to_string pkg ++ 10 ∷ package_lines pkgs)

abbrev pub count : List PackageEntry → ℕ
count packages = length packages

-- The first line has a dash of three bytes.
unfoldable pub manifest_text : List PackageEntry → ConfigMap → Bytes
unfolding get package_lines newline decimal
manifest_text packages cfg = joined (
    codes "# npi_manifest.conf "
    ∷ (0xe2 ∷ 0x80 ∷ 0x94 ∷ [])
    ∷ codes " generated by npi, do not hand-edit"
    ∷ newline
    ∷ codes "lib_dir     = "
    ∷ get cfg (codes "lib_dir")
    ∷ newline
    ∷ codes "output_dir  = "
    ∷ get cfg (codes "output_dir")
    ∷ newline
    ∷ codes "build_flags = "
    ∷ get cfg (codes "build_flags")
    ∷ newline
    ∷ codes "package_count = "
    ∷ decimal (count packages)
    ∷ newline
    ∷ newline
    ∷ codes "[packages]"
    ∷ newline
    ∷ package_lines packages
    ∷ [])

write_manifest : Bytes → List PackageEntry → ConfigMap → Run (Unit {0})
unfolding create_directories manifest_text parent_path
write_manifest path packages cfg = do
  create_directories (parent_path path)
  act (wrote path (manifest_text packages cfg))

-- A compiler that fails leaves a placeholder and no failure.
invoke_compiler : ConfigMap → Bytes → Bytes → BuildOptions → Run (Unit {0})
unfolding compiler_args command_line run_command write_placeholder_output decimal
invoke_compiler cfg manifest out_path opts =
    let args = compiler_args cfg manifest out_path in
    if opts.dry_run
    then print (codes "      [dry-run] would run: " ∷ command_line args ∷ [])
    else (do
      rc ← run_command args opts.verbose
      if rc == 0 then return tt else (do
        print (
            codes "[npi] [WARN] compiler not found or failed (exit="
            ∷ decimal rc
            ∷ codes ") "
            ∷ (0xe2 ∷ 0x80 ∷ 0x94 ∷ [])
            ∷ codes " writing placeholder output"
            ∷ [])
        write_placeholder_output out_path manifest))

unfoldable pub config_path : Run Bytes
config_path = asks (λ w.
    inr
      (elim (w.environment (codes "NPI_CONF")) [ some (◌∷◌ c cs) ↦ c ∷ cs | _ ↦ codes "npi.conf" ]))

abbrev requirements : ReqFailure ⊎ List PackageEntry → Failure ⊎ List PackageEntry
requirements (inl failure) = inl (reqfile_failed failure)
requirements (inr packages) = inr packages

unfoldable pub read_requirements : Bytes → Run (List PackageEntry)
unfolding parse_reqfile
read_requirements path = asks (λ w. requirements (parse_reqfile (w.file_lines path)))

abbrev loaded : ConfigFailure ⊎ ConfigMap → Failure ⊎ ConfigMap
loaded (inl failure) = inl (config_failed failure)
loaded (inr cfg) = inr cfg

-- A file that does not open is no failure where it is not there.
read_config : Bytes → Run ConfigMap
unfolding load_config
read_config path = do
  there ← exists path
  asks (λ w. elim (w.file_lines path) [
    | none ↦ if there then inl (config_unreadable path) else loaded (load_config none)
    | some lines ↦ loaded (load_config (some lines))
  ])

list_packages : List PackageEntry → Run (Unit {0})
unfolding to_string
list_packages [] = return tt
list_packages (pkg ∷ pkgs) = print (codes "      * " ∷ to_string pkg ∷ []) >> list_packages pkgs

-- The text, and another where it is empty.
abbrev or_else : Bytes → Bytes → Bytes
or_else [] text = text
or_else (c ∷ cs) text = c ∷ cs

conf_path_of : BuildOptions → Run Bytes
unfolding config_path
conf_path_of opts = elim opts.conf_path [ [] ↦ config_path | ◌∷◌ c cs ↦ return (c ∷ cs) ]

-- An empty text is the failure.
abbrev pub require : Bytes → Failure → Run (Unit {0})
require [] failure = throw failure
require (c ∷ cs) failure = return tt

unfoldable pub run_build : BuildOptions → Run BuildResult
unfolding conf_path_of read_requirements list_packages read_config resolve_deps write_manifest
    invoke_compiler get decimal dump ◌//◌
run_build opts = do
  require opts.req_path missing_reqfile
  conf_path ← conf_path_of opts
  print (codes "[npi] Reading requirements: " ∷ opts.req_path ∷ [])
  packages ← read_requirements opts.req_path
  print (codes "[npi] Found " ∷ decimal (count packages) ∷ codes " package(s)" ∷ [])
  list_packages packages
  print (codes "[npi] Loading config: " ∷ conf_path ∷ [])
  cfg ← read_config conf_path
  if opts.verbose then print (dump cfg ∷ []) else return tt
  print (codes "[npi] Resolving dependencies into: " ∷ get cfg (codes "lib_dir") ∷ [])
  resolve_deps packages cfg opts.dry_run
  let manifest_path = get cfg (codes "output_dir") // codes "npi_manifest.conf"
  print (codes "[npi] Writing manifest: " ∷ manifest_path ∷ [])
  if opts.dry_run then return tt else write_manifest manifest_path packages cfg
  let out_path = get cfg (codes "output_dir") // or_else opts.target_name (codes "output.elf")
  print (codes "[npi] Invoking compiler: " ∷ get cfg (codes "compiler") ∷ codes " build" ∷ [])
  invoke_compiler cfg manifest_path out_path opts
  seconds ← asks (λ w. inr w.seconds)
  print (codes "[npi] [OK] Build complete: " ∷ out_path ∷ codes " (" ∷ seconds ∷ codes "s)" ∷ [])
  return (record { output_file = out_path; packages = count packages })
