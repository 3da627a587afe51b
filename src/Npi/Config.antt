-- ===== src/Npi/Config.antt =====
-- The configuration of the package tool: `default_config`, `load_config` and Config of src/nan_cli_lib.cpp.
use optimized_nan_lang.Base.{
  same, Bytes, codes, ℕ, inl, inr, Bool, true, Option, none, some, List, [], ◌+◌, ◌⊎◌, ◌∷◌, ◌++◌,
  ◌==◌, if◌then◌else◌,
}
use Prim.Native.String.{String}
use optimized_nan_lang.Text.{trim}
use optimized_nan_lang.Npi.{split_at}

-- The map from keys to values.
abbrev pub ConfigMap : Type 0
ConfigMap = List (Bytes × Bytes)

-- `raw.find(key)`: a missing key is the empty value.
unfoldable pub get : ConfigMap → Bytes → Bytes
unfolding same
get [] key = []
get ((k, v) ∷ rest) key = if same k key then v else get rest key

-- `raw[key] = value`
unfoldable pub assign : Bytes → Bytes → ConfigMap → ConfigMap
unfolding same
assign key value [] = (key, value) ∷ []
assign key value ((k, v) ∷ rest) =
    let later = assign key value rest in if same k key then (k, value) ∷ rest else (k, v) ∷ later

abbrev pub default_config : ConfigMap
default_config =
    (codes "lib_dir", codes "./lib")
    ∷ (codes "cache_dir", codes "./.npi_cache")
    ∷ (codes "registry_url", codes "https://registry.nanlang.org")
    ∷ (codes "compiler", codes "./bin/nanlang_cpp")
    ∷ (codes "build_flags", [])
    ∷ (codes "output_dir", codes "./out")
    ∷ []

pub data ConfigFailure : Type 0 where
  missing_equals empty_key : ℕ → ConfigFailure

abbrev skipped : Bytes → Bool
skipped [] = true
skipped (c ∷ cs) = c == 0x23

-- A trimmed line.
read_entry : ℕ → Bytes → ConfigMap → ConfigFailure ⊎ ConfigMap
unfolding split_at trim assign
read_entry line_no t raw = if skipped t then inr raw else elim (split_at 0x3d t) [
  | none ↦ inl (missing_equals line_no)
  | some (key, val) ↦ elim (trim key) [
    | [] ↦ inl (empty_key line_no)
    | ◌∷◌ c cs ↦ inr (assign (c ∷ cs) (trim val) raw)
  ]
]

read_entries : ℕ → List Bytes → ConfigMap → ConfigFailure ⊎ ConfigMap
unfolding read_entry trim
read_entries line_no [] raw = inr raw
read_entries line_no (line ∷ lines) raw = elim (read_entry line_no (trim line) raw) [
  | inl failure ↦ inl failure
  | inr after ↦ read_entries (line_no + 1) lines after
]

-- `none` is a file that is not there, which leaves the defaults; one that is there and cannot be opened is
-- an exception in the source, before any line is read.
unfoldable pub load_config : Option (List Bytes) → ConfigFailure ⊎ ConfigMap
unfolding read_entries
load_config none = inr default_config
load_config (some lines) = read_entries 1 lines default_config

abbrev entry : String → Bytes → Bytes
entry label value = codes "  " ++ (codes label ++ (codes " = " ++ (value ++ 10 ∷ [])))

unfoldable pub dump : ConfigMap → Bytes
unfolding get
dump raw =
    codes "npi.conf (resolved):"
    ++ 10
      ∷ (entry "lib_dir     " (get raw (codes "lib_dir"))
          ++ (entry "cache_dir   " (get raw (codes "cache_dir"))
              ++ (entry "registry_url" (get raw (codes "registry_url"))
                  ++ (entry "compiler    " (get raw (codes "compiler"))
                      ++ (entry "build_flags " (get raw (codes "build_flags"))
                          ++ entry "output_dir  " (get raw (codes "output_dir")))))))
