-- ===== src/Npi/Shell.antt =====
-- The commands of the package tool: `shell_quote`, `run_command` and `invoke_compiler` of
-- src/nan_cli_lib.cpp, as the texts that the shell gets.
use optimized_nan_lang.Base.{
  Bytes, codes, is_space, ℕ, Bool, List, [], ◌∷◌, ◌++◌, ◌==◌, if◌then◌else◌,
}
use optimized_nan_lang.Npi.Config.{ConfigMap, get}

unfoldable pub quoted_byte : ℕ → Bytes
quoted_byte c = if c == 0x27 then 0x27 ∷ 0x22 ∷ 0x27 ∷ 0x22 ∷ 0x27 ∷ [] else c ∷ []

unfoldable pub quoted_body : Bytes → Bytes
unfolding quoted_byte
quoted_body [] = []
quoted_body (c ∷ cs) = quoted_byte c ++ quoted_body cs

unfoldable pub shell_quote : Bytes → Bytes
unfolding quoted_body
shell_quote s = 0x27 ∷ quoted_body s ++ 0x27 ∷ []

-- The arguments, with a space between two of them.
unfoldable pub command_line : List Bytes → Bytes
unfolding shell_quote
command_line [] = []
command_line (arg ∷ []) = shell_quote arg
command_line (arg ∷ next ∷ args) = shell_quote arg ++ 32 ∷ command_line (next ∷ args)

-- `inherit_io` is the flag of `run_command`.
unfoldable pub command_text : List Bytes → Bool → Bytes
unfolding command_line
command_text args inherit_io =
    command_line args ++ (if inherit_io then [] else codes " >/dev/null 2>/dev/null")

-- `iss >> tok` until the end: `current` is the token begun.
split_from : Bytes → Bytes → List Bytes
unfolding is_space
split_from current [] = elim current [ [] ↦ [] | ◌∷◌ c cs ↦ (c ∷ cs) ∷ [] ]
split_from current (d ∷ ds) =
    if is_space d
    then elim current [ [] ↦ split_from [] ds | ◌∷◌ c cs ↦ (c ∷ cs) ∷ split_from [] ds ]
    else split_from (current ++ d ∷ []) ds

unfoldable pub split_ws : Bytes → List Bytes
unfolding split_from
split_ws s = split_from [] s

-- The arguments of the compiler: manifest and output.
unfoldable pub compiler_args : ConfigMap → Bytes → Bytes → List Bytes
unfolding get split_ws
compiler_args cfg manifest out_path =
    (get cfg (codes "compiler")
      ∷ codes "build"
      ∷ codes "--manifest"
      ∷ manifest
      ∷ codes "--output"
      ∷ out_path
      ∷ codes "--lib"
      ∷ get cfg (codes "lib_dir")
      ∷ [])
    ++ split_ws (get cfg (codes "build_flags"))
