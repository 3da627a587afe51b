-- ===== src/Npi.antt =====
-- The package tool of src/nan_cli_lib.cpp: its requirement files here, its configuration and the commands
-- that it runs below. Its `trim` is the one of Text.
pub mod Config
pub mod Shell
pub mod Quoted
pub mod World
pub mod Build
pub mod Keeps
pub mod Paths
mod Tests
use optimized_nan_lang.Base.{
  Bytes, ℕ, inl, inr, Bool, true, false, Option, none, some, List, [], ◌+◌, ◌⊎◌, ◌||◌, ◌∷◌, ◌++◌,
  ◌==◌, if◌then◌else◌,
}
use optimized_nan_lang.Text.{trim}

pub record PackageEntry : Type 0 where
  pub name : Bytes
  pub version : Bytes
  pub comment : Bytes
  pub line : ℕ

-- The exceptions, with their line.
pub data ReqFailure : Type 0 where
  cannot_open : ReqFailure
  unexpected_whitespace empty_version empty_name : ℕ → ReqFailure

unfoldable pub to_string : PackageEntry → Bytes
to_string p = elim p.version [ [] ↦ p.name | ◌∷◌ c cs ↦ p.name ++ 0x40 ∷ c ∷ cs ]

-- What stands in front of the first `c`, and behind it: `s.find(c)`.
unfoldable pub split_at : ℕ → Bytes → Option (Bytes × Bytes)
split_at c [] = none
split_at c (d ∷ ds) =
    let later = split_at c ds in
    if d == c
    then some ([], ds)
    else elim later [ none ↦ none | some (front, back) ↦ some (d ∷ front, back) ]

abbrev is_empty : Bytes → Bool
is_empty [] = true
is_empty (c ∷ cs) = false

has_blank : Bytes → Bool
has_blank [] = false
has_blank (c ∷ cs) = c == 0x20 || c == 9 || has_blank cs

-- The name and the version of a trimmed line: no version is the empty one.
name_and_version : ℕ → Bytes → ReqFailure ⊎ Bytes × Bytes
unfolding split_at trim
name_and_version line_no line = elim (split_at 0x40 line) [
  | none ↦ inr (trim line, [])
  | some (name, version) ↦
      if is_empty (trim version) then inl (empty_version line_no) else inr (trim name, trim version)
]

-- The comment, and the trimmed line without it.
without_comment : Bytes → Bytes × Bytes
unfolding split_at trim
without_comment raw = elim (split_at 0x23 raw) [
  | none ↦ ([], trim raw)
  | some (front, back) ↦ (trim back, trim front)
]

-- One line: no package where nothing is left of it.
unfoldable pub parse_req_line : ℕ → Bytes → ReqFailure ⊎ Option PackageEntry
unfolding without_comment has_blank name_and_version
parse_req_line line_no raw =
    let (comment, line) = without_comment raw in
    if is_empty line
    then inr none
    else if has_blank line
    then inl (unexpected_whitespace line_no)
    else elim (name_and_version line_no line) [
      | inl failure ↦ inl failure
      | inr (name, version) ↦
          if is_empty name
          then inl (empty_name line_no)
          else inr
              (some (record { name = name; version = version; comment = comment; line = line_no }))
    ]

unfoldable pub parse_req_lines : ℕ → List Bytes → ReqFailure ⊎ List PackageEntry
unfolding parse_req_line
parse_req_lines line_no [] = inr []
parse_req_lines line_no (raw ∷ lines) =
    let later = parse_req_lines (line_no + 1) lines in
    elim (parse_req_line line_no raw) [
      | inl failure ↦ inl failure
      | inr none ↦ later
      | inr (some package_entry) ↦ elim later [
        | inl failure ↦ inl failure
        | inr packages ↦ inr (package_entry ∷ packages)
      ]
    ]

-- `none` is a file that does not open.
unfoldable pub parse_reqfile : Option (List Bytes) → ReqFailure ⊎ List PackageEntry
unfolding parse_req_lines
parse_reqfile none = inl cannot_open
parse_reqfile (some lines) = parse_req_lines 1 lines
