-- ===== src/Aot/Parse.antt =====
-- `Parser::parse` and `AOTCompiler::compile_to_native` of src/nan_aot_compiler.cpp. The two static
-- variables of the match support outlive a call, so they are arguments.
use optimized_nan_lang.Base.{
  same, Bytes, codes, ℕ, Bool, true, false, not, Option, none, some, List, [], ◌&&◌, ◌||◌, ◌∷◌,
  ◌++◌, ◌==◌, if◌then◌else◌,
}
use mathlib.Core.List.{reverse}
use optimized_nan_lang.Text.{after_prefix}
use optimized_nan_lang.Elf.{build_elf_executable}
use optimized_nan_lang.Aot.Ir.{IrInstruction, IrFunction, instruction, print, halt}
use optimized_nan_lang.Aot.Generate.{generate}

unfoldable pub strip_comment : Bool → Bytes → Bytes
strip_comment in_str [] = []
strip_comment in_str (c ∷ []) = c ∷ []
strip_comment in_str (c ∷ next ∷ cs) =
    let q = if c == 0x22 then not in_str else in_str in
    let rest = strip_comment q (next ∷ cs) in
    if not q && c == 0x2f && next == 0x2f then [] else c ∷ rest

unfoldable pub skip_blanks : Bytes → Bytes
skip_blanks [] = []
skip_blanks (c ∷ cs) = if c == 0x20 || c == 0x09 then skip_blanks cs else c ∷ cs

unfoldable pub trim_blanks : Bytes → Bytes
unfolding skip_blanks
trim_blanks s = reverse (skip_blanks (reverse (skip_blanks s)))

unfoldable pub starts : Bytes → Bytes → Bool
unfolding after_prefix
starts line prefix = elim (after_prefix prefix line) [ none ↦ false | some rest ↦ true ]

unfoldable pub is_skipped : Bytes → Bool
unfolding same starts
is_skipped line =
    same line []
    || (same line (codes "{")
        || (same line (codes "}")
            || (same line (codes "};")
                || (starts line (codes "fn ")
                    || (starts line (codes "let ")
                        || (starts line (codes "const ")
                            || (starts line (codes "on ")
                                || (starts line (codes "interrupt ")
                                    || starts line (codes "return")))))))))

abbrev pub map_option {ℓ κ} : {A : Type ℓ} {B : Type κ} → (A → B) → Option A → Option B
map_option f none = none
map_option f (some a) = some (f a)

-- What stands in front of the first `{`.
unfoldable pub before_brace : Bytes → Option Bytes
before_brace [] = none
before_brace (c ∷ cs) =
    let rest = before_brace cs in if c == 0x7b then some [] else map_option (λ t. c ∷ t) rest

-- Both sides of the first `=>`.
unfoldable pub split_arrow : Bytes → Option (Bytes × Bytes)
split_arrow [] = none
split_arrow (c ∷ []) = none
split_arrow (c ∷ next ∷ cs) =
    let rest = split_arrow (next ∷ cs) in
    if c == 0x3d && next == 0x3e then some ([], cs) else map_option (λ p. (c ∷ p.0, p.1)) rest

-- What stands in front of the last quote.
unfoldable pub before_last_quote : Bytes → Option Bytes
before_last_quote [] = none
before_last_quote (c ∷ cs) = elim (before_last_quote cs) [
  | some t ↦ some (c ∷ t)
  | none ↦ if c == 0x22 then some [] else none
]

-- From behind the first quote to the last one.
unfoldable pub between_quotes : Bytes → Option Bytes
unfolding before_last_quote
between_quotes [] = none
between_quotes (c ∷ cs) = if c == 0x22 then before_last_quote cs else between_quotes cs

unescaped : ℕ → Bytes
unescaped c =
    if c == 0x6e
    then 10 ∷ []
    else if c == 0x74
    then 9 ∷ []
    else if c == 0x72
    then 13 ∷ []
    else if c == 0x22
    then 0x22 ∷ []
    else 0x5c ∷ c ∷ []

unfoldable pub unescape : Bytes → Bytes
unfolding unescaped
unescape [] = []
unescape (c ∷ []) = c ∷ []
unescape (c ∷ n ∷ cs) = elim (c == 0x5c) [
  | true ↦ unescaped n ++ unescape cs
  | false ↦ c ∷ unescape (n ∷ cs)
]

pub record Parsing : Type 0 where
  pub instructions : List IrInstruction
  pub current_match_val : Bytes
  pub match_resolved : Bool
  pub has_halt : Bool

-- The tests for `say ` and `halt`, with an implicit newline behind the text.
unfoldable pub parse_plain : Parsing → Bytes → Parsing
unfolding starts between_quotes unescape
parse_plain p line =
    if starts line (codes "say ")
    then elim (between_quotes line) [
      | none ↦ p
      | some text ↦ record p {
        instructions = p.instructions ++ instruction print (unescape text ++ 10 ∷ []) ∷ [];
      }
    ]
    else if starts line (codes "halt")
    then record p { instructions = p.instructions ++ instruction halt [] ∷ []; has_halt = true }
    else p

-- `match VALUE {`
unfoldable pub parse_match : Parsing → Bytes → Parsing
unfolding before_brace trim_blanks
parse_match p rest = elim (before_brace rest) [
  | none ↦ record p { match_resolved = false }
  | some val ↦ record p { current_match_val = trim_blanks val; match_resolved = false }
]

-- `CONDITION => ACTION`
unfoldable pub parse_arm : Parsing → Bytes → Bytes → Parsing
unfolding parse_plain trim_blanks same
parse_arm p condition action =
    let cond = trim_blanks condition in
    if p.match_resolved
    then p
    else if same cond p.current_match_val || same cond (codes "_")
    then if starts (skip_blanks action) (codes "say ")
      then parse_plain (record p { match_resolved = true }) (skip_blanks action)
      else record p { match_resolved = true }
    else p

-- A line without its comment and the blanks around it.
unfoldable pub parse_statement : Parsing → Bytes → Parsing
unfolding is_skipped parse_match parse_arm split_arrow
parse_statement p line = if is_skipped line then p else elim (after_prefix (codes "match ") line) [
  | some rest ↦ parse_match p rest
  | none ↦ elim (split_arrow line) [
    | some (condition, action) ↦ parse_arm p condition action
    | none ↦ parse_plain p line
  ]
]

unfoldable pub parse_lines : Parsing → List Bytes → Parsing
unfolding parse_statement strip_comment
parse_lines p [] = p
parse_lines p (raw ∷ lines) =
    parse_lines (parse_statement p (trim_blanks (strip_comment false raw))) lines

-- An explicit halt where the source has none.
unfoldable pub close_main : Parsing → List IrFunction
close_main p =
    let is = if p.has_halt then p.instructions else p.instructions ++ instruction halt [] ∷ [] in
    record {
      name = codes "main";
      blocks = record { label = codes "entry"; instructions = is } ∷ [];
      stack_size = 0;
    }
    ∷ []

-- `none` is the error "Empty source file".
unfoldable pub parse : Bytes → Bool → List Bytes → Option (List IrFunction)
unfolding parse_lines close_main
parse match_val resolved [] = none
parse match_val resolved (l ∷ ls) = some (
    close_main (
      parse_lines
        (record {
          instructions = [];
          current_match_val = match_val;
          match_resolved = resolved;
          has_halt = false;
        })
        (l ∷ ls)))

-- The bytes that are written to the output file.
unfoldable pub compile_to_native : Bytes → Bool → List Bytes → Bool → Option Bytes
unfolding parse generate build_elf_executable
compile_to_native match_val resolved lines as_elf =
    map_option (λ fs. if as_elf then build_elf_executable (generate fs) else generate fs)
      (parse match_val resolved lines)
