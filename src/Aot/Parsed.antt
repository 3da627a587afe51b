-- ===== src/Aot/Parsed.antt =====
-- The parser makes a list of PRINT and HALT instructions, with a HALT at the latest at its end.
use optimized_nan_lang.Base.{
  same, Bytes, codes, refl, sym, ap, Bool, true, false, Option, none, some, List, [], map, ◌≡◌, ◌∙◌,
  ◌||◌, ◌∷◌, ◌++◌, if◌then◌else◌,
}
use optimized_nan_lang.Aot.Ir.{instruction, print, halt}
use optimized_nan_lang.Aot.Layout.{Simple, prints, halts, to_instruction}
use optimized_nan_lang.Aot.Run.{HasHalt}
use optimized_nan_lang.Aot.Correct.{main_func}
use optimized_nan_lang.Text.{after_prefix}
use optimized_nan_lang.Aot.Parse.{
  between_quotes, parse_match, parse_arm, starts, unescape, before_brace, trim_blanks, skip_blanks,
  is_skipped, split_arrow, Parsing, parse_lines, close_main, parse_plain, parse_statement, unescape,
  trim_blanks, starts, strip_comment, between_quotes,
}

-- The instructions of a parser, as a list of PRINT and HALT. A HALT is among them if `has_halt` says so.
unfoldable pub Parsed : Parsing → Type 0
Parsed p =
    (is : List Simple) × (p.instructions ≡ map to_instruction is) × (p.has_halt ≡ true → HasHalt is)

HasHalt-append : (is js : List Simple) → HasHalt is → HasHalt (is ++ js)
HasHalt-append [] js h = absurd h
HasHalt-append (prints text ∷ is) js h = HasHalt-append is js h
HasHalt-append (halts ∷ is) js h = tt

HasHalt-end : (is : List Simple) → HasHalt (is ++ halts ∷ [])
HasHalt-end [] = tt
HasHalt-end (prints text ∷ is) = HasHalt-end is
HasHalt-end (halts ∷ is) = tt

map-append_simple :
    (is js : List Simple)
    → map to_instruction (is ++ js) ≡ map to_instruction is ++ map to_instruction js
map-append_simple [] js = refl
map-append_simple (i ∷ is) js = ap (λ r. to_instruction i ∷ r) (map-append_simple is js)

if-Parsed : (b : Bool) (p q : Parsing) → Parsed p → Parsed q → Parsed (if b then p else q)
if-Parsed true p q hp hq = hp
if-Parsed false p q hp hq = hq

parse_plain-Parsed : (p : Parsing) (line : Bytes) → Parsed p → Parsed (parse_plain p line)
unfolding parse_plain Parsed
parse_plain-Parsed p line (is, e, h) =
    if-Parsed (starts line (codes "say ")) _ _ (says (between_quotes line)) (
      if-Parsed (starts line (codes "halt")) _ _
        (
          is ++ halts ∷ [],
          ap (λ t. t ++ instruction halt [] ∷ []) e ∙ sym (map-append_simple is (halts ∷ [])),
          λ _. HasHalt-end is,
        )
        (is, e, h))
  where
    says :
        (o : Option Bytes)
        → Parsed (elim o [
          | none ↦ p
          | some text ↦ record p {
            instructions = p.instructions ++ instruction print (unescape text ++ 10 ∷ []) ∷ [];
          }
        ])
    says none = (is, e, h)
    says (some text) = (
      is ++ prints (unescape text ++ 10 ∷ []) ∷ [],
      ap (λ t. t ++ instruction print (unescape text ++ 10 ∷ []) ∷ []) e
          ∙ sym (map-append_simple is (prints (unescape text ++ 10 ∷ []) ∷ [])),
      λ m. HasHalt-append is _ (h m),
    )

parse_match-Parsed : (p : Parsing) (rest : Bytes) → Parsed p → Parsed (parse_match p rest)
unfolding parse_match Parsed
parse_match-Parsed p rest (is, e, h) = cases (before_brace rest)
  where
    cases :
        (o : Option Bytes)
        → Parsed (elim o [
          | none ↦ record p { match_resolved = false }
          | some val ↦ record p { current_match_val = trim_blanks val; match_resolved = false }
        ])
    cases none = (is, e, h)
    cases (some val) = (is, e, h)

parse_arm-Parsed :
    (p : Parsing) (condition action : Bytes) → Parsed p → Parsed (parse_arm p condition action)
unfolding parse_arm Parsed
parse_arm-Parsed p condition action (is, e, h) =
    let cond = trim_blanks condition in
    if-Parsed p.match_resolved _ _ (is, e, h)
      (if-Parsed (same cond p.current_match_val || same cond (codes "_")) _ _
        (if-Parsed (starts (skip_blanks action) (codes "say ")) _ _
          (parse_plain-Parsed (record p { match_resolved = true }) (skip_blanks action) (is, e, h))
          (is, e, h))
        (is, e, h))

parse_statement-Parsed : (p : Parsing) (line : Bytes) → Parsed p → Parsed (parse_statement p line)
unfolding parse_statement
parse_statement-Parsed p line h =
    if-Parsed (is_skipped line) _ _ h (rest (after_prefix (codes "match ") line) (split_arrow line))
  where
    rest :
        (o : Option Bytes) (a : Option (Bytes × Bytes))
        → Parsed (elim o [
          | some rest ↦ parse_match p rest
          | none ↦ elim a [
            | some (condition, action) ↦ parse_arm p condition action
            | none ↦ parse_plain p line
          ]
        ])
    rest (some r) a = parse_match-Parsed p r h
    rest none (some (condition, action)) = parse_arm-Parsed p condition action h
    rest none none = parse_plain-Parsed p line h

pub parse_lines-Parsed :
    (p : Parsing) (lines : List Bytes) → Parsed p → Parsed (parse_lines p lines)
unfolding parse_lines
parse_lines-Parsed p [] h = h
parse_lines-Parsed p (raw ∷ lines) h =
    parse_lines-Parsed (parse_statement p (trim_blanks (strip_comment false raw))) lines
      (parse_statement-Parsed p (trim_blanks (strip_comment false raw)) h)

pub close_main-main_func :
    (p : Parsing) → Parsed p → (is : List Simple) × (close_main p ≡ main_func is ∷ []) × HasHalt is
unfolding close_main Parsed
close_main-main_func p (is, e, h) = cases p.has_halt h
  where
    cases :
        (b : Bool)
        → (b ≡ true → HasHalt is)
        → (js : List Simple) × ((record {
          name = codes "main";
          blocks =
              record {
                label = codes "entry";
                instructions =
                    if b then p.instructions else p.instructions ++ instruction halt [] ∷ [];
              }
              ∷ [];
          stack_size = 0;
        }
              ∷ [])
            ≡ main_func js ∷ [])
          × HasHalt js
    cases true h = (
      is,
      ap
          (λ js.
            record {
              name = codes "main";
              blocks = record { label = codes "entry"; instructions = js } ∷ [];
              stack_size = 0;
            }
            ∷ [])
          e,
      h refl,
    )
    cases false h = (
      is ++ halts ∷ [],
      ap
          (λ js.
            record {
              name = codes "main";
              blocks = record { label = codes "entry"; instructions = js } ∷ [];
              stack_size = 0;
            }
            ∷ [])
          (ap (λ t. t ++ instruction halt [] ∷ []) e ∙ sym (map-append_simple is (halts ∷ []))),
      HasHalt-end is,
    )
