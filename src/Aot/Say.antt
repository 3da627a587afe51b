-- ===== src/Aot/Say.antt =====
-- A program of `say` lines, from the source text to what the executable prints.
use optimized_nan_lang.Base.{
  length, All, Bytes, codes, ℕ, refl, sym, ap, Bool, true, false, none, some, List, [], map,
  append-nil, append_assoc, arith, ◌+◌, ◌*◌, ◌^◌, ◌<◌, ◌≡◌, ◌∙◌, ◌≢◌, ◌∷◌, ◌++◌,
}
use mathlib.Core.List.{reverse, reverse-append, reverse-reverse}
use optimized_nan_lang.X86.{exited}
use optimized_nan_lang.Elf.Load.{execute}
use optimized_nan_lang.Native.Layout.{flat}
use optimized_nan_lang.Aot.Ir.{instruction, print, halt}
use optimized_nan_lang.Aot.Layout.{Simple, prints, halts, to_instruction}
use optimized_nan_lang.Aot.Run.{said, HasHalt, rounds}
use optimized_nan_lang.Aot.Correct.{main_func}
use optimized_nan_lang.Aot.Parse.{
  Parsing, parse, parse_lines, parse_plain, parse_statement, strip_comment, trim_blanks,
  split_arrow, between_quotes, before_last_quote, unescape, compile_to_native, skip_blanks,
  close_main,
}
use optimized_nan_lang.Aot.Program.{execute-parsed}

-- Bytes that mean themselves in a string of a program: no quote, no backslash, no `=`.
abbrev pub IsPlain : ℕ → Type 0
IsPlain c = (c ≢ 0x22) × (c ≢ 0x5c) × (c ≢ 0x3d)

abbrev pub say_line : Bytes → Bytes
say_line text = codes "say \"" ++ (text ++ 0x22 ∷ [])

strip-quoted :
    (text : Bytes) → All IsPlain text → strip_comment true (text ++ 0x22 ∷ []) ≡ text ++ 0x22 ∷ []
unfolding strip_comment
strip-quoted [] h = refl
strip-quoted (c ∷ []) h = ground arith
strip-quoted (c ∷ d ∷ cs) h = ground (arith, strip-quoted (d ∷ cs))

split-quoted : (text : Bytes) → All IsPlain text → split_arrow (text ++ 0x22 ∷ []) ≡ none
unfolding split_arrow
split-quoted [] h = refl
split-quoted (c ∷ []) h = ground arith
split-quoted (c ∷ d ∷ cs) h = ground (arith, split-quoted (d ∷ cs))

before-quoted : (text : Bytes) → before_last_quote (text ++ 0x22 ∷ []) ≡ some text
unfolding before_last_quote
before-quoted [] = refl
before-quoted (c ∷ cs) = rw (before-quoted cs) refl

unescape-plain : (text : Bytes) → All IsPlain text → unescape text ≡ text
unfolding unescape
unescape-plain [] h = refl
unescape-plain (c ∷ []) h = refl
unescape-plain (c ∷ d ∷ cs) h = ground (arith, unescape-plain (d ∷ cs))

strip-say_line :
    (text : Bytes) → All IsPlain text → strip_comment false (say_line text) ≡ say_line text
strip-say_line text h =
    opened (text ++ 0x22 ∷ []) ∙ ap (λ t. codes "say \"" ++ t) (strip-quoted text h)
  where
    opened :
        (s : Bytes)
        → strip_comment false (codes "say \"" ++ s) ≡ codes "say \"" ++ strip_comment true s
    opened [] = unfold strip_comment in refl
    opened (c ∷ cs) = unfold strip_comment in refl

trim-ends : (xs : Bytes) → trim_blanks (0x73 ∷ (xs ++ 0x22 ∷ [])) ≡ 0x73 ∷ (xs ++ 0x22 ∷ [])
trim-ends xs =
    first
    ∙ ap (λ s. reverse (skip_blanks s)) flipped
    ∙ second
    ∙ ap reverse (sym flipped)
    ∙ reverse-reverse (0x73 ∷ (xs ++ 0x22 ∷ []))
  where
    flipped : reverse (0x73 ∷ (xs ++ 0x22 ∷ [])) ≡ 0x22 ∷ reverse (0x73 ∷ xs)
    flipped = reverse-append (0x73 ∷ xs) (0x22 ∷ [])

    first :
        trim_blanks (0x73 ∷ (xs ++ 0x22 ∷ []))
        ≡ reverse (skip_blanks (reverse (0x73 ∷ (xs ++ 0x22 ∷ []))))
    first = unfold trim_blanks skip_blanks in refl

    second :
        reverse (skip_blanks (0x22 ∷ reverse (0x73 ∷ xs))) ≡ reverse (0x22 ∷ reverse (0x73 ∷ xs))
    second = unfold skip_blanks in refl

split-open : (text : Bytes) → All IsPlain text → split_arrow (0x22 ∷ (text ++ 0x22 ∷ [])) ≡ none
split-open [] h = unfold split_arrow in refl
split-open (c ∷ cs) h = unfold split_arrow in rw (split-quoted (c ∷ cs) h) refl

-- What a `say` prints: its text and the implicit newline.
abbrev pub shown_line : Bytes → Bytes
shown_line text = text ++ 10 ∷ []

parse_plain-say_line :
    (p : Parsing) (text : Bytes)
    → All IsPlain text
    → parse_plain p (say_line text)
      ≡ record p { instructions = p.instructions ++ instruction print (shown_line text) ∷ [] }
unfolding parse_plain between_quotes
parse_plain-say_line p text h = rw (before-quoted text, unescape-plain text h) refl

parse_statement-say_line :
    (p : Parsing) (text : Bytes)
    → All IsPlain text
    → parse_statement p (trim_blanks (strip_comment false (say_line text)))
      ≡ record p { instructions = p.instructions ++ instruction print (shown_line text) ∷ [] }
parse_statement-say_line p text h =
    ap (parse_statement p)
      (ap trim_blanks (strip-say_line text h) ∙ trim-ends (codes "ay \"" ++ text))
    ∙ (unfold parse_statement in rw (split-open text h) (parse_plain-say_line p text h))

say_prints : List Bytes → List Simple
say_prints [] = []
say_prints (t ∷ ts) = prints (shown_line t) ∷ say_prints ts

parse_lines-say_lines :
    (ts : List Bytes) (p : Parsing)
    → All (All IsPlain) ts
    → parse_lines p (map say_line ts)
      ≡ record p { instructions = p.instructions ++ map to_instruction (say_prints ts) }
unfolding parse_lines say_prints
parse_lines-say_lines [] p h =
    ap (λ is. record p { instructions = is }) (sym (append-nil p.instructions))
parse_lines-say_lines (t ∷ ts) p (h, hs) =
    ap (λ q. parse_lines q (map say_line ts)) (parse_statement-say_line p t h)
    ∙ parse_lines-say_lines ts
        (record p { instructions = p.instructions ++ instruction print (shown_line t) ∷ [] }) hs
    ∙ ap (λ is. record p { instructions = is })
        (append_assoc p.instructions (instruction print (shown_line t) ∷ [])
          (map to_instruction (say_prints ts)))

program : List Bytes → List Simple
program ts = say_prints ts ++ halts ∷ []

program-facts :
    (ts : List Bytes)
    → HasHalt (program ts)
      × (said (program ts) ≡ flat (map shown_line ts))
      × (rounds (program ts) ≡ 5 * length ts + 3)
      × (map to_instruction (program ts)
          ≡ map to_instruction (say_prints ts) ++ instruction halt [] ∷ [])
unfolding program say_prints
program-facts [] = (tt, refl, refl, refl)
program-facts (t ∷ ts) =
    let (h, s, r, m) = program-facts ts in
    (
      h,
      ap (λ u. shown_line t ++ u) s,
      omega (arith, r),
      ap (λ is. instruction print (shown_line t) ∷ is) m,
    )

parse-say_lines :
    (match_val : Bytes) (resolved : Bool) (t : Bytes) (ts : List Bytes)
    → All (All IsPlain) (t ∷ ts)
    → parse match_val resolved (map say_line (t ∷ ts)) ≡ some (main_func (program (t ∷ ts)) ∷ [])
unfolding parse close_main
parse-say_lines match_val resolved t ts h =
    rw
      (parse_lines-say_lines (t ∷ ts)
        (record {
          instructions = [];
          current_match_val = match_val;
          match_resolved = resolved;
          has_halt = false;
        })
        h)
      (ap
        (λ is. some (
          record {
            name = codes "main";
            blocks = record { label = codes "entry"; instructions = is } ∷ [];
            stack_size = 0;
          }
          ∷ []))
        (sym m))
  where
    m :
        map to_instruction (program (t ∷ ts))
        ≡ map to_instruction (say_prints (t ∷ ts)) ++ instruction halt [] ∷ []
    m = let (_, _, _, made) = program-facts (t ∷ ts) in made

-- The executable made of the lines `say "t"`, for texts with no quote, backslash or `=`, prints every
-- text with a newline behind it, in their order, and exits with status 0, entered with any registers
-- and whatever a former parse left in the match variables, if it is shorter than 2 GiB.
pub execute-say_lines :
    (match_val : Bytes) (resolved : Bool) (t : Bytes) (ts : List Bytes) (regs : ℕ → ℕ)
    {file : Bytes}
    → All (All IsPlain) (t ∷ ts)
    → compile_to_native match_val resolved (map say_line (t ∷ ts)) true ≡ some file
    → length file < 2 ^ 31
    → execute file (5 * length (t ∷ ts) + 3) regs ≡ some (exited 0 (flat (map shown_line (t ∷ ts))))
execute-say_lines match_val resolved t ts regs {file} h e small =
    let (stops, s, r, m) = program-facts (t ∷ ts) in
    ap (λ n. execute file n regs) (sym r)
    ∙ execute-parsed match_val resolved (map say_line (t ∷ ts)) (program (t ∷ ts)) regs
        (parse-say_lines match_val resolved t ts h) stops e small
    ∙ ap (λ o. some (exited 0 o)) s
