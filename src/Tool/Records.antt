-- ===== src/Tool/Records.antt =====
-- NanRuntime of main.cpp prints what NanCompiler wrote.
use optimized_nan_lang.Base.{
  Bool-cases, length, drop, All, Bytes, codes, ℕ, zero, suc, refl, inl, inr, false, Option, none,
  some, List, [], arith, ◌^◌, ◌≤◌, ◌<◌, ◌≡◌, ◌≢◌, ◌∷◌, ◌++◌, ◌==◌,
}
use optimized_nan_lang.Words.{read_u32_le_ptr}
use optimized_nan_lang.Tool.{is_say, Outcome, print_first, read_buffer, run_records, run}

-- A line as it stands in a source: a `say` with the text between its quotes, or a line without one.
pub data SourceLine : Type 0 where
  say_line : Bytes → Bytes → Bytes → SourceLine
  other_line : Bytes → SourceLine

unfoldable pub line_bytes : SourceLine → Bytes
line_bytes (say_line before text behind) =
    before ++ (codes "say " ++ 0x22 ∷ (text ++ 0x22 ∷ behind))
line_bytes (other_line line) = line

unfoldable pub said : List SourceLine → List Bytes
said [] = []
said (say_line before text behind ∷ lines) = text ∷ said lines
said (other_line line ∷ lines) = said lines

abbrev HasNoQuote : Bytes → Type 0
HasNoQuote s = All (λ c. c ≢ 0x22) s

-- Quotes stand round the text only, and its size is one of 32 bits.
abbrev pub IsLine : SourceLine → Type 0
IsLine (say_line before text behind) =
    HasNoQuote before × HasNoQuote behind × (length text < 2 ^ 32)
IsLine (other_line line) = is_say line ≡ false

length-drop : (n : ℕ) (xs : Bytes) → length (drop n xs) ≤ length xs
length-drop zero xs = omega arith
length-drop (suc n) [] = omega arith
length-drop (suc n) (x ∷ xs) = omega (arith, length-drop n xs)

with_text-ne-none :
    (text : Bytes) (o : Option Outcome)
    → o ≢ none
    → elim o as (λ x. Option Outcome) [
      | none ↦ none
      | some outcome ↦ some (print_first text outcome)
    ]
      ≢ none
with_text-ne-none text none h = absurd (h refl)
with_text-ne-none text (some outcome) h = cc

-- A round for each byte is enough.
run_records-ne-none :
    (fuel : ℕ) (bytes : Bytes) → length bytes ≤ fuel → run_records fuel bytes ≢ none
unfolding run_records
run_records-ne-none zero [] h = cc
run_records-ne-none (suc fuel) [] h = cc
run_records-ne-none zero (op ∷ rest) h = absurd (omega arith)
run_records-ne-none (suc fuel) (op ∷ []) h = ground (arith, run_records-ne-none fuel [])
run_records-ne-none (suc fuel) (op ∷ a ∷ []) h = ground (arith, run_records-ne-none fuel (a ∷ []))
run_records-ne-none (suc fuel) (op ∷ a ∷ b ∷ []) h =
    ground (arith, run_records-ne-none fuel (a ∷ b ∷ []))
run_records-ne-none (suc fuel) (op ∷ a ∷ b ∷ c ∷ []) h =
    ground (arith, run_records-ne-none fuel (a ∷ b ∷ c ∷ []))
run_records-ne-none (suc fuel) (op ∷ a ∷ b ∷ c ∷ d ∷ tail) h = elim (Bool-cases (op == 2)) [
  | inl e ↦
      rw (e, run_records)
        (with_text-ne-none (read_buffer (read_u32_le_ptr a b c d) tail) _ (
          run_records-ne-none fuel (drop (read_u32_le_ptr a b c d) tail)
            (omega (arith, length-drop (read_u32_le_ptr a b c d) tail))))
  | inr e ↦ rw (e, run_records) (run_records-ne-none fuel (a ∷ b ∷ c ∷ d ∷ tail) (omega arith))
]

-- A run ends on every file.
pub run-ne-none : (file : Option Bytes) → run file ≢ none
unfolding run
run-ne-none none = cc
run-ne-none (some []) = cc
run-ne-none (some (a ∷ [])) = cc
run-ne-none (some (a ∷ b ∷ [])) = cc
run-ne-none (some (a ∷ b ∷ c ∷ [])) = cc
run-ne-none (some (a ∷ b ∷ c ∷ d ∷ rest)) =
    ground (arith, run_records-ne-none (length rest) rest (omega arith))
