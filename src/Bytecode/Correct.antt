-- ===== src/Bytecode/Correct.antt =====
-- `run_bytecode` on what `compile_source` writes.
use optimized_nan_lang.Base.{
  Bool-cases, length, length-append, All, All-append, Bytes, refl, inl, inr, true, not, none, some,
  List, [], map, append-nil, arith, ◌+◌, ◌^◌, ◌<◌, ◌≡◌, ◌∙◌, ◌≢◌, ◌⊎◌, ◌||◌, ◌∷◌, ◌++◌, ◌==◌,
}
use optimized_nan_lang.Text.{normalize_source_line, extract_quoted_string}
use optimized_nan_lang.Text.Lengths.{length-normalize, length-extract}
use optimized_nan_lang.Bytecode.{Instr, halt, encode_all, magic_bytes}
use optimized_nan_lang.Bytecode.Source.{Statement, says, classify, classify_rest, read_statement}
use optimized_nan_lang.Bytecode.Compile.{
  Compile, ok, start, compile_lines, compile_source, finish, emit_halt,
}
use optimized_nan_lang.Bytecode.Run.{halted, run_bytecode}
use optimized_nan_lang.Bytecode.Encoding.{Fits, run_bytecode-encode_all}
use optimized_nan_lang.Bytecode.Meaning.{SayFits, all_instrs, any_halt, printed, exec-all_instrs}
use optimized_nan_lang.Bytecode.Emitted.{
  Result-ok, encode_all-append, ok_parts, compile_lines-Appends, All-Fits,
}

SayFits-of : (s : Statement) → ((t : Bytes) → s ≡ says (some t) → length t < 2 ^ 32) → SayFits s
SayFits-of (says (some t)) h = h t refl
SayFits-of (says none) h = tt
SayFits-of _ h = tt

classify_rest-ne-says : (line t : Bytes) → classify_rest line ≢ says (some t)
unfolding classify_rest
classify_rest-ne-says [] t e = cc
classify_rest-ne-says (c ∷ cs) t e = ground arith

classify-says :
    (line t : Bytes) → classify line ≡ says (some t) → extract_quoted_string line ≡ some t
unfolding classify
classify-says line t e = ground (arith, classify_rest-ne-says line t)

-- A line shorter than 4 GiB has no longer text in it.
read_statement-SayFits : (raw : Bytes) → length raw < 2 ^ 32 → SayFits (read_statement raw)
read_statement-SayFits raw h = SayFits-of _ λ t e. omega (
  arith,
  length-normalize raw,
  length-extract (normalize_source_line raw)
      (classify-says (normalize_source_line raw) t (unfold read_statement in e)),
)

AllSayFits :
    (lines : List Bytes)
    → All (λ l. length l < 2 ^ 32) lines
    → All (λ l. SayFits (read_statement l)) lines
AllSayFits [] h = tt
AllSayFits (l ∷ ls) h = (read_statement-SayFits l h.0, AllSayFits ls h.1)

All-map :
    (lines : List Bytes)
    → All (λ l. SayFits (read_statement l)) lines
    → All SayFits (map read_statement lines)
All-map [] h = tt
All-map (l ∷ ls) h = (h.0, All-map ls h.1)

-- The finished bytecode is that of the statements, with one more HALT where they have none.
finish-cases :
    (ss : List Statement) (st : Compile)
    → st.bytecode ≡ magic_bytes ++ encode_all (all_instrs ss)
    → st.has_halt ≡ any_halt ss
    → (is : List Instr) × ((finish st).bytecode ≡ magic_bytes ++ encode_all (all_instrs ss ++ is))
      × ((any_halt ss ≡ true) ⊎ (is ≡ halt ∷ []))
      × All Fits is
      × ((finish st).emitted_ops ≡ st.emitted_ops + length is)
unfolding finish emit_halt encode_all
finish-cases ss st b h = elim (Bool-cases (st.emitted_ops == 0 || not st.has_halt)) [
  | inl more ↦ (halt ∷ [], rw (more, b, encode_all-append) refl, inr refl, (tt, tt), rw more)
  | inr done ↦ ([], rw (done, append-nil) b, inl (ground arith), tt, rw done (omega arith))
]

compile_source-parts :
    (lines : List Bytes) {c : Compile}
    → compile_source lines ≡ ok c
    → (st : Compile) × (compile_lines 1 lines start ≡ ok st) × (finish st ≡ c)
unfolding compile_source
compile_source-parts lines {c} e =
    let (st, e₂, e₁) = ok_parts {b = c} (λ st. ok (finish st)) (compile_lines 1 lines start) e in
    (st, e₁, Result-ok {b = c} e₂)

-- The bytecode of a source file whose lines are shorter than 4 GiB runs without a fault to a HALT, and
-- prints what the statements of the file mean, up to the first `halt`.
pub run_bytecode-compile_source :
    (lines : List Bytes) {c : Compile}
    → All (λ l. length l < 2 ^ 32) lines
    → compile_source lines ≡ ok c
    → run_bytecode c.bytecode ≡ halted (printed (map read_statement lines))
run_bytecode-compile_source lines {c} short e =
    let fits = AllSayFits lines short in
    let ss = map read_statement lines in
    let (st, e₁, made) = compile_source-parts lines e in
    let (b, _, d) = compile_lines-Appends 1 lines start fits e₁ in
    let (is, f, ends, fit, _) = finish-cases ss st b d in
    rw (← made, f)
      (run_bytecode-encode_all (all_instrs ss ++ is)
          (All-append Fits (all_instrs ss) is (All-Fits ss (All-map lines fits)) fit)
        ∙ exec-all_instrs ss 0 [] is ends)

-- The number of operations that the compiler reports is the number of instructions in the bytecode, for
-- a source file whose lines are shorter than 4 GiB.
pub emitted_ops-compile_source :
    (lines : List Bytes) {c : Compile}
    → All (λ l. length l < 2 ^ 32) lines
    → compile_source lines ≡ ok c
    → (is : List Instr) × (c.bytecode ≡ magic_bytes ++ encode_all is) × (c.emitted_ops ≡ length is)
emitted_ops-compile_source lines {c} short e =
    let fits = AllSayFits lines short in
    let ss = map read_statement lines in
    let (st, e₁, made) = compile_source-parts lines e in
    let (b, count, d) = compile_lines-Appends 1 lines start fits e₁ in
    let (is, f, _, _, more) = finish-cases ss st b d in
    (
      all_instrs ss ++ is,
      rw (← made) f,
      rw (← made) (omega (arith, more, count, length-append (all_instrs ss) is)),
    )
