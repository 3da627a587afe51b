-- ===== src/Bytecode/Emitted.antt =====
-- The instructions that the loop of `compile_source` writes for a statement and for the lines.
use optimized_nan_lang.Base.{
  length, length-append, All, All-append, Bytes, ℕ, refl, sym, Bool, none, some, List, [], map,
  append-nil, append_assoc, arith, ◌+◌, ◌^◌, ◌<◌, ◌≡◌, ◌∙◌, ◌||◌, ◌∷◌, ◌++◌,
}
use optimized_nan_lang.Words.{le32, append_u32_le}
use native.Mathlib.Nat.{mod-eq_of_lt}
use mathlib.Core.Path.{subst}
use optimized_nan_lang.Bytecode.{Instr, encode, encode_all}
use optimized_nan_lang.Bytecode.Source.{
  Statement, halts, says, signals, mmio, too_large, write, read_statement,
}
use optimized_nan_lang.Bytecode.Compile.{
  Compile, Result, ok, err, ◌>>=◌, compile_statement, compile_lines, emit_say,
}
use optimized_nan_lang.Bytecode.Encoding.{Fits}
use optimized_nan_lang.Bytecode.Meaning.{SayFits, instrs, all_instrs, is_halts, any_halt}

pub Result-ok : {a b : Compile} → ok a ≡ ok b → a ≡ b
Result-ok e = cc

pub encode_all-append :
    (is js : List Instr) → encode_all (is ++ js) ≡ encode_all is ++ encode_all js
unfolding encode_all
encode_all-append [] js = refl
encode_all-append (i ∷ is) js =
    rw (encode_all-append is js) (sym (append_assoc (encode i) (encode_all is) (encode_all js)))

-- The code that one statement appends.
abbrev Appends : Statement → Compile → Compile → Type 0
Appends s st st' =
    (st'.bytecode ≡ st.bytecode ++ encode_all (instrs s))
    × (st'.emitted_ops ≡ st.emitted_ops + length (instrs s))
    × (st'.has_halt ≡ (st.has_halt || is_halts s))

emit_say-Appends :
    (text : Bytes) (st : Compile)
    → length text < 2 ^ 32
    → Appends (says (some text)) st (emit_say text st)
unfolding emit_say instrs encode_all encode append_u32_le
emit_say-Appends text st h = (
  rw (mod-eq_of_lt h, append-nil)
      (append_assoc (st.bytecode ++ 0x02 ∷ []) (le32 (length text)) text
        ∙ append_assoc st.bytecode (0x02 ∷ []) (le32 (length text) ++ text)),
  omega arith,
  ground arith,
)

compile_statement-Appends :
    (n : ℕ) (s : Statement) (st : Compile) {st' : Compile}
    → SayFits s
    → compile_statement n s st ≡ ok st'
    → Appends s st st'
unfolding compile_statement instrs encode_all encode
compile_statement-Appends n (says (some text)) st {st'} h e =
    subst (Appends (says (some text)) st) (Result-ok {b = st'} e) (emit_say-Appends text st h)
compile_statement-Appends n (says none) st h e = cc
compile_statement-Appends n (signals none) st h e = cc
compile_statement-Appends n (mmio too_large) st h e = cc
compile_statement-Appends n (signals (some (is_pulse, s))) st h e = ground arith
compile_statement-Appends n _ st h e = ground (arith, append-nil st.bytecode)

-- Both parts of a chain that succeeds succeed.
pub ok_parts :
    {A B : Type 0} {b : B} (next : A → Result B) (first : Result A)
    → (first >>= next) ≡ ok b
    → (a : A) × (next a ≡ ok b) × (first ≡ ok a)
ok_parts next (err failure) e = cc
ok_parts next (ok a) e = (a, e, refl)

or_assoc : (a b c : Bool) → ((a || b) || c) ≡ (a || (b || c))
or_assoc a b c = ground arith

-- The code that the loop appends for the lines.
pub compile_lines-Appends :
    (n : ℕ) (ls : List Bytes) (st : Compile) {st' : Compile}
    → All (λ l. SayFits (read_statement l)) ls
    → compile_lines n ls st ≡ ok st'
    → (st'.bytecode ≡ st.bytecode ++ encode_all (all_instrs (map read_statement ls)))
      × (st'.emitted_ops ≡ st.emitted_ops + length (all_instrs (map read_statement ls)))
      × (st'.has_halt ≡ (st.has_halt || any_halt (map read_statement ls)))
unfolding compile_lines all_instrs any_halt
compile_lines-Appends n [] st h e = unfold encode_all in ground (arith, append-nil st.bytecode)
compile_lines-Appends n (l ∷ ls) st {st'} h e =
    let (mid, e₂, e₁) = ok_parts _ (compile_statement n (read_statement l) st) e in
    let (b₁, c₁, d₁) = compile_statement-Appends n (read_statement l) st h.0 e₁ in
    let (b₂, c₂, d₂) = compile_lines-Appends (n + 1) ls mid h.1 e₂ in
    let is = instrs (read_statement l) in
    let js = all_instrs (map read_statement ls) in
    (
      b₂ ∙ rw (b₁, encode_all-append) (append_assoc st.bytecode (encode_all is) (encode_all js)),
      omega (arith, c₁, c₂, length-append is js),
      d₂ ∙ rw d₁ (or_assoc st.has_halt _ _),
    )

pub All-Fits : (ss : List Statement) → All SayFits ss → All Fits (all_instrs ss)
unfolding all_instrs
All-Fits [] h = tt
All-Fits (s ∷ ss) h = All-append Fits (instrs s) (all_instrs ss) (one s h.0) (All-Fits ss h.1)
  where
    one : (s : Statement) → SayFits s → All Fits (instrs s)
    one (says (some text)) h = (h, tt)
    one (says none) h = tt
    one (signals (some p)) h = (tt, (tt, tt))
    one (signals none) h = tt
    one (mmio (write addr value)) h = (tt, (tt, tt))
    one halts h = (tt, tt)
    one _ h = tt
