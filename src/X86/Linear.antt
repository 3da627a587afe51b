-- ===== src/X86/Linear.antt =====
-- Straight-line code: the bytes of a list of instructions run as the instructions do, one by one.
use optimized_nan_lang.Base.{
  length, drop, drop-length_append, All, Bytes, ℕ, zero, suc, refl, ap, some, List, [],
  append_assoc, arith, ◌+◌, ◌≡◌, ◌∙◌, ◌∷◌, ◌++◌,
}
use native.Mathlib.Nat.{zero-add, add-zero}
use Prim.Native.Nat.add
use optimized_nan_lang.X86.{
  Insn, mov_imm, lea_rsi, xor_rdi, syscall, decode, Cpu, Next, go, done, perform, run, finish,
}

-- Instructions with their bytes.
abbrev pub Code : Type 0
Code = List (Insn × Bytes)

abbrev pub flatten : Code → Bytes
flatten [] = []
flatten ((i, bs) ∷ code) = bs ++ flatten code

-- The bytes are those of the instruction, whatever follows them.
abbrev pub Encodes : Insn × Bytes → Type 0
Encodes (i, bs) = (rest : Bytes) → decode (bs ++ rest) ≡ some (i, length bs)

pub drop-add : (a b : ℕ) (xs : Bytes) → drop (a + b) xs ≡ drop b (drop a xs)
drop-add zero b xs = rw zero-add
drop-add (suc a) zero [] = rw add-zero
drop-add (suc a) (suc b) [] = rw add.suc
drop-add (suc a) b (x ∷ xs) = rw add.suc (drop-add a b xs)

abbrev pub follow : Next → (Cpu → Next) → Next
follow (go cpu) k = k cpu
follow (done o) k = done o

module _ (image : Bytes) (base : ℕ) where
  unfoldable pub perform_all : Code → Cpu → Next
  perform_all [] cpu = go cpu
  perform_all ((i, bs) ∷ code) cpu =
      follow (perform image base i (length bs) cpu) (perform_all code)

  rip-perform :
      (i : Insn) (n : ℕ) (cpu : Cpu) {cpu' : Cpu}
      → perform image base i n cpu ≡ go cpu'
      → cpu'.rip ≡ cpu.rip + n
  unfolding perform
  rip-perform (mov_imm r v) n cpu e = cc
  rip-perform (lea_rsi d) n cpu e = cc
  rip-perform xor_rdi n cpu e = cc
  rip-perform syscall n cpu e = ground arith

  run_step :
      (fuel : ℕ) (cpu : Cpu) {i : Insn} {n : ℕ}
      → decode (drop cpu.rip image) ≡ some (i, n)
      → run image base (suc fuel) cpu ≡ finish (perform image base i n cpu) (run image base fuel)
  unfolding run
  run_step fuel cpu e = rw (e, run)

  behind :
      (i : Insn) (bs rest : Bytes) (cpu : Cpu) {cpu' : Cpu}
      → drop cpu.rip image ≡ bs ++ rest
      → perform image base i (length bs) cpu ≡ go cpu'
      → drop cpu'.rip image ≡ rest
  behind i bs rest cpu at_rip e =
      rw (rip-perform i (length bs) cpu e, drop-add cpu.rip (length bs) image, at_rip)
        (drop-length_append bs rest)

  -- Where the code lies at `rip`, the processor does what its instructions do one by one, and goes on
  -- behind them unless one of them ends the run.
  pub run-perform_all :
      (code : Code) (rest : Bytes) (fuel : ℕ) (cpu : Cpu)
      → All Encodes code
      → drop cpu.rip image ≡ flatten code ++ rest
      → run image base (length code + fuel) cpu
        ≡ finish (perform_all code cpu) (run image base fuel)
  unfolding perform_all
  run-perform_all [] rest fuel cpu enc at_rip = ap (λ n. run image base n cpu) (zero-add fuel)
  run-perform_all ((i, bs) ∷ code) rest fuel cpu enc at_rip =
      ap (λ n. run image base n cpu) (add.suc (length code) fuel)
      ∙ run_step (length code + fuel) cpu
          (rw (at_rip, append_assoc bs (flatten code) rest) (enc.0 _))
      ∙ cases (perform image base i (length bs) cpu)
          (λ c e.
            behind i bs (flatten code ++ rest) cpu {cpu' = c}
              (at_rip ∙ append_assoc bs (flatten code) rest) e)
          (λ c at. run-perform_all code rest fuel c enc.1 at)
    where
      cases :
          (r : Next)
          → ((c : Cpu) → r ≡ go c → drop c.rip image ≡ flatten code ++ rest)
          → ((c : Cpu)
              → drop c.rip image ≡ flatten code ++ rest
              → run image base (length code + fuel) c
                ≡ finish (perform_all code c) (run image base fuel))
          → finish r (run image base (length code + fuel))
            ≡ finish (follow r (perform_all code)) (run image base fuel)
      cases (go c) here ih = ih c (here c refl)
      cases (done o) here ih = refl

  -- The code behind straight-line code that goes on.
  pub drop-perform_all :
      (code : Code) (rest : Bytes) (cpu : Cpu) {cpu' : Cpu}
      → drop cpu.rip image ≡ flatten code ++ rest
      → perform_all code cpu ≡ go cpu'
      → drop cpu'.rip image ≡ rest
  unfolding perform_all
  drop-perform_all [] rest cpu {cpu'} at_rip e =
      let same_cpu : cpu ≡ cpu' = cc in rw (← same_cpu) at_rip
  drop-perform_all ((i, bs) ∷ code) rest cpu {cpu'} at_rip e =
      cases (perform image base i (length bs) cpu) e
        (λ c p.
          behind i bs (flatten code ++ rest) cpu {cpu' = c}
            (at_rip ∙ append_assoc bs (flatten code) rest) p)
        (λ c at p. drop-perform_all code rest c {cpu' = cpu'} at p)
    where
      cases :
          (r : Next)
          → follow r (perform_all code) ≡ go cpu'
          → ((c : Cpu) → r ≡ go c → drop c.rip image ≡ flatten code ++ rest)
          → ((c : Cpu)
              → drop c.rip image ≡ flatten code ++ rest
              → perform_all code c ≡ go cpu'
              → drop cpu'.rip image ≡ rest)
          → drop cpu'.rip image ≡ rest
      cases (go c) e here ih = ih c (here c refl) e
      cases (done o) e here ih = cc
