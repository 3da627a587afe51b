-- ===== src/Perf/Reorder.antt =====
-- PipelineReorder of include/nan_perf.h.
use optimized_nan_lang.Base.{
  length, get_or, set, replicate, ℤ, pos, negsuc, ltb_ℤ, ℕ, zero, suc, Bool, true, false, not,
  Option, none, some, List, [], map, ◌+◌, ◌-◌, ◌%◌, ◌&&◌, ◌∷◌, ◌++◌, if◌then◌else◌,
}

pub record Inst : Type 0 where
  pub op : ℕ
  pub src1 : ℤ
  pub src2 : ℤ
  pub dst : ℤ

-- `r & 63`
unfoldable pub register_index : ℤ → ℕ
register_index (pos n) = n % 64
register_index (negsuc n) = 63 - n % 64

-- Are the source registers ready, with `count` instructions issued?
unfoldable pub is_ready : List ℤ → ℕ → Inst → Bool
unfolding register_index
is_ready last_write count i =
    ltb_ℤ (get_or last_write (register_index i.src1) (pos 0)) (pos count)
    && ltb_ℤ (get_or last_write (register_index i.src2) (pos 0)) (pos count)

-- The first instruction that is ready and not scheduled, and the others with their flags.
unfoldable pub next_ready : List ℤ → ℕ → List (Bool × Inst) → Option (Inst × List (Bool × Inst))
unfolding is_ready
next_ready last_write count [] = none
next_ready last_write count ((scheduled, i) ∷ rest) =
    let later = next_ready last_write count rest in
    if not scheduled && is_ready last_write count i
    then some (i, (true, i) ∷ rest)
    else elim later [ none ↦ none | some (found, flags) ↦ some (found, (scheduled, i) ∷ flags) ]

-- The passes; the write is noted with the count behind the push.
unfoldable pub passes : ℕ → List ℤ → List (Bool × Inst) → List Inst → List Inst
unfolding next_ready register_index
passes zero last_write insts out = out
passes (suc n) last_write insts out = elim (next_ready last_write (length out) insts) [
  | none ↦ passes n last_write insts out
  | some (i, flags) ↦
      passes n (set last_write (register_index i.dst) (pos (length out + 1))) flags (out ++ i ∷ [])
]

unfoldable pub reorder : List Inst → List Inst
unfolding passes
reorder insts = passes (length insts) (replicate 64 (negsuc 0)) (map (λ i. (false, i)) insts) []
