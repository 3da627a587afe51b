-- ===== src/Perf/Station.antt =====
-- ReservationStation and BranchPredictor of include/nan_perf.h. An `int64_t` is the word of its 64 bits.
use optimized_nan_lang.Base.{
  ltb, leb, get_or, set, ℤ, pos, negsuc, ℕ, bit_xor, Bool, true, false, not, Option, none, some,
  List, [], arith, ◌+◌, ◌-◌, ◌%◌, ◌^◌, ◌≤◌, ◌≡◌, ◌&&◌, ◌∷◌, ◌==◌, if◌then◌else◌,
}

pub record Entry : Type 0 where
  pub op : ℕ
  pub vj : ℕ
  pub vk : ℕ
  pub qj : ℤ
  pub qk : ℤ
  pub busy : Bool

pub record ReservationStation : Type 0 where
  pub stations : List Entry
  pub result_bus : ℕ

-- The stations with the entry in the first free place, and its index, counted from `i`.
issue_from : ℕ → Entry → List Entry → Option (List Entry × ℕ)
issue_from i entry [] = none
issue_from i entry (e ∷ es) =
    let later = issue_from (i + 1) entry es in
    if not e.busy
    then some (entry ∷ es, i)
    else elim later [ none ↦ none | some (after, index) ↦ some (e ∷ after, index) ]

-- `none` is the result -1.
unfoldable pub issue : Entry → ReservationStation → ReservationStation × Option ℕ
unfolding issue_from
issue entry r = elim (issue_from 0 (record entry { busy = true }) r.stations) [
  | none ↦ (r, none)
  | some (after, index) ↦ (record r { stations = after }, some index)
]

unfoldable pub result_of : Entry → ℕ
result_of e =
    if e.op == 0x05
    then (e.vj + e.vk) % 2 ^ 64
    else if e.op == 0x06
    then (e.vj + 2 ^ 64 - e.vk) % 2 ^ 64
    else if e.op == 0x09
    then bit_xor e.vj e.vk
    else e.vj

-- `q == -1`
abbrev is_free : ℤ → Bool
is_free (pos n) = false
is_free (negsuc n) = n == 0

execute_each : List Entry → ℕ → List Entry × ℕ
unfolding result_of
execute_each [] bus = ([], bus)
execute_each (e ∷ es) bus =
    let ready = e.busy && (is_free e.qj && is_free e.qk) in
    let (after, last) = execute_each es (if ready then result_of e else bus) in
    ((if ready then record e { busy = false } else e) ∷ after, last)

unfoldable pub execute_ready : ReservationStation → ReservationStation
unfolding execute_each
execute_ready r =
    let (after, bus) = execute_each r.stations r.result_bus in
    record { stations = after; result_bus = bus }

abbrev pub history : ℕ
history = 256

unfoldable pub predict : List ℕ → ℕ → Bool
predict table pc_hash = leb 2 (get_or table (pc_hash % history) 0)

-- A counter from 0 to 3.
unfoldable pub counted : Bool → ℕ → ℕ
counted taken entry =
    if taken && ltb entry 3
    then entry + 1
    else if not taken && ltb 0 entry
    then entry - 1
    else entry

unfoldable pub update : ℕ → Bool → List ℕ → List ℕ
unfolding counted
update pc_hash taken table =
    let i = pc_hash % history in set table i (counted taken (get_or table i 0))

-- After two equal outcomes in a row the counter predicts that outcome.
pub counted-twice :
    (taken : Bool) (entry : ℕ) → entry ≤ 3 → leb 2 (counted taken (counted taken entry)) ≡ taken
unfolding counted
counted-twice true entry le = ground arith
counted-twice false entry le = ground arith
