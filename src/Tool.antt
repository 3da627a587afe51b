-- ===== src/Tool.antt =====
-- The older toolchain of main.cpp: NanCompiler writes a record for each `say` line, and NanRuntime prints
-- the records. A file is the list of its lines or bytes, and `none` is a file that does not open.
pub mod Records
pub mod Options
mod Tests
use optimized_nan_lang.Base.{
  length, take, drop, replicate, Bytes, codes, ℕ, zero, suc, Bool, true, false, Option, none, some,
  List, [], ◌-◌, ◌%◌, ◌^◌, ◌||◌, ◌∷◌, ◌++◌, ◌==◌, if◌then◌else◌,
}
use optimized_nan_lang.Text.{after_prefix}
use optimized_nan_lang.Words.{le32, read_u32_le_ptr}

-- What stands behind the first quote.
after_quote : Bytes → Option Bytes
after_quote [] = none
after_quote (c ∷ cs) = if c == 0x22 then some cs else after_quote cs

-- What stands in front of the last quote: `line.rfind('"')`.
before_last_quote : Bytes → Option Bytes
before_last_quote [] = none
before_last_quote (c ∷ cs) = elim (before_last_quote cs) [
  | some front ↦ some (c ∷ front)
  | none ↦ if c == 0x22 then some [] else none
]

-- With a single quote `end - start` wraps around to the greatest size, and the text runs to the end of
-- the line.
unfoldable pub extract_string : Bytes → Bytes
unfolding after_quote before_last_quote
extract_string line = elim (after_quote line) [
  | none ↦ []
  | some rest ↦ elim (before_last_quote rest) [ none ↦ rest | some front ↦ front ]
]

has_prefix : Bytes → Bytes → Bool
unfolding after_prefix
has_prefix kw line = elim (after_prefix kw line) [ none ↦ false | some rest ↦ true ]

-- `line.find(kw) != npos`
unfoldable pub contains : Bytes → Bytes → Bool
unfolding has_prefix
contains kw [] = has_prefix kw []
contains kw (c ∷ cs) = has_prefix kw (c ∷ cs) || contains kw cs

unfoldable pub is_say : Bytes → Bool
unfolding contains
is_say line = contains (codes "say ") line

-- OP_SAY, the size as a `uint32_t`, and as many bytes of the text.
unfoldable pub say_record : Bytes → Bytes
unfolding le32
say_record content = let size = length content % 2 ^ 32 in 2 ∷ le32 size ++ take size content

unfoldable pub say_records : List Bytes → Bytes
unfolding is_say say_record extract_string
say_records [] = []
say_records (line ∷ lines) =
    let later = say_records lines in
    if is_say line then say_record (extract_string line) ++ later else later

unfoldable pub magic : Bytes
unfolding le32
magic = le32 0x214e414e

-- `none` is the exception for a source that is not found.
unfoldable pub generate_bytecode : Option (List Bytes) → Option Bytes
unfolding say_records magic
generate_bytecode none = none
generate_bytecode (some lines) = some (magic ++ say_records lines)

-- What a run does. The source does not set its header and its size before it reads them, so a file that
-- ends inside one leaves an undetermined value.
pub data Outcome : Type 0 where
  could_not_open invalid_magic undetermined : Outcome
  printed : List Bytes → Outcome

unfoldable pub print_first : Bytes → Outcome → Outcome
print_first text (printed texts) = printed (text ∷ texts)
print_first text could_not_open = could_not_open
print_first text invalid_magic = invalid_magic
print_first text undetermined = undetermined

-- The buffer has its size and zero bytes before the text is read into it.
unfoldable pub read_buffer : ℕ → Bytes → Bytes
read_buffer size rest = take size rest ++ replicate (size - length rest) 0

-- One round for each opcode, which takes a byte or more. `none` is fuel that ran out.
unfoldable pub run_records : ℕ → Bytes → Option Outcome
unfolding read_u32_le_ptr read_buffer print_first
run_records fuel [] = some (printed [])
run_records zero (op ∷ rest) = none
run_records (suc fuel) (op ∷ rest) = elim (op == 2) [
  | false ↦ run_records fuel rest
  | true ↦ elim rest [
    | ◌∷◌ a (b ∷ c ∷ d ∷ tail) ↦
        let size = read_u32_le_ptr a b c d in
        elim (run_records fuel (drop size tail)) [
          | none ↦ none
          | some outcome ↦ some (print_first (read_buffer size tail) outcome)
        ]
    | _ ↦ some undetermined
  ]
]

-- The header, and the loop behind it, for which a round per byte is enough.
unfoldable pub run : Option Bytes → Option Outcome
unfolding run_records read_u32_le_ptr
run none = some could_not_open
run (some (a ∷ b ∷ c ∷ d ∷ rest)) =
    if read_u32_le_ptr a b c d == 0x214e414e
    then run_records (length rest) rest
    else some invalid_magic
run (some bytes) = some undetermined
