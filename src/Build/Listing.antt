-- ===== src/Build/Listing.antt =====
-- The assembly text that `emit_native_payload` of src/nanlang_cpp.cpp makes beside the machine code, with
-- `to_hex_byte` and `as_db_line`; and the lines of a file as `std::getline` gives them.
use optimized_nan_lang.Base.{
  ltb, length, Bytes, codes, ℕ, List, [], ◌+◌, ◌-◌, ◌/◌, ◌%◌, ◌∷◌, ◌++◌, ◌==◌, if◌then◌else◌,
}
use Prim.Native.String.{String}
use optimized_nan_lang.Text.Ints.{decimal}

abbrev pub script_line : String → Bytes
script_line s = codes s ++ 10 ∷ []

-- `current` is the line begun. There is no line behind the last newline.
lines_from : Bytes → Bytes → List Bytes
lines_from current [] = elim current [ [] ↦ [] | ◌∷◌ c cs ↦ (c ∷ cs) ∷ [] ]
lines_from current (c ∷ cs) =
    if c == 10 then current ∷ lines_from [] cs else lines_from (current ++ c ∷ []) cs

unfoldable pub lines_in : Bytes → List Bytes
unfolding lines_from
lines_in content = lines_from [] content

-- "0123456789ABCDEF"[d]
hex_digit : ℕ → ℕ
hex_digit d = if ltb d 10 then 0x30 + d else 0x41 + (d - 10)

unfoldable pub to_hex_byte : ℕ → Bytes
unfolding hex_digit
to_hex_byte b = 0x30 ∷ 0x78 ∷ hex_digit (b / 16 % 16) ∷ hex_digit (b % 16) ∷ []

db_bytes : Bytes → Bytes
unfolding to_hex_byte
db_bytes [] = []
db_bytes (b ∷ []) = to_hex_byte b
db_bytes (b ∷ c ∷ bs) = to_hex_byte b ++ (0x2c ∷ 0x20 ∷ db_bytes (c ∷ bs))

unfoldable pub as_db_line : Bytes → Bytes → Bytes
unfolding db_bytes
as_db_line label [] = label ++ codes ": db 0x00"
as_db_line label (b ∷ bs) = label ++ (codes ": db " ++ db_bytes (b ∷ bs))

message_label : ℕ → Bytes
unfolding decimal
message_label i = codes "msg_" ++ decimal i

-- One round of the first loop.
write_lines : ℕ → List Bytes → Bytes
unfolding message_label decimal
write_lines i [] = []
write_lines i (text ∷ texts) =
    script_line "    mov rax, 1"
    ++ (script_line "    mov rdi, 1"
        ++ (codes "    lea rsi, [rel "
            ++ (message_label i
                ++ (script_line "]"
                    ++ (codes "    mov rdx, "
                        ++ (decimal (length text)
                            ++ (10 ∷ (script_line "    syscall" ++ write_lines (i + 1) texts))))))))

-- The second loop.
data_lines : ℕ → List Bytes → Bytes
unfolding as_db_line message_label
data_lines i [] = []
data_lines i (text ∷ texts) =
    codes "    " ++ (as_db_line (message_label i) text ++ (10 ∷ data_lines (i + 1) texts))

unfoldable pub assembly : List Bytes → Bytes
unfolding write_lines data_lines
assembly writes =
    script_line "global _start"
    ++ (script_line "section .text"
        ++ (script_line "_start:"
            ++ (write_lines 0 writes
                ++ (script_line "    mov rax, 60"
                    ++ (script_line "    xor rdi, rdi"
                        ++ (script_line "    syscall"
                            ++ (script_line "section .rodata" ++ data_lines 0 writes)))))))
