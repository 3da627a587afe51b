-- ===== src/Tool/Tests.antt =====
-- The older toolchain on concrete inputs.
use optimized_nan_lang.Base.{
  Bytes, codes, is_space, refl, false, none, some, List, [], ◌≡◌, ◌≢◌, ◌∷◌,
}
use optimized_nan_lang.Tool.{extract_string, run}
use optimized_nan_lang.Tool.Records.{SourceLine, say_line, other_line, run-ne-none}
use optimized_nan_lang.Tool.Options.{parse_hex_bytes, tool_main, patch_file}

-- A single quote leaves the text up to the end of the line.
one-quote : extract_string (codes "say \"abc") ≡ codes "abc"
unfolding extract_string
one-quote = refl

hex-tokens : parse_hex_bytes (codes "DE 0xad zz -1") ≡ 0xde ∷ 0xad ∷ 0xff ∷ []
unfolding parse_hex_bytes is_space
hex-tokens = refl

patch-default :
    tool_main (λ p. false) (codes "--patch" ∷ codes "f" ∷ codes "--offset" ∷ codes "0x10" ∷ [])
    ≡ patch_file (codes "f") 16 (0x90 ∷ [])
unfolding tool_main is_space
patch-default = refl

abbrev lines : List SourceLine
lines = say_line (codes "  ") (codes "a\"b") (codes ";") ∷ other_line (codes "halt") ∷ []

abbrev bytecode : Bytes
bytecode = 0x4e ∷ 0x41 ∷ 0x4e ∷ 0x21 ∷ 2 ∷ 3 ∷ 0 ∷ 0 ∷ 0 ∷ codes "a\"b"

run_ends : run (some bytecode) ≢ none
run_ends = run-ne-none (some bytecode)
