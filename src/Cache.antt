-- ===== src/Cache.antt =====
-- The compile cache of src/nanlang_cpp.cpp: fingerprints, hashes and freshness here, the metadata below.
-- What `stat` and the streams say about a path is an argument: `none` is a file that is not there.
pub mod Legacy
pub mod Meta
pub mod Hit
pub mod Found
mod Tests
use optimized_nan_lang.Base.{
  ltb, same, length, take, drop, ℤ, pos, negsuc, ltb_ℤ, Bytes, codes, ℕ, zero, suc, bit_xor, Bool,
  true, false, not, Option, none, some, [], ◌*◌, ◌/◌, ◌%◌, ◌^◌, ◌∷◌, ◌++◌, ◌==◌, if◌then◌else◌,
}
use optimized_nan_lang.Signal.{hex_digit}

pub data CompileOutputMode : Type 0 where
  bytecode bin elf asm sh : CompileOutputMode

-- `static_cast<int>(mode)`
abbrev pub mode_int : CompileOutputMode → ℕ
mode_int bytecode = 0
mode_int bin = 1
mode_int elf = 2
mode_int asm = 3
mode_int sh = 4

pub record File : Type 0 where
  pub content : Bytes
  pub mtime_sec : ℤ
  pub mtime_nsec : ℤ

abbrev pub same_ℤ : ℤ → ℤ → Bool
same_ℤ (pos a) (pos b) = a == b
same_ℤ (negsuc a) (negsuc b) = a == b
same_ℤ a b = false

unfoldable pub file_exists_nonempty : Option File → Bool
file_exists_nonempty none = false
file_exists_nonempty (some file) = ltb 0 (length file.content)

-- The source, then the output.
unfoldable pub output_is_fresh : Option File → Option File → Bool
output_is_fresh (some src) (some out) =
    if length out.content == 0
    then false
    else if ltb_ℤ src.mtime_sec out.mtime_sec
    then true
    else if ltb_ℤ out.mtime_sec src.mtime_sec
    then false
    else not (ltb_ℤ out.mtime_nsec src.mtime_nsec)
output_is_fresh src out = false

pub record SourceFingerprint : Type 0 where
  pub size : ℕ
  pub sec : ℤ
  pub nsec : ℤ

unfoldable pub read_source_fingerprint : Option File → Option SourceFingerprint
read_source_fingerprint none = none
read_source_fingerprint (some file) =
    some (record { size = length file.content; sec = file.mtime_sec; nsec = file.mtime_nsec })

-- `h ^= data[i]; h *= kPrime;` with 64 bits.
unfoldable pub fnv1a64_bytes : ℕ → Bytes → ℕ
fnv1a64_bytes h [] = h
fnv1a64_bytes h (b ∷ bs) = fnv1a64_bytes (bit_xor h b * 1099511628211 % 2 ^ 64) bs

-- The file is read in pieces of 16384 bytes; a round for each byte is enough.
unfoldable pub hash_pieces : ℕ → ℕ → Bytes → ℕ
unfolding fnv1a64_bytes
hash_pieces zero h left = h
hash_pieces (suc fuel) h left = elim left [
  | [] ↦ h
  | ◌∷◌ b bs ↦ hash_pieces fuel (fnv1a64_bytes h (take 16384 (b ∷ bs))) (drop 16384 (b ∷ bs))
]

unfoldable pub hash_file_fnv1a64 : Option File → Option ℕ
unfolding hash_pieces
hash_file_fnv1a64 none = none
hash_file_fnv1a64 (some file) =
    some (hash_pieces (length file.content) 1469598103934665603 file.content)

-- `n` digits, the last one first written.
unfoldable pub hex_digits : ℕ → ℕ → Bytes
unfolding hex_digit
hex_digits zero v = []
hex_digits (suc n) v = hex_digits n (v / 16) ++ hex_digit (v % 16) ∷ []

unfoldable pub to_hex_u64 : ℕ → Bytes
unfolding hex_digits
to_hex_u64 v = hex_digits 16 v

unfoldable pub cache_meta_path : Bytes → Bytes
cache_meta_path out_path = out_path ++ codes ".nancache"

-- `std::memcmp` of the first four bytes.
unfoldable pub has_nan3_magic : Option File → Bool
unfolding same
has_nan3_magic none = false
has_nan3_magic (some file) = same (take 4 file.content) (codes "NAN3")
