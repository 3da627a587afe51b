-- ===== src/Cache/Meta.antt =====
-- CacheMetaBinary of src/nanlang_cpp.cpp: 40 bytes, every field little-endian.
use optimized_nan_lang.Base.{
  ltb, length, get_or, ℤ, pos, negsuc, Bytes, ℕ, Option, none, some, ◌+◌, ◌-◌, ◌*◌, ◌%◌, ◌^◌, ◌++◌,
  if◌then◌else◌,
}
use optimized_nan_lang.Words.{le32, le64, read_u32_le_ptr}
use optimized_nan_lang.Cache.{SourceFingerprint}

pub record CacheMetaBinary : Type 0 where
  pub magic : ℕ
  pub mode : ℕ
  pub fp : SourceFingerprint
  pub hash : ℕ

-- "NACM"
abbrev pub cache_meta_magic : ℕ
cache_meta_magic = 0x4e41434d

-- An `int64_t` as the bits that it has, and back.
unfoldable pub word_of : ℤ → ℕ
word_of (pos n) = n % 2 ^ 64
word_of (negsuc n) = 2 ^ 64 - 1 - n % 2 ^ 64

unfoldable pub int_of : ℕ → ℤ
int_of w = if ltb w (2 ^ 63) then pos w else negsuc (2 ^ 64 - 1 - w)

unfoldable pub meta_bytes : CacheMetaBinary → Bytes
unfolding le32 le64 word_of
meta_bytes m =
    le32 m.magic
    ++ (le32 m.mode
        ++ (le64 m.fp.size
            ++ (le64 (word_of m.fp.sec) ++ (le64 (word_of m.fp.nsec) ++ le64 m.hash))))

unfoldable pub u32_at : Bytes → ℕ → ℕ
unfolding read_u32_le_ptr
u32_at bs i =
    read_u32_le_ptr (get_or bs i 0) (get_or bs (i + 1) 0) (get_or bs (i + 2) 0)
      (get_or bs (i + 3) 0)

unfoldable pub u64_at : Bytes → ℕ → ℕ
unfolding u32_at
u64_at bs i = u32_at bs i + u32_at bs (i + 4) * 2 ^ 32

-- `none` is a file of fewer than 40 bytes.
unfoldable pub read_meta : Bytes → Option CacheMetaBinary
unfolding u32_at u64_at int_of
read_meta bs =
    if ltb (length bs) 40
    then none
    else some (record {
      magic = u32_at bs 0;
      mode = u32_at bs 4;
      fp = record { size = u64_at bs 8; sec = int_of (u64_at bs 16); nsec = int_of (u64_at bs 24) };
      hash = u64_at bs 32;
    })
