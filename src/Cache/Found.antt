-- ===== src/Cache/Found.antt =====
-- What `write_native_cache_meta` of src/nanlang_cpp.cpp wrote is what `cache_hit_native` compares with.
use optimized_nan_lang.Base.{
  ==_iff, lt→ltb, length, take, drop, ℤ, pos, negsuc, pos_part, neg_part, Bytes, ℕ, zero, suc, refl,
  sym, ap, Bool, true, false, Option, some, [], arith, ◌+◌, ◌*◌, ◌/◌, ◌%◌, ◌^◌, ◌≤◌, ◌<◌, ◌≡◌, ◌∙◌,
  ◌↔◌, ◌&&◌, ◌∷◌, ◌==◌, if◌then◌else◌,
}
use optimized_nan_lang.Words.{le32, le64, read_u32_le_ptr, read_u32-le32}
use optimized_nan_lang.Cache.{
  CompileOutputMode, mode_int, bytecode, bin, elf, asm, sh, File, SourceFingerprint,
  file_exists_nonempty, read_source_fingerprint, hash_file_fnv1a64, hash_pieces, fnv1a64_bytes,
  same_ℤ,
}
use optimized_nan_lang.Cache.Meta.{
  CacheMetaBinary, cache_meta_magic, meta_bytes, read_meta, u32_at, u64_at, word_of, int_of,
}
use optimized_nan_lang.Cache.Hit.{
  write_native_cache_meta, same_fingerprint, meta_hit, decided_hit, cache_hit_native,
}

-- Sizes and times that fit into 64 bits.
abbrev pub FitsTime : ℤ → Type 0
FitsTime t = (pos_part t < 2 ^ 63) × (neg_part t ≤ 2 ^ 63)

abbrev pub FitsFingerprint : SourceFingerprint → Type 0
FitsFingerprint fp = (fp.size < 2 ^ 64) × FitsTime fp.sec × FitsTime fp.nsec

int_of-word_of : (t : ℤ) → FitsTime t → int_of (word_of t) ≡ t
unfolding int_of word_of
int_of-word_of (pos n) (low, high) = ground arith
int_of-word_of (negsuc n) (low, high) = ground arith

word_of-lt : (t : ℤ) → word_of t < 2 ^ 64
unfolding word_of
word_of-lt (pos n) = omega arith
word_of-lt (negsuc n) = omega arith

-- The eight digits of a word.
u64_of : ℕ → ℕ
unfolding read_u32_le_ptr
u64_of v = read_u32_le_ptr (v % 256) (v / 2 ^ 8 % 256) (v / 2 ^ 16 % 256) (v / 2 ^ 24 % 256)

u64-halves : (v : ℕ) → v < 2 ^ 64 → u64_of (v % 2 ^ 32) + u64_of (v / 2 ^ 32 % 2 ^ 32) * 2 ^ 32 ≡ v
unfolding u64_of
u64-halves v lt = omega (
  arith,
  read_u32-le32 (v % 2 ^ 32) (omega arith),
  read_u32-le32 (v / 2 ^ 32 % 2 ^ 32) (omega arith),
)

module _ (m : CacheMetaBinary) where
  magic-meta_bytes : m.magic < 2 ^ 32 → u32_at (meta_bytes m) 0 ≡ m.magic
  unfolding u32_at meta_bytes le32
  magic-meta_bytes lt = read_u32-le32 m.magic lt

  mode-meta_bytes : m.mode < 2 ^ 32 → u32_at (meta_bytes m) 4 ≡ m.mode
  unfolding u32_at meta_bytes le32
  mode-meta_bytes lt = read_u32-le32 m.mode lt

  size-meta_bytes : m.fp.size < 2 ^ 64 → u64_at (meta_bytes m) 8 ≡ m.fp.size
  unfolding u64_at u32_at meta_bytes le32 le64 u64_of
  size-meta_bytes lt = u64-halves m.fp.size lt

  sec-meta_bytes : u64_at (meta_bytes m) 16 ≡ word_of m.fp.sec
  unfolding u64_at u32_at meta_bytes le32 le64 u64_of
  sec-meta_bytes = u64-halves (word_of m.fp.sec) (word_of-lt m.fp.sec)

  nsec-meta_bytes : u64_at (meta_bytes m) 24 ≡ word_of m.fp.nsec
  unfolding u64_at u32_at meta_bytes le32 le64 u64_of
  nsec-meta_bytes = u64-halves (word_of m.fp.nsec) (word_of-lt m.fp.nsec)

  hash-meta_bytes : m.hash < 2 ^ 64 → u64_at (meta_bytes m) 32 ≡ m.hash
  unfolding u64_at u32_at meta_bytes le32 le64 u64_of
  hash-meta_bytes lt = u64-halves m.hash lt

  length-meta_bytes : length (meta_bytes m) ≡ 40
  unfolding meta_bytes le32 le64
  length-meta_bytes = refl

  read_meta-meta_bytes :
      m.magic < 2 ^ 32
      → m.mode < 2 ^ 32
      → FitsFingerprint m.fp
      → m.hash < 2 ^ 64
      → read_meta (meta_bytes m) ≡ some m
  unfolding read_meta
  read_meta-meta_bytes magic_fits mode_fits (size_fits, sec_fits, nsec_fits) hash_fits = rw (
    length-meta_bytes,
    magic-meta_bytes magic_fits,
    mode-meta_bytes mode_fits,
    size-meta_bytes size_fits,
    sec-meta_bytes,
    nsec-meta_bytes,
    hash-meta_bytes hash_fits,
    int_of-word_of m.fp.sec sec_fits,
    int_of-word_of m.fp.nsec nsec_fits,
  )

fnv1a64_bytes-lt : (bs : Bytes) (h : ℕ) → h < 2 ^ 64 → fnv1a64_bytes h bs < 2 ^ 64
unfolding fnv1a64_bytes
fnv1a64_bytes-lt [] h lt = lt
fnv1a64_bytes-lt (b ∷ bs) h lt = fnv1a64_bytes-lt bs _ (omega arith)

hash_pieces-lt : (fuel : ℕ) (h : ℕ) (bs : Bytes) → h < 2 ^ 64 → hash_pieces fuel h bs < 2 ^ 64
unfolding hash_pieces
hash_pieces-lt zero h bs lt = lt
hash_pieces-lt (suc fuel) h [] lt = lt
hash_pieces-lt (suc fuel) h (b ∷ bs) lt =
    hash_pieces-lt fuel _ (drop 16384 (b ∷ bs)) (fnv1a64_bytes-lt (take 16384 (b ∷ bs)) h lt)

mode_int-lt : (mode : CompileOutputMode) → mode_int mode < 2 ^ 32
mode_int-lt bytecode = omega arith
mode_int-lt bin = omega arith
mode_int-lt elf = omega arith
mode_int-lt asm = omega arith
mode_int-lt sh = omega arith

meta_hit-meta_bytes :
    (m : CacheMetaBinary) (fp : SourceFingerprint) (src : Option File) (mode : CompileOutputMode)
    → read_meta (meta_bytes m) ≡ some m
    → m.magic ≡ cache_meta_magic
    → meta_hit (meta_bytes m) fp src mode ≡ (m.mode == mode_int mode && same_fingerprint m.fp fp)
unfolding meta_hit
meta_hit-meta_bytes m fp src mode e g = ap (λ o. decided_hit o (meta_bytes m) fp src mode) e ∙ found
  where
    found :
        decided_hit (some m) (meta_bytes m) fp src mode
        ≡ (m.mode == mode_int mode && same_fingerprint m.fp fp)
    found = unfold decided_hit in rw ((==_iff m.magic cache_meta_magic).1 g)

-- A file as its fingerprint shows it.
abbrev pub fingerprint : File → SourceFingerprint
fingerprint file = record {
  size = length file.content;
  sec = file.mtime_sec;
  nsec = file.mtime_nsec;
}

pub cache_hit_native-written :
    (src now out : File) (mode asked : CompileOutputMode)
    → 0 < length out.content
    → FitsFingerprint (fingerprint src)
    → cache_hit_native (some now) (some out) (write_native_cache_meta (some src) mode) asked
      ≡ (mode_int mode == mode_int asked && same_fingerprint (fingerprint src) (fingerprint now))
unfolding cache_hit_native write_native_cache_meta read_source_fingerprint hash_file_fnv1a64
    file_exists_nonempty
cache_hit_native-written src now out mode asked some_output fits =
    rw (lt→ltb 0 (length out.content) some_output) (
      meta_hit-meta_bytes written (fingerprint now) (some now) asked
        (read_meta-meta_bytes written (omega arith) (mode_int-lt mode) fits hashed) refl)
  where
    hash : ℕ
    hash = hash_pieces (length src.content) 1469598103934665603 src.content

    written : CacheMetaBinary
    written = record {
      magic = cache_meta_magic;
      mode = mode_int mode;
      fp = fingerprint src;
      hash = hash;
    }

    hashed : hash < 2 ^ 64
    hashed = hash_pieces-lt (length src.content) 1469598103934665603 src.content (omega arith)

mode_of : ℕ → CompileOutputMode
mode_of n =
    if n == 0
    then bytecode
    else if n == 1
    then bin
    else if n == 2
    then elf
    else if n == 3
    then asm
    else sh

mode_of-mode_int : (a : CompileOutputMode) → mode_of (mode_int a) ≡ a
unfolding mode_of
mode_of-mode_int bytecode = refl
mode_of-mode_int bin = refl
mode_of-mode_int elf = refl
mode_of-mode_int asm = refl
mode_of-mode_int sh = refl

magnitude : ℤ → ℕ
magnitude (pos n) = n
magnitude (negsuc n) = n

mode_int-injective : (a b : CompileOutputMode) → mode_int a ≡ mode_int b → a ≡ b
mode_int-injective a b e = sym (mode_of-mode_int a) ∙ ap mode_of e ∙ mode_of-mode_int b

same_ℤ_iff : (a b : ℤ) → (same_ℤ a b ≡ true) ↔ (a ≡ b)
unfolding magnitude
same_ℤ_iff (pos a) (pos b) =
    ((λ e. ap pos ((==_iff a b).0 e)), λ e. (==_iff a b).1 (ap magnitude e))
same_ℤ_iff (negsuc a) (negsuc b) =
    ((λ e. ap negsuc ((==_iff a b).0 e)), λ e. (==_iff a b).1 (ap magnitude e))
same_ℤ_iff (pos a) (negsuc b) = ((λ e. cc), λ e. cc)
same_ℤ_iff (negsuc a) (pos b) = ((λ e. cc), λ e. cc)

and_iff : (a b : Bool) → ((a && b) ≡ true) ↔ ((a ≡ true) × (b ≡ true))
and_iff true b = ((λ e. (refl, e)), λ h. h.1)
and_iff false b = ((λ e. cc), λ h. cc (h.0))

-- The metadata written for a source whose size and times fit into 64 bits is a hit for an output that is
-- not empty exactly if the output is asked for in the same mode and the source, as it is now, has the same
-- size and the same modification time in seconds and nanoseconds.
pub cache_hit_native-write :
    (src now out : File) (mode asked : CompileOutputMode)
    → 0 < length out.content
    → FitsFingerprint (fingerprint src)
    → (cache_hit_native (some now) (some out) (write_native_cache_meta (some src) mode) asked
        ≡ true)
      ↔ ((mode ≡ asked)
          × (length src.content ≡ length now.content)
          × (src.mtime_sec ≡ now.mtime_sec)
          × (src.mtime_nsec ≡ now.mtime_nsec))
unfolding same_fingerprint
cache_hit_native-write src now out mode asked some_output fits = (
  λ e.
      let (m, rest) =
        (and_iff _ _).0
          (sym (cache_hit_native-written src now out mode asked some_output fits) ∙ e) in
      let (size, times) = (and_iff _ _).0 rest in
      let (sec, nsec) = (and_iff _ _).0 times in
      (
        mode_int-injective mode asked ((==_iff (mode_int mode) (mode_int asked)).0 m),
        (==_iff (length src.content) (length now.content)).0 size,
        (same_ℤ_iff src.mtime_sec now.mtime_sec).0 sec,
        (same_ℤ_iff src.mtime_nsec now.mtime_nsec).0 nsec,
      ),
  λ h.
      let (m, size, sec, nsec) = h in
      cache_hit_native-written src now out mode asked some_output fits
      ∙ (and_iff _ _).1 (
        (==_iff (mode_int mode) (mode_int asked)).1 (ap mode_int m),
        (and_iff _ _).1 (
          (==_iff (length src.content) (length now.content)).1 size,
          (and_iff _ _).1 (
            (same_ℤ_iff src.mtime_sec now.mtime_sec).1 sec,
            (same_ℤ_iff src.mtime_nsec now.mtime_nsec).1 nsec,
          ),
        ),
      ),
)
