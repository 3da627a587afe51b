-- ===== src/Cache/Hit.antt =====
-- `write_native_cache_meta` and `cache_hit_native` of src/nanlang_cpp.cpp.
use optimized_nan_lang.Base.{
  pos, Bytes, Bool, false, Option, none, some, [], ◌&&◌, ◌∷◌, ◌==◌, if◌then◌else◌,
}
use optimized_nan_lang.Cache.{
  CompileOutputMode, mode_int, File, SourceFingerprint, same_ℤ, file_exists_nonempty,
  read_source_fingerprint, hash_file_fnv1a64,
}
use optimized_nan_lang.Cache.Meta.{CacheMetaBinary, cache_meta_magic, meta_bytes, read_meta}
use optimized_nan_lang.Cache.Legacy.{parse_cache_meta_v2, legacy_hit}

-- What is written beside the output of `src`, if anything is.
unfoldable pub write_native_cache_meta : Option File → CompileOutputMode → Option Bytes
unfolding read_source_fingerprint hash_file_fnv1a64 meta_bytes
write_native_cache_meta src mode = elim (read_source_fingerprint src) [
  | none ↦ none
  | some fp ↦ elim (hash_file_fnv1a64 src) [
    | none ↦ none
    | some hash ↦ some (
        meta_bytes
          (record { magic = cache_meta_magic; mode = mode_int mode; fp = fp; hash = hash }))
  ]
]

unfoldable pub same_fingerprint : SourceFingerprint → SourceFingerprint → Bool
same_fingerprint a b = a.size == b.size && (same_ℤ a.sec b.sec && same_ℤ a.nsec b.nsec)

-- `std::getline`; an empty file has no line.
first_line : Bytes → Bytes
first_line [] = []
first_line (c ∷ cs) = let rest = first_line cs in if c == 10 then [] else c ∷ rest

unfoldable pub text_hit : Bytes → SourceFingerprint → Option File → CompileOutputMode → Bool
unfolding first_line parse_cache_meta_v2 legacy_hit same_fingerprint hash_file_fnv1a64
text_hit [] fp src mode = false
text_hit (c ∷ cs) fp src mode = elim (parse_cache_meta_v2 (first_line (c ∷ cs))) [
  | some (meta_mode, meta_fp) ↦
      same_ℤ meta_mode (pos (mode_int mode)) && same_fingerprint meta_fp fp
  | none ↦ legacy_hit (first_line (c ∷ cs)) mode (hash_file_fnv1a64 src)
]

-- The binary metadata decides if it has its magic number, else the text does.
unfoldable pub decided_hit :
    Option CacheMetaBinary → Bytes → SourceFingerprint → Option File → CompileOutputMode → Bool
unfolding text_hit same_fingerprint
decided_hit none meta fp src mode = text_hit meta fp src mode
decided_hit (some m) meta fp src mode =
    if m.magic == cache_meta_magic
    then m.mode == mode_int mode && same_fingerprint m.fp fp
    else text_hit meta fp src mode

unfoldable pub meta_hit : Bytes → SourceFingerprint → Option File → CompileOutputMode → Bool
unfolding read_meta decided_hit
meta_hit meta fp src mode = decided_hit (read_meta meta) meta fp src mode

-- The source, the output and the metadata.
unfoldable pub cache_hit_native :
    Option File → Option File → Option Bytes → CompileOutputMode → Bool
unfolding file_exists_nonempty read_source_fingerprint meta_hit
cache_hit_native src out meta mode =
    if file_exists_nonempty out
    then elim (read_source_fingerprint src) [
      | none ↦ false
      | some fp ↦ elim meta [ none ↦ false | some bytes ↦ meta_hit bytes fp src mode ]
    ]
    else false
