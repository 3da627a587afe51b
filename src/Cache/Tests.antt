-- ===== src/Cache/Tests.antt =====
-- A source that is compiled to an executable, and asked for again.
use optimized_nan_lang.Base.{length, pos, codes, is_space, refl, true, some, [], arith, ◌≡◌, ◌↔◌}
use optimized_nan_lang.Cache.{File, elf, asm, hash_file_fnv1a64}
use optimized_nan_lang.Cache.Legacy.{legacy_hit}
use optimized_nan_lang.Cache.Hit.{write_native_cache_meta, cache_hit_native}
use optimized_nan_lang.Cache.Found.{cache_hit_native-write}

abbrev a_source : File
a_source = record { content = codes "say \"hi\""; mtime_sec = pos 1700000000; mtime_nsec = pos 5 }

abbrev touched : File
touched = record a_source { mtime_sec = pos 1700000001 }

hit-again :
    cache_hit_native
      (some a_source)
      (some a_source)
      (write_native_cache_meta (some a_source) elf)
      elf
    ≡ true
unfolding cache_hit_native write_native_cache_meta
hit-again = refl

-- The hash of no bytes is the offset that the source starts with.
hex-empty :
    legacy_hit
      (codes "2:14650fb0739d0383")
      elf
      (hash_file_fnv1a64 (some (record a_source { content = [] })))
    ≡ true
unfolding legacy_hit hash_file_fnv1a64 is_space
hex-empty = refl

cache_hit_native-write_example :
    (cache_hit_native
        (some touched)
        (some a_source)
        (write_native_cache_meta (some a_source) elf)
        asm
      ≡ true)
    ↔ ((elf ≡ asm)
        × (length a_source.content ≡ length touched.content)
        × (a_source.mtime_sec ≡ touched.mtime_sec)
        × (a_source.mtime_nsec ≡ touched.mtime_nsec))
cache_hit_native-write_example =
    cache_hit_native-write a_source touched a_source elf asm (omega arith)
      (omega arith, (omega arith, omega arith), (omega arith, omega arith))
