-- ===== src/Binary/Tests.antt =====
-- Concrete bytes.
use optimized_nan_lang.Base.{
  length, take, drop, replicate, Bytes, codes, min, bit_xor, refl, true, some, List, [], arith, ◌^◌,
  ◌≤◌, ◌≡◌, ◌↔◌, ◌∷◌, ◌++◌,
}
use optimized_nan_lang.Binary.Pack.{
  rle_compress, rle_decompress, hw_key_xor, rle_decompress-rle_compress, hw_key_xor-hw_key_xor,
}
use optimized_nan_lang.Binary.Code.{
  hamming_encode, hamming_decode_correct, repairs, hamming_decode_correct-flip_iff,
  hamming_decode_correct-hamming_encode,
}
use optimized_nan_lang.Binary.Passes.{
  Branch, resolve, link, total_size, minimize, fold_bytecode, length-resolve, length-link,
  minimize_lem,
}
use optimized_nan_lang.Binary.Pack.{strip_nops}
use optimized_nan_lang.Binary.Search.{find_from-first}
use optimized_nan_lang.Binary.Catalog.{read_catalog, read_catalog-embed_resources}
use optimized_nan_lang.Binary.Patch.{
  EmbeddedResource, embed_resources, find_from, patch, overwrite, patch_lem,
}

rle_decompress-rle_compress_example :
    rle_decompress (rle_compress (7 ∷ 7 ∷ 7 ∷ 9 ∷ [])) ≡ 7 ∷ 7 ∷ 7 ∷ 9 ∷ []
rle_decompress-rle_compress_example = rle_decompress-rle_compress (7 ∷ 7 ∷ 7 ∷ 9 ∷ [])

-- A run of 300 bytes takes two pairs.
long_run : rle_compress (replicate 300 5) ≡ 255 ∷ 5 ∷ 45 ∷ 5 ∷ []
unfolding rle_compress
long_run = refl

hw_key_xor-twice : hw_key_xor (hw_key_xor (1 ∷ 2 ∷ 200 ∷ []) 0xabcdef) 0xabcdef ≡ 1 ∷ 2 ∷ 200 ∷ []
hw_key_xor-twice = hw_key_xor-hw_key_xor (1 ∷ 2 ∷ 200 ∷ []) 0xabcdef

hamming_decode_correct-flip_iff_example :
    (hamming_decode_correct (bit_xor (hamming_encode 11) (2 ^ 4)) ≡ 11) ↔ (repairs 4 ≡ true)
hamming_decode_correct-flip_iff_example =
    hamming_decode_correct-flip_iff 11 4 (omega arith) (omega arith)

abbrev five : Bytes
five = 1 ∷ 2 ∷ 3 ∷ 4 ∷ 5 ∷ []

patch-four :
    (patch five 1 (8 ∷ 9 ∷ []) ≡ (overwrite five 1 (8 ∷ 9 ∷ []), true))
    × (length (patch five 1 (8 ∷ 9 ∷ [])).0 ≡ 5)
    × (take 1 (patch five 1 (8 ∷ 9 ∷ [])).0 ≡ 1 ∷ [])
    × (drop 3 (patch five 1 (8 ∷ 9 ∷ [])).0 ≡ 4 ∷ 5 ∷ [])
patch-four = patch_lem five 1 (8 ∷ 9 ∷ []) (omega arith) (omega arith)

hamming_decode_correct-whole : hamming_decode_correct (hamming_encode 9) ≡ 9
hamming_decode_correct-whole = hamming_decode_correct-hamming_encode 9 (omega arith)

find_from-three :
    (p q : Bytes) × (find_from 0 (2 ∷ 3 ∷ []) (1 ∷ 2 ∷ 3 ∷ 4 ∷ []) ≡ some (length p))
    × (1 ∷ 2 ∷ 3 ∷ 4 ∷ [] ≡ p ++ (2 ∷ 3 ∷ q))
    × (length p ≤ 1)
find_from-three = find_from-first (2 ∷ 3 ∷ []) (1 ∷ []) (4 ∷ [])

abbrev two_resources : List EmbeddedResource
two_resources =
    record { name = codes "a"; content = 1 ∷ 2 ∷ [] }
    ∷ record { name = codes "bc"; content = [] }
    ∷ []

read_catalog-embed_resources_example :
    read_catalog (drop 2 (embed_resources (7 ∷ 8 ∷ []) two_resources)) ≡ some two_resources
read_catalog-embed_resources_example =
    read_catalog-embed_resources (7 ∷ 8 ∷ []) two_resources
      ((omega arith, omega arith), ((omega arith, omega arith), tt)) (omega arith)

abbrev jumps : List Branch
jumps = record { offset = 1; condition = true; target_true = 258; target_false = 0 } ∷ []

length-resolve_example : length (resolve jumps (8 ∷ 8 ∷ 8 ∷ [])) ≡ 3
length-resolve_example = length-resolve jumps (8 ∷ 8 ∷ 8 ∷ [])

-- Two of the four bytes of the target find room.
resolved : resolve jumps (8 ∷ 8 ∷ 8 ∷ 8 ∷ []) ≡ 8 ∷ 7 ∷ 2 ∷ 1 ∷ []
unfolding resolve
resolved = refl

length-link_example :
    length (link true ((1 ∷ 0 ∷ []) ∷ (0 ∷ 2 ∷ 3 ∷ []) ∷ []))
    ≤ total_size ((1 ∷ 0 ∷ []) ∷ (0 ∷ 2 ∷ 3 ∷ []) ∷ [])
length-link_example = length-link true ((1 ∷ 0 ∷ []) ∷ (0 ∷ 2 ∷ 3 ∷ []) ∷ [])

minimize-five :
    (rle_decompress (minimize 9 (5 ∷ 2 ∷ 0 ∷ 3 ∷ 1 ∷ [])).0
      ≡ fold_bytecode (strip_nops (5 ∷ 2 ∷ 0 ∷ 3 ∷ 1 ∷ [])))
    × ((minimize 9 (5 ∷ 2 ∷ 0 ∷ 3 ∷ 1 ∷ [])).1
        ≡ min 9 (length (rle_compress (fold_bytecode (strip_nops (5 ∷ 2 ∷ 0 ∷ 3 ∷ 1 ∷ []))))))
minimize-five = minimize_lem 9 (5 ∷ 2 ∷ 0 ∷ 3 ∷ 1 ∷ [])
