-- ===== src/Binary/Catalog.antt =====
-- A reader for the catalog that `embed_resources` appends, and the round trip.
use optimized_nan_lang.Base.{
  length, take, drop, drop-length_append, take-length_append, All, Bytes, ℕ, zero, suc, refl, sym,
  ap, ap₂, Option, none, some, List, [], append-nil, append_assoc, arith, ◌+◌, ◌*◌, ◌/◌, ◌%◌, ◌^◌,
  ◌<◌, ◌≡◌, ◌∙◌, ◌∷◌, ◌++◌,
}
use optimized_nan_lang.Words.{le16, le32, read_u32_le_ptr, read_u32-le32}
use optimized_nan_lang.Binary.Patch.{EmbeddedResource, embed_one, embed_each, embed_resources}

read_content : Bytes → Bytes → Option (EmbeddedResource × Bytes)
unfolding read_u32_le_ptr
read_content name (a ∷ b ∷ c ∷ d ∷ bs) =
    let len = read_u32_le_ptr a b c d in
    some (record { name = name; content = take len bs }, drop len bs)
read_content name bs = none

-- One entry: two bytes for the length of the name, the name, four bytes, the content.
pub read_one : Bytes → Option (EmbeddedResource × Bytes)
unfolding read_content
read_one (a ∷ b ∷ bs) = read_content (take (a + b * 2 ^ 8) bs) (drop (a + b * 2 ^ 8) bs)
read_one bs = none

abbrev add_resource :
    EmbeddedResource → Option (List EmbeddedResource) → Option (List EmbeddedResource)
add_resource r none = none
add_resource r (some rs) = some (r ∷ rs)

-- The rest of a catalog behind an entry that was read, or was not.
abbrev read_behind :
    (Bytes → Option (List EmbeddedResource))
    → Option (EmbeddedResource × Bytes)
    → Option (List EmbeddedResource)
read_behind rest none = none
read_behind rest (some (r, bs)) = add_resource r (rest bs)

read_each : ℕ → Bytes → Option (List EmbeddedResource)
read_each zero bs = some []
read_each (suc n) bs = read_behind (read_each n) (read_one bs)

pub read_catalog : Bytes → Option (List EmbeddedResource)
unfolding read_each read_u32_le_ptr
read_catalog (a ∷ b ∷ c ∷ d ∷ bs) = read_each (read_u32_le_ptr a b c d) bs
read_catalog bs = none

-- The lengths of a resource fit their bytes.
abbrev pub ResourceFits : EmbeddedResource → Type 0
ResourceFits r = (length r.name < 2 ^ 16) × (length r.content < 2 ^ 32)

abbrev entry : EmbeddedResource → Bytes
entry r = le16 (length r.name) ++ (r.name ++ (le32 (length r.content) ++ r.content))

embed_one-entry : (binary : Bytes) (r : EmbeddedResource) → embed_one binary r ≡ binary ++ entry r
unfolding embed_one
embed_one-entry binary r = simp append_assoc

read_content-entry :
    (name content rest : Bytes)
    → length content < 2 ^ 32
    → read_content name ((le32 (length content) ++ content) ++ rest)
      ≡ some (record { name = name; content = content }, rest)
unfolding read_content le32
read_content-entry name content rest h =
    rw (read_u32-le32 (length content) h, take-length_append, drop-length_append) refl

read_one-entry :
    (r : EmbeddedResource) (rest : Bytes)
    → ResourceFits r
    → read_one (entry r ++ rest) ≡ some (r, rest)
read_one-entry r rest (hn, hc) =
    opened
    ∙ ap (λ n. read_content (take n after) (drop n after)) name_size
    ∙ ap (λ t. read_content (take (length r.name) t) (drop (length r.name) t))
        (append_assoc r.name tail rest)
    ∙ ap₂ read_content (take-length_append r.name (tail ++ rest))
        (drop-length_append r.name (tail ++ rest))
    ∙ read_content-entry r.name r.content rest hc
  where
    tail : Bytes
    tail = le32 (length r.content) ++ r.content

    after : Bytes
    after = (r.name ++ tail) ++ rest

    size : ℕ
    size = length r.name % 256 + length r.name / 256 % 256 * 2 ^ 8

    name_size : size ≡ length r.name
    name_size = omega arith

    opened : read_one (entry r ++ rest) ≡ read_content (take size after) (drop size after)
    opened = unfold read_one le16 in refl

read_each-embed_each :
    (rs : List EmbeddedResource) (binary : Bytes)
    → All ResourceFits rs
    → (bs : Bytes) × (embed_each binary rs ≡ binary ++ bs) × (read_each (length rs) bs ≡ some rs)
read_each-embed_each [] binary h =
    ([], (unfold embed_each in sym (append-nil binary)), (unfold read_each in refl))
read_each-embed_each (r ∷ rs) binary (h, hs) =
    let (bs, e, d) = read_each-embed_each rs (embed_one binary r) hs in
    (entry r ++ bs, joined bs e, read_on bs d)
  where
    joined :
        (bs : Bytes)
        → embed_each (embed_one binary r) rs ≡ embed_one binary r ++ bs
        → embed_each binary (r ∷ rs) ≡ binary ++ (entry r ++ bs)
    joined bs e =
        unfold embed_each in
        e ∙ ap (λ t. t ++ bs) (embed_one-entry binary r) ∙ append_assoc binary (entry r) bs

    read_on :
        (bs : Bytes)
        → read_each (length rs) bs ≡ some rs
        → read_each (suc (length rs)) (entry r ++ bs) ≡ some (r ∷ rs)
    read_on bs d =
        unfold read_each in
        ap (read_behind (read_each (length rs))) (read_one-entry r bs h)
        ∙ ap (add_resource r) d
        ∙ refl

-- The catalog behind a binary is read back as the resources that were embedded, if their number and
-- the lengths of their names and contents fit the bytes that they are written in.
pub read_catalog-embed_resources :
    (binary : Bytes) (rs : List EmbeddedResource)
    → All ResourceFits rs
    → length rs < 2 ^ 32
    → read_catalog (drop (length binary) (embed_resources binary rs)) ≡ some rs
read_catalog-embed_resources binary rs h few =
    let (bs, e, d) = read_each-embed_each rs (binary ++ le32 (length rs)) h in
    ap (λ t. read_catalog (drop (length binary) t)) (whole bs e)
    ∙ ap read_catalog (drop-length_append binary (le32 (length rs) ++ bs))
    ∙ counted bs
    ∙ d
  where
    whole :
        (bs : Bytes)
        → embed_each (binary ++ le32 (length rs)) rs ≡ (binary ++ le32 (length rs)) ++ bs
        → embed_resources binary rs ≡ binary ++ (le32 (length rs) ++ bs)
    whole bs e = unfold embed_resources in e ∙ append_assoc binary (le32 (length rs)) bs

    counted : (bs : Bytes) → read_catalog (le32 (length rs) ++ bs) ≡ read_each (length rs) bs
    counted bs =
        unfold read_catalog le32 in ap (λ n. read_each n bs) (read_u32-le32 (length rs) few)
