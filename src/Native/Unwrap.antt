-- ===== src/Native/Unwrap.antt =====
-- The scene inside a launcher script, read back by a decoder after RFC 4648 that passes over line breaks.
-- The decoder is a specification and no part of the program.
use optimized_nan_lang.Base.{
  leb, length, take, All, All-append, IsByte, Bytes, AreBytes, ℕ, zero, suc, refl, ap, ap₂, false,
  Option, none, some, [], arith, ◌+◌, ◌-◌, ◌*◌, ◌/◌, ◌%◌, ◌^◌, ◌≤◌, ◌<◌, ◌≡◌, ◌∙◌, ◌≢◌, ◌&&◌, ◌∷◌,
  ◌++◌, ◌==◌, if◌then◌else◌,
}
use optimized_nan_lang.Native.Launcher.{
  base64_digit, base64_group, base64_encode, wrap_from, wrap_base64_lines,
}

-- The value of a character of the alphabet, and 99 for every other byte.
sextet : ℕ → ℕ
sextet c =
    if leb 0x41 c && leb c 0x5a
    then c - 0x41
    else if leb 0x61 c && leb c 0x7a
    then c - 0x61 + 26
    else if leb 0x30 c && leb c 0x39
    then c - 0x30 + 52
    else if c == 0x2b
    then 62
    else if c == 0x2f
    then 63
    else 99

-- The three bytes of 24 bits.
abbrev bytes_of : ℕ → Bytes
bytes_of t = t / 2 ^ 16 ∷ t / 2 ^ 8 % 256 ∷ t % 256 ∷ []

abbrev quantum : ℕ → ℕ → ℕ → ℕ → ℕ
quantum a b c d = a * 2 ^ 18 + b * 2 ^ 12 + c * 2 ^ 6 + d

abbrev prepend : Bytes → Option Bytes → Option Bytes
prepend xs none = none
prepend xs (some ys) = some (xs ++ ys)

-- A group of four characters; padding ends the text.
decode_group : ℕ → ℕ → ℕ → ℕ → Option Bytes → Option Bytes
unfolding sextet
decode_group a b c d more =
    if c == 0x3d
    then some (take 1 (bytes_of (quantum (sextet a) (sextet b) 0 0)))
    else if d == 0x3d
    then some (take 2 (bytes_of (quantum (sextet a) (sextet b) (sextet c) 0)))
    else prepend (bytes_of (quantum (sextet a) (sextet b) (sextet c) (sextet d))) more

unfoldable pub base64_decode : Bytes → Option Bytes
unfolding decode_group
base64_decode [] = some []
base64_decode (a ∷ b ∷ c ∷ d ∷ rest) = decode_group a b c d (base64_decode rest)
base64_decode _ = none

unfoldable pub without_breaks : Bytes → Bytes
without_breaks [] = []
without_breaks (c ∷ cs) = if c == 10 then without_breaks cs else c ∷ without_breaks cs

sextet-base64_digit : (d : ℕ) → d < 64 → sextet (base64_digit d) ≡ d
unfolding sextet base64_digit
sextet-base64_digit d lt = ground arith

-- No digit is the padding or a line break.
base64_digit-apart : (d : ℕ) → d < 64 → (base64_digit d ≢ 0x3d) × (base64_digit d ≢ 10)
unfolding base64_digit
base64_digit-apart d lt = ground arith

base64_digit-padding : (d : ℕ) → d < 64 → (base64_digit d == 0x3d) ≡ false
base64_digit-padding d lt = ground (arith, (base64_digit-apart d lt).0)

abbrev Unbroken : Bytes → Type 0
Unbroken xs = All (λ c. c ≢ 10) xs

without_breaks-wrap_from :
    (width room : ℕ) (xs : Bytes) → Unbroken xs → without_breaks (wrap_from width room xs) ≡ xs
unfolding without_breaks wrap_from
without_breaks-wrap_from width room [] h = refl
without_breaks-wrap_from width zero (c ∷ cs) (h, hs) =
    ground (arith, without_breaks-wrap_from width (width - 1) cs hs)
without_breaks-wrap_from width (suc room) (c ∷ cs) (h, hs) =
    ground (arith, without_breaks-wrap_from width room cs hs)

four-digits :
    (a b c d : ℕ) (more : Option Bytes)
    → a < 64
    → b < 64
    → c < 64
    → d < 64
    → decode_group (base64_digit a) (base64_digit b) (base64_digit c) (base64_digit d) more
      ≡ prepend (bytes_of (quantum a b c d)) more
unfolding decode_group
four-digits a b c d more ha hb hc hd = rw (
  base64_digit-padding c hc,
  base64_digit-padding d hd,
  sextet-base64_digit a ha,
  sextet-base64_digit b hb,
  sextet-base64_digit c hc,
  sextet-base64_digit d hd,
)

three-digits :
    (a b c : ℕ) (more : Option Bytes)
    → a < 64
    → b < 64
    → c < 64
    → decode_group (base64_digit a) (base64_digit b) (base64_digit c) 0x3d more
      ≡ some (take 2 (bytes_of (quantum a b c 0)))
unfolding decode_group
three-digits a b c more ha hb hc = rw (
  base64_digit-padding c hc,
  sextet-base64_digit a ha,
  sextet-base64_digit b hb,
  sextet-base64_digit c hc,
)

two-digits :
    (a b : ℕ) (more : Option Bytes)
    → a < 64
    → b < 64
    → decode_group (base64_digit a) (base64_digit b) 0x3d 0x3d more
      ≡ some (take 1 (bytes_of (quantum a b 0 0)))
unfolding decode_group
two-digits a b more ha hb = rw (sextet-base64_digit a ha, sextet-base64_digit b hb)

-- A number of 24 bits from its sextets, and its bytes.
sextets :
    (t : ℕ) → t < 2 ^ 24 → quantum (t / 2 ^ 18 % 64) (t / 2 ^ 12 % 64) (t / 2 ^ 6 % 64) (t % 64) ≡ t
sextets t lt = omega arith

bytes_of-triple :
    (a b c : ℕ)
    → IsByte a
    → IsByte b
    → IsByte c
    → bytes_of (a * 2 ^ 16 + b * 2 ^ 8 + c) ≡ a ∷ b ∷ c ∷ []
bytes_of-triple a b c ha hb hc =
    ap₂ (λ x y. x ∷ y) (omega arith)
      (ap₂ (λ x y. x ∷ y) (omega arith) (ap (λ x. x ∷ []) (omega arith)))

decode-encode :
    (n : ℕ) (bs : Bytes) → length bs ≤ n → AreBytes bs → base64_decode (base64_encode bs) ≡ some bs
unfolding base64_encode base64_decode base64_group
decode-encode n [] le h = refl
decode-encode n (a ∷ []) le (ha, _) =
    two-digits (a * 2 ^ 16 / 2 ^ 18 % 64) (a * 2 ^ 16 / 2 ^ 12 % 64) (some []) (omega arith)
      (omega arith)
    ∙ ap (λ x. some (x ∷ [])) (omega arith)
decode-encode n (a ∷ b ∷ []) le (ha, (hb, _)) =
    let t = a * 2 ^ 16 + b * 2 ^ 8 in
    three-digits (t / 2 ^ 18 % 64) (t / 2 ^ 12 % 64) (t / 2 ^ 6 % 64) (some []) (omega arith)
      (omega arith) (omega arith)
    ∙ ap₂ (λ x y. some (x ∷ y ∷ [])) (omega arith) (omega arith)
decode-encode zero (a ∷ b ∷ c ∷ bs) le h = absurd (omega arith)
decode-encode (suc n) (a ∷ b ∷ c ∷ bs) le (ha, (hb, (hc, h))) =
    let t = a * 2 ^ 16 + b * 2 ^ 8 + c in
    four-digits (t / 2 ^ 18 % 64) (t / 2 ^ 12 % 64) (t / 2 ^ 6 % 64) (t % 64)
      (base64_decode (base64_encode bs)) (omega arith) (omega arith) (omega arith) (omega arith)
    ∙ ap₂ (λ q more. prepend (bytes_of q) more) (sextets t (omega arith))
        (decode-encode n bs (omega arith) h)
    ∙ ap (λ front. some (front ++ bs)) (bytes_of-triple a b c ha hb hc)

base64_group-Unbroken : (t : ℕ) → Unbroken (base64_group t)
unfolding base64_group
base64_group-Unbroken t = (
  digit (t / 2 ^ 18 % 64) (omega arith),
  (
    digit (t / 2 ^ 12 % 64) (omega arith),
    (digit (t / 2 ^ 6 % 64) (omega arith), (digit (t % 64) (omega arith), tt)),
  ),
)
  where
    digit : (d : ℕ) → d < 64 → base64_digit d ≢ 10
    digit d lt = (base64_digit-apart d lt).1

base64_encode-Unbroken : (n : ℕ) (bs : Bytes) → length bs ≤ n → Unbroken (base64_encode bs)
unfolding base64_encode
base64_encode-Unbroken n [] le = tt
base64_encode-Unbroken n (a ∷ []) le =
    let (x, (y, _)) = base64_group-Unbroken (a * 2 ^ 16) in
    (x, (y, (omega arith, (omega arith, tt))))
base64_encode-Unbroken n (a ∷ b ∷ []) le =
    let (x, (y, (z, _))) = base64_group-Unbroken (a * 2 ^ 16 + b * 2 ^ 8) in
    (x, (y, (z, (omega arith, tt))))
base64_encode-Unbroken zero (a ∷ b ∷ c ∷ bs) le = absurd (omega arith)
base64_encode-Unbroken (suc n) (a ∷ b ∷ c ∷ bs) le =
    All-append (λ c. c ≢ 10) (base64_group (a * 2 ^ 16 + b * 2 ^ 8 + c)) (base64_encode bs)
      (base64_group-Unbroken (a * 2 ^ 16 + b * 2 ^ 8 + c))
      (base64_encode-Unbroken n bs (omega arith))

without_breaks-Unbroken : (xs : Bytes) → Unbroken xs → without_breaks xs ≡ xs
unfolding without_breaks
without_breaks-Unbroken [] h = refl
without_breaks-Unbroken (c ∷ cs) (h, hs) = ground (arith, without_breaks-Unbroken cs hs)

without_breaks-wrap_base64_lines :
    (width : ℕ) (xs : Bytes) → Unbroken xs → without_breaks (wrap_base64_lines xs width) ≡ xs
unfolding wrap_base64_lines
without_breaks-wrap_base64_lines width [] h = unfold without_breaks in refl
without_breaks-wrap_base64_lines zero (c ∷ cs) h = without_breaks-Unbroken (c ∷ cs) h
without_breaks-wrap_base64_lines (suc width) (c ∷ cs) h =
    without_breaks-wrap_from (suc width) (suc width) (c ∷ cs) h

-- The base64 text of a scene whose bytes are below 256, cut into lines of any width, is decoded to the scene.
pub base64_decode-wrap_base64_lines :
    (scene : Bytes) (width : ℕ)
    → AreBytes scene
    → base64_decode (without_breaks (wrap_base64_lines (base64_encode scene) width)) ≡ some scene
base64_decode-wrap_base64_lines scene width h =
    ap base64_decode (
      without_breaks-wrap_base64_lines width (base64_encode scene)
        (base64_encode-Unbroken (length scene) scene (omega arith)))
    ∙ decode-encode (length scene) scene (omega arith) h
