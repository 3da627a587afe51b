-- ===== src/Native/Launcher.antt =====
-- `base64_encode`, `wrap_base64_lines` and the text of `write_ui_launcher_script` of src/nanlang_cpp.cpp.
use optimized_nan_lang.Base.{
  ltb, length, take, Bytes, codes, ℕ, zero, suc, [], arith, ◌+◌, ◌-◌, ◌*◌, ◌/◌, ◌%◌, ◌^◌, ◌≤◌, ◌≡◌,
  ◌∷◌, ◌++◌, ◌==◌, if◌then◌else◌,
}
use Prim.Native.String.{String}

-- "ABC...+/"[d]
unfoldable pub base64_digit : ℕ → ℕ
base64_digit d =
    if ltb d 26
    then 0x41 + d
    else if ltb d 52
    then 0x61 + (d - 26)
    else if ltb d 62
    then 0x30 + (d - 52)
    else if d == 62
    then 0x2b
    else 0x2f

unfoldable pub base64_group : ℕ → Bytes
unfolding base64_digit
base64_group triple =
    base64_digit (triple / 2 ^ 18 % 64)
    ∷ base64_digit (triple / 2 ^ 12 % 64)
    ∷ base64_digit (triple / 2 ^ 6 % 64)
    ∷ base64_digit (triple % 64)
    ∷ []

unfoldable pub base64_encode : Bytes → Bytes
unfolding base64_group
base64_encode [] = []
base64_encode (a ∷ []) = take 2 (base64_group (a * 2 ^ 16)) ++ 0x3d ∷ 0x3d ∷ []
base64_encode (a ∷ b ∷ []) = take 3 (base64_group (a * 2 ^ 16 + b * 2 ^ 8)) ++ 0x3d ∷ []
base64_encode (a ∷ b ∷ c ∷ bs) = base64_group (a * 2 ^ 16 + b * 2 ^ 8 + c) ++ base64_encode bs

length-base64 :
    (n : ℕ) (bs : Bytes) → length bs ≤ n → length (base64_encode bs) ≡ (length bs + 2) / 3 * 4
unfolding base64_encode
length-base64 n [] h = omega arith
length-base64 n (a ∷ []) h = omega arith
length-base64 n (a ∷ b ∷ []) h = omega arith
length-base64 zero (a ∷ b ∷ c ∷ bs) h = absurd (omega arith)
length-base64 (suc n) (a ∷ b ∷ c ∷ bs) h = omega (arith, length-base64 n bs (omega arith))

-- The base64 text has four characters for every three bytes begun, which is what the source reserves.
pub length-base64_encode : (bs : Bytes) → length (base64_encode bs) ≡ (length bs + 2) / 3 * 4
length-base64_encode bs = length-base64 (length bs) bs (omega arith)

-- `b64.substr(i, width)` and a newline, for every `i` from 0 in steps of `width`; `room` is what is left
-- of the line.
unfoldable pub wrap_from : ℕ → ℕ → Bytes → Bytes
wrap_from width room [] = 10 ∷ []
wrap_from width zero (c ∷ cs) = 10 ∷ c ∷ wrap_from width (width - 1) cs
wrap_from width (suc room) (c ∷ cs) = c ∷ wrap_from width room cs

unfoldable pub wrap_base64_lines : Bytes → ℕ → Bytes
unfolding wrap_from
wrap_base64_lines [] width = []
wrap_base64_lines (c ∷ cs) zero = c ∷ cs
wrap_base64_lines (c ∷ cs) (suc width) = wrap_from (suc width) (suc width) (c ∷ cs)

-- The script before and behind the encoded scene.
abbrev line : String → Bytes
line s = codes s ++ 10 ∷ []

unfoldable pub launcher_head : Bytes
launcher_head =
    line "#!/usr/bin/env bash"
    ++ (line "set -euo pipefail"
        ++ (line "tmp_scene=\"$(mktemp /tmp/nanlang_ui_scene.XXXXXX.nl)\""
            ++ (line "cleanup() { rm -f \"$tmp_scene\"; }"
                ++ (line "trap cleanup EXIT"
                    ++ line "base64 -d > \"$tmp_scene\" <<'NANLANG_UI_SCENE_B64'"))))

unfoldable pub launcher_tail : Bytes
launcher_tail =
    line "NANLANG_UI_SCENE_B64"
    ++ (line "if [ -x ./bin/nanlang ]; then"
        ++ (line "  exec ./bin/nanlang ui-render \"$tmp_scene\""
            ++ (line "elif command -v nanlang >/dev/null 2>&1; then"
                ++ (line "  exec nanlang ui-render \"$tmp_scene\""
                    ++ (line "else"
                        ++ (line "  echo 'nanlang: GUI renderer not found in PATH or ./bin' >&2"
                            ++ (line "  exit 127" ++ line "fi")))))))

-- The contents of the script for a scene.
unfoldable pub launcher_script : Bytes → Bytes
unfolding launcher_head launcher_tail base64_encode wrap_base64_lines
launcher_script scene =
    launcher_head ++ (wrap_base64_lines (base64_encode scene) 76 ++ launcher_tail)
