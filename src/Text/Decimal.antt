-- ===== src/Text/Decimal.antt =====
-- `parse_int_token` reads back the text that a stream writes for an integer.
use optimized_nan_lang.Base.{Bytes, [], ◌≤◌, ◌∷◌}

-- The text begins with a digit that is no zero.
abbrev Leads : Bytes → Type 0
Leads [] = ⊥
Leads (c ∷ cs) = (0x31 ≤ c) × (c ≤ 0x39)
