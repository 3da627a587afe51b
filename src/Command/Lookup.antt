-- ===== src/Command/Lookup.antt =====
-- Lookups in Args after an assignment.
use optimized_nan_lang.Base.{
  same, eq_of_same, Bytes, codes, refl, ap, true, false, some, [], arith, ◌≡◌, ◌||◌, ◌∷◌,
  if◌then◌else◌,
}
use optimized_nan_lang.Npi.Config.{ConfigMap, assign}
use optimized_nan_lang.Command.{Args, find, has, get, set_value, set_flag}

same_sym : (x y : Bytes) → same x y ≡ same y x
unfolding same
same_sym [] [] = refl
same_sym [] (y ∷ ys) = refl
same_sym (x ∷ xs) [] = refl
same_sym (x ∷ xs) (y ∷ ys) = ground (arith, same_sym xs ys)

same_left : (x y k : Bytes) → same x y ≡ true → same x k ≡ same y k
same_left x y k e = ap (λ z. same z k) (eq_of_same x y e)

-- Two words that differ are not both the third.
same_apart : (x y k : Bytes) → same x y ≡ false → same x k ≡ true → same y k ≡ false
same_apart x y k e h = ground (arith, same_left x k y, same_sym k y, same_sym y k)

-- Looking up after an assignment.
find-assign :
    (key value k : Bytes) (m : ConfigMap)
    → find (assign key value m) k ≡ (if same key k then some value else find m k)
unfolding find assign
find-assign key value k [] = refl
find-assign key value k ((k₀, v₀) ∷ m) =
    ground (arith, find-assign key value k m, same_left k₀ key k, same_apart k₀ key k)

pub get-set_value :
    (key value k def : Bytes) (a : Args)
    → get (set_value key value a) k def ≡ (if same key k then value else get a k def)
unfolding get set_value
get-set_value key value k def a = ground (arith, find-assign key value k a.kv)

pub has-set_value :
    (key value k : Bytes) (a : Args) → has (set_value key value a) k ≡ (same key k || has a k)
unfolding has set_value
has-set_value key value k a = ground (arith, find-assign key value k a.kv)

pub has-set_flag : (key k : Bytes) (a : Args) → has (set_flag key a) k ≡ (same key k || has a k)
unfolding has set_flag
has-set_flag key k a = ground (arith, find-assign key (codes "true") k a.flags)

pub get-set_flag : (key k def : Bytes) (a : Args) → get (set_flag key a) k def ≡ get a k def
unfolding get set_flag
get-set_flag key k def a = refl
