-- ===== src/Native/Ok.antt =====
-- Predicates on the value of a result.
use optimized_nan_lang.Base.{refl, Bool, true, false, arith, ◌≡◌, ◌||◌, if◌then◌else◌}
use optimized_nan_lang.Bytecode.Compile.{Result, ok, err, ◌>>=◌}

-- A predicate on the value of a result, where there is one.
unfoldable pub AllOk {ℓ} : {A : Type ℓ} → (A → Type 0) → Result A → Type 0
AllOk P (err e) = Unit
AllOk P (ok a) = P a

module _ {ℓ} {A : Type ℓ} (P : A → Type 0) where
  pub if-AllOk : (b : Bool) (x y : Result A) → AllOk P x → AllOk P y → AllOk P (if b then x else y)
  if-AllOk true x y hx hy = hx
  if-AllOk false x y hx hy = hy

  pub AllOk-ok : (a : A) → P a → AllOk P (ok a)
  unfolding AllOk
  AllOk-ok a h = h

  pub AllOk-of : (x : Result A) (a : A) → AllOk P x → x ≡ ok a → P a
  unfolding AllOk
  AllOk-of (err e) a h q = ground arith
  AllOk-of (ok b) a h q = ground arith

pub then-AllOk {ℓ κ} :
    {A : Type ℓ} {B : Type κ} (P : A → Type 0) (Q : B → Type 0) (x : Result A) (k : A → Result B)
    → AllOk P x
    → ((a : A) → P a → AllOk Q (k a))
    → AllOk Q (x >>= k)
unfolding AllOk
then-AllOk P Q (err e) k hx hk = tt
then-AllOk P Q (ok a) k hx hk = hk a hx

pub AllOk-map {ℓ} :
    {A : Type ℓ} (P Q : A → Type 0) (x : Result A) → ((a : A) → P a → Q a) → AllOk P x → AllOk Q x
unfolding AllOk
AllOk-map P Q (err e) f h = tt
AllOk-map P Q (ok a) f h = f a h

-- Two readers that test the same, one with a statement and one with a result.
pub both-AllOk :
    {S A : Type 0} (W : S → A → Type 0) (b : Bool) (u v : S) (x y : Result A)
    → AllOk (W u) x
    → AllOk (W v) y
    → AllOk (W (if b then u else v)) (if b then x else y)
both-AllOk W true u v x y hx hy = hx
both-AllOk W false u v x y hx hy = hy

pub either-AllOk :
    {S A : Type 0} (W : S → A → Type 0) (a b c : Bool) (u v : S) (x y : Result A)
    → AllOk (W u) x
    → AllOk (W v) y
    → AllOk
        (W (if a then u else if b then u else if c then u else v))
        (if a || b || c then x else y)
either-AllOk W true b c u v x y hx hy = hx
either-AllOk W false true c u v x y hx hy = hx
either-AllOk W false false true u v x y hx hy = hx
either-AllOk W false false false u v x y hx hy = hy

-- They test in another order, but not both tests hold.
pub swapped-AllOk :
    {S A : Type 0} (W : S → A → Type 0) (a b : Bool) (t u v : S) (x y z : Result A)
    → (a ≡ true → b ≡ false)
    → AllOk (W t) x
    → AllOk (W u) y
    → AllOk (W v) z
    → AllOk (W (if a then t else if b then u else v)) (if b then y else if a then x else z)
swapped-AllOk W true true t u v x y z h hx hy hz = absurd (cc (h refl))
swapped-AllOk W true false t u v x y z h hx hy hz = hx
swapped-AllOk W false true t u v x y z h hx hy hz = hy
swapped-AllOk W false false t u v x y z h hx hy hz = hz

pub if-not :
    {A : Type 0} (P : Result A → Type 0) (b : Bool) (x y : Result A)
    → b ≡ false
    → P y
    → P (if b then x else y)
if-not P b x y e h = rw e h
