-- ===== src/Npi/Keeps.antt =====
-- Invariants of the effects of a run, one rule for each way to build a run.
use optimized_nan_lang.Base.{Bytes, inl, inr, Bool, true, false, List, ◌⊎◌, if◌then◌else◌}
use optimized_nan_lang.Npi.World.{
  World, Effect, Failure, Run, return, throw, asks, exists, continue, ◌>>=◌,
}

-- `m` keeps `P` of the effects, whether it returns or throws.
pub record Keeps {A : Type 0} (P : List Effect → Type 0) (m : Run A) : Type 0 where
  pub at : (w : World) (log : List Effect) → P log → P (m w log).0

module _ {A : Type 0} {P : List Effect → Type 0} where
  pub Keeps-return : (a : A) → Keeps P (return a)
  unfolding return
  Keeps-return a = record { at = λ w log h. h }

  pub Keeps-throw : (failure : Failure) → Keeps P (throw {A = A} failure)
  unfolding throw
  Keeps-throw failure = record { at = λ w log h. h }

  pub Keeps-asks : (answer : World → Failure ⊎ A) → Keeps P (asks answer)
  unfolding asks
  Keeps-asks answer = record { at = λ w log h. h }

  pub Keeps-if : (b : Bool) (m n : Run A) → Keeps P m → Keeps P n → Keeps P (if b then m else n)
  Keeps-if true m n km kn = km
  Keeps-if false m n km kn = kn

module _ {P : List Effect → Type 0} where
  pub Keeps-exists : (path : Bytes) → Keeps P (exists path)
  unfolding exists
  Keeps-exists path = record { at = λ w log h. h }

module _ {A B : Type 0} {P : List Effect → Type 0} where
  Keeps-continue :
      (f : A → Run B) (r : Failure ⊎ A) (w : World) (log : List Effect)
      → ((a : A) → Keeps P (f a))
      → P log
      → P (continue f w log r).0
  Keeps-continue f (inl failure) w log kf h = h
  Keeps-continue f (inr a) w log kf h = (kf a).at w log h

  pub Keeps-bind :
      (m : Run A) (f : A → Run B) → Keeps P m → ((a : A) → Keeps P (f a)) → Keeps P (m >>= f)
  unfolding ◌>>=◌
  Keeps-bind m f km kf = record {
    at = λ w log h. let (log', r) = m w log in Keeps-continue f r w log' kf (km.at w log h);
  }

pub ruleset keeps_rules =
    (Keeps-return, Keeps-throw, Keeps-asks, Keeps-exists, Keeps-if, Keeps-bind)
