-- ===== src/Base/Action/Keeps.antt =====
-- Properties of the state that an action keeps, on success and on failure: a rule for each way to
-- build an action.
use littleorgans.Base.Exec.{Result, ok, err}
use littleorgans.Base.Tests.{if◌then◌else◌}
use mathlib.Core.Path.{◌≡◌, refl}
use mathlib.Core.Bool.{Bool, true, false}
use littleorgans.Base.Action.{Action, pure, raise, lift, gets, modify, unless, continue, ◌>>=◌}

pub record Keeps {E S A : Type 0} (P : S → Type 0) (m : Action E S A) : Type 0 where
  pub at : (s : S) → P s → P (m s).1

module _ {E S A : Type 0} {P : S → Type 0} where
  pub Keeps-pure : (a : A) → Keeps {E = E} P (pure a)
  unfolding pure
  Keeps-pure a = record { at = λ s h. h }

  pub Keeps-raise : (e : E) → Keeps {A = A} P (raise e)
  unfolding raise
  Keeps-raise e = record { at = λ s h. h }

  pub Keeps-lift : (r : Result E A) → Keeps P (lift r)
  unfolding lift
  Keeps-lift r = record { at = λ s h. h }

  pub Keeps-gets : (f : S → A) → Keeps {E = E} P (gets f)
  unfolding gets
  Keeps-gets f = record { at = λ s h. h }

  pub Keeps-if :
      (b : Bool) (m n : Action E S A) → Keeps P m → Keeps P n → Keeps P (if b then m else n)
  Keeps-if true m n km kn = km
  Keeps-if false m n km kn = kn

module _ {E S : Type 0} {P : S → Type 0} where
  pub Keeps-unless : (b : Bool) (e : E) → Keeps P (unless b e)
  unfolding unless
  Keeps-unless b e = record { at = λ s h. h }

  pub Keeps-modify : (f : S → S) → ((s : S) → P s → P (f s)) → Keeps {E = E} P (modify f)
  unfolding modify
  Keeps-modify f k = record { at = k }

module _ {E S A B : Type 0} {P : S → Type 0} where
  Keeps-continue :
      (r : Result E A) (f : A → Action E S B) → ((a : A) → Keeps P (f a)) → Keeps P (continue r f)
  Keeps-continue (ok a) f k = record { at = (k a).at }
  Keeps-continue (err e) f k = record { at = λ s h. h }

  pub Keeps-bind :
      (m : Action E S A) (f : A → Action E S B)
      → Keeps P m
      → ((a : A) → Keeps P (f a))
      → Keeps P (m >>= f)
  unfolding ◌>>=◌
  Keeps-bind m f km kf = record { at = λ s h. (Keeps-continue (m s).0 f kf).at (m s).1 (km.at s h) }

  -- What follows a result that is at hand may use which one it is.
  pub Keeps-lifted :
      (r : Result E A) (f : A → Action E S B)
      → ((a : A) → r ≡ ok a → Keeps P (f a))
      → Keeps P (lift r >>= f)
  unfolding ◌>>=◌
  Keeps-lifted (ok a) f k = record { at = (k a refl).at }
  Keeps-lifted (err e) f k = record { at = λ s h. h }

-- A last step that only returns leaves the state.
module _ {E S A B : Type 0} where
  pub continue-pure :
      (r : Result E A) (f : A → B) (s : S) → (continue {S = S} r (λ a. pure (f a)) s).1 ≡ s
  unfolding pure
  continue-pure (ok a) f s = refl
  continue-pure (err e) f s = refl

  pub bind_pure : (m : Action E S A) (f : A → B) (s : S) → ((m >>= λ a. pure (f a)) s).1 ≡ (m s).1
  unfolding ◌>>=◌
  bind_pure m f s = continue-pure (m s).0 f (m s).1

pub ruleset keeps_rules =
    (Keeps-pure, Keeps-raise, Keeps-lift, Keeps-gets, Keeps-if, Keeps-unless, Keeps-bind)
