-- ===== src/Base/Action/Ends.antt =====
-- What an action has achieved, on success and on failure: a precondition, and a postcondition of the
-- result and the state.
use littleorgans.Base.Exec.{Result, ok, err}
use littleorgans.Base.Tests.{if◌then◌else◌}
use mathlib.Core.Bool.{Bool, true, false}
use mathlib.Core.Path.{◌≡◌, refl}
use littleorgans.Base.Action.{Action, pure, raise, lift, gets, unless, continue, ◌>>=◌}
use littleorgans.Base.Action.Keeps.{Keeps}

pub record Ends {E S A : Type 0} (P : S → Type 0) (m : Action E S A) (Q : Result E A → S → Type 0)
    : Type 0 where
  pub at : (s : S) → P s → Q (m s).0 (m s).1

module _ {E S A : Type 0} {P : S → Type 0} where
  pub Ends-pure :
      (a : A) (Q : Result E A → S → Type 0) → ((s : S) → P s → Q (ok a) s) → Ends P (pure a) Q
  unfolding pure
  Ends-pure a Q k = record { at = k }

  pub Ends-raise :
      (e : E) (Q : Result E A → S → Type 0) → ((s : S) → P s → Q (err e) s) → Ends P (raise e) Q
  unfolding raise
  Ends-raise e Q k = record { at = k }

  pub Ends-gets :
      (f : S → A) (Q : Result E A → S → Type 0)
      → ((s : S) → P s → Q (ok (f s)) s)
      → Ends P (gets f) Q
  unfolding gets
  Ends-gets f Q k = record { at = k }

  pub Ends-if :
      (b : Bool) (m n : Action E S A) (Q : Result E A → S → Type 0)
      → Ends P m Q
      → Ends P n Q
      → Ends P (if b then m else n) Q
  Ends-if true m n Q k l = k
  Ends-if false m n Q k l = l

  pub Ends-kept : (m : Action E S A) → Keeps P m → Ends P m (λ r t. P t)
  Ends-kept m k = record { at = k.at }

  pub Ends-weaken :
      (m : Action E S A) (Q R : Result E A → S → Type 0)
      → Ends P m Q
      → ((r : Result E A) (s : S) → Q r s → R r s)
      → Ends P m R
  Ends-weaken m Q R h k = record { at = λ s p. k (m s).0 (m s).1 (h.at s p) }

module _ {E S A B : Type 0} where
  continue-Ends :
      (Q : Result E A → S → Type 0) (R : Result E B → S → Type 0) (f : A → Action E S B)
      (r : Result E A) (s : S)
      → Q r s
      → ((a : A) → Ends (Q (ok a)) (f a) R)
      → ((e : E) (t : S) → Q (err e) t → R (err e) t)
      → R (continue r f s).0 (continue r f s).1
  continue-Ends Q R f (ok a) s h k w = (k a).at s h
  continue-Ends Q R f (err e) s h k w = w e s h

module _ {E S A B : Type 0} {P : S → Type 0} where
  pub Ends-bind :
      (m : Action E S A) (f : A → Action E S B) (Q : Result E A → S → Type 0)
      (R : Result E B → S → Type 0)
      → Ends P m Q
      → ((a : A) → Ends (Q (ok a)) (f a) R)
      → ((e : E) (t : S) → Q (err e) t → R (err e) t)
      → Ends P (m >>= f) R
  unfolding ◌>>=◌
  Ends-bind m f Q R h k w = record {
    at = λ s p. continue-Ends Q R f (m s).0 (m s).1 (h.at s p) k w;
  }

  -- After an action that keeps the precondition.
  pub Ends-after :
      (m : Action E S A) (f : A → Action E S B) (R : Result E B → S → Type 0)
      → Keeps P m
      → ((a : A) → Ends P (f a) R)
      → ((e : E) (t : S) → P t → R (err e) t)
      → Ends P (m >>= f) R
  Ends-after m f R h k w = Ends-bind m f (λ _ t. P t) R (record { at = λ s p. h.at s p }) k w

-- An action that does not fail.
module _ {E S A : Type 0} where
  abbrev pub Returns : (A → S → Type 0) → Result E A → S → Type 0
  Returns Q (ok a) s = Q a s
  Returns Q (err e) s = ⊥

module _ {E S A B : Type 0} {P : S → Type 0} where
  pub Ends-returned :
      (m : Action E S A) (f : A → Action E S B) (Q : A → S → Type 0) (R : Result E B → S → Type 0)
      → Ends P m (Returns Q)
      → ((a : A) → Ends (Q a) (f a) R)
      → Ends P (m >>= f) R
  Ends-returned m f Q R h k = Ends-bind m f (Returns Q) R h k (λ e t w. elim w [ ])

-- What a check has shown.
module _ {E S : Type 0} (P : S → Type 0) (b : Bool) (e : E) where
  abbrev pub Passed : Result E (Unit {0}) → S → Type 0
  Passed (ok _) t = (b ≡ true) × P t
  Passed (err e) t = P t

  passed : (b' : Bool) (s : S) → b ≡ b' → P s → Passed (if b' then ok tt else err e) s
  passed true s k h = (k, h)
  passed false s k h = h

  pub unless-Passed : Ends P (unless b e) Passed
  unfolding unless
  unless-Passed = record { at = λ s h. passed b s refl h }

-- A postcondition of success only.
module _ {E S A : Type 0} where
  abbrev pub Done : (S → Type 0) → Result E A → S → Type 0
  Done Q (ok a) s = Q s
  Done Q (err e) s = Unit

module _ {E S A B : Type 0} {P : S → Type 0} where
  pub bind-Done :
      (m : Action E S A) (f : A → Action E S B) (Q R : S → Type 0)
      → Ends P m (Done Q)
      → ((a : A) → Ends Q (f a) (Done R))
      → Ends P (m >>= f) (Done R)
  bind-Done m f Q R h k = Ends-bind m f (Done Q) (Done R) h k (λ e t w. tt)

module _ {E S A B : Type 0} {P : S → Type 0} where
  continue-Done :
      (r : Result E A) (f : A → Action E S B) (R : S → Type 0)
      → ((a : A) → r ≡ ok a → Ends P (f a) (Done R))
      → Ends P (continue r f) (Done R)
  continue-Done (ok a) f R k = record { at = (k a refl).at }
  continue-Done (err e) f R k = record { at = λ s h. tt }

  -- What follows a result that is at hand may use which one it is.
  pub lifted-Done :
      (r : Result E A) (f : A → Action E S B) (R : S → Type 0)
      → ((a : A) → r ≡ ok a → Ends P (f a) (Done R))
      → Ends P (lift r >>= f) (Done R)
  unfolding ◌>>=◌
  lifted-Done r f R k = record { at = (continue-Done r f R k).at }

module _ {E S A : Type 0} (P : S → Type 0) where
  held : (r : Result E A) (s : S) → P s → Done P r s
  held (ok a) s h = h
  held (err e) s h = tt

  pub Keeps-Done : (m : Action E S A) → Keeps P m → Ends P m (Done P)
  Keeps-Done m k = record { at = λ s h. held (m s).0 (m s).1 (k.at s h) }
