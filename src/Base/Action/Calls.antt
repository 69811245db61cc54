-- ===== src/Base/Action/Calls.antt =====
-- A call of one component by another: its error is embedded in the caller's, or becomes a value.
use littleorgans.Base.Exec.{Result, ok, err}
use littleorgans.Base.Action.{Action}
use littleorgans.Base.Action.Keeps.{Keeps}
use littleorgans.Base.Action.Ends.{Ends, Returns, Done}

abbrev pub with_error : {E F S A : Type 0} → (E → F) → Result E A × S → Result F A × S
with_error f (ok a, s) = (ok a, s)
with_error f (err e, s) = (err (f e), s)

unfoldable pub map_err : {E F S A : Type 0} → (E → F) → Action E S A → Action F S A
map_err f m s = with_error f (m s)

unfoldable pub attempted : {E F S A : Type 0} → Action E S A → Action F S (Result E A)
attempted m s = (ok (m s).0, (m s).1)

module _ {E F S A : Type 0} (f : E → F) (P : S → Type 0) (m : Action E S A) where
  abbrev pub Mapped : (A → S → Type 0) → Result F A → S → Type 0
  Mapped Q (ok a) t = Q a t
  Mapped Q (err e) t = P t

  with_error-Mapped :
      (Q : A → S → Type 0) (R : Result E A → S → Type 0) (r : Result E A) (t : S)
      → R r t
      → ((a : A) → R (ok a) t → Q a t)
      → ((e : E) → R (err e) t → P t)
      → Mapped Q (with_error f (r, t)).0 (with_error f (r, t)).1
  with_error-Mapped Q R (ok a) t h k w = k a h
  with_error-Mapped Q R (err e) t h k w = w e h

  pub map_err-Mapped :
      (Q : A → S → Type 0) (R : Result E A → S → Type 0)
      → Ends P m R
      → ((a : A) (t : S) → R (ok a) t → Q a t)
      → ((e : E) (t : S) → R (err e) t → P t)
      → Ends P (map_err f m) (Mapped Q)
  unfolding map_err
  map_err-Mapped Q R h k w = record {
    at = λ s p.
        let r = m s in with_error-Mapped Q R r.0 r.1 (h.at s p) (λ a. k a r.1) (λ e. w e r.1);
  }

  with_error-keeps : (r : Result E A) (t : S) → P t → P (with_error f (r, t)).1
  with_error-keeps (ok a) t h = h
  with_error-keeps (err e) t h = h

  pub Keeps-map_err : Keeps P m → Keeps P (map_err f m)
  unfolding map_err
  Keeps-map_err k = record { at = λ s p. let r = m s in with_error-keeps r.0 r.1 (k.at s p) }

module _ {E F S A : Type 0} (f : E → F) (P : S → Type 0) (Q : A → S → Type 0) where
  with_error-Returns :
      (r : Result E A) (t : S)
      → Returns Q r t
      → Returns Q (with_error f (r, t)).0 (with_error f (r, t)).1
  with_error-Returns (ok a) t h = h
  with_error-Returns (err e) t h = h

  pub map_err-Returns : (m : Action E S A) → Ends P m (Returns Q) → Ends P (map_err f m) (Returns Q)
  unfolding map_err
  map_err-Returns m k = record { at = λ s h. let r = m s in with_error-Returns r.0 r.1 (k.at s h) }

module _ {E F S A : Type 0} (f : E → F) (P Q : S → Type 0) where
  with_error-Done :
      (r : Result E A) (t : S) → Done Q r t → Done Q (with_error f (r, t)).0 (with_error f (r, t)).1
  with_error-Done (ok a) t h = h
  with_error-Done (err e) t h = tt

  pub map_err-Done : (m : Action E S A) → Ends P m (Done Q) → Ends P (map_err f m) (Done Q)
  unfolding map_err
  map_err-Done m k = record { at = λ s h. let r = m s in with_error-Done r.0 r.1 (k.at s h) }

module _ {E F S A : Type 0} (P : S → Type 0) (m : Action E S A) where
  pub Keeps-attempted : Keeps P m → Keeps {E = F} P (attempted m)
  unfolding attempted
  Keeps-attempted k = record { at = k.at }

  pub attempted-Returns :
      (Q : Result E A → S → Type 0) → Ends P m Q → Ends {E = F} P (attempted m) (Returns Q)
  unfolding attempted
  attempted-Returns Q h = record { at = h.at }
