-- ===== src/Base/Exec.antt =====
-- Handlers that change a state and may fail. What was written before a failure stays written, so
-- the state comes back beside the error too.
pub data Result {ℓ κ} (E : Type ℓ) (A : Type κ) : Type (ℓ ⊔ κ) where
  ok : A → Result E A
  err : E → Result E A

abbrev pub Exec : Type 0 → Type 0 → Type 0 → Type 0
Exec E S A = S → Result E A × S

abbrev pub pure : {E S A : Type 0} → A → Exec E S A
pure a s = (ok a, s)

abbrev pub raise : {E S A : Type 0} → E → Exec E S A
raise e s = (err e, s)

abbrev continue : {E S A B : Type 0} → (A → Exec E S B) → Result E A × S → Result E B × S
continue f (ok a, s) = f a s
continue f (err e, s) = (err e, s)

infixl 5 ◌>>=◌ ◌>>◌
abbrev pub ◌>>=◌ : {E S A B : Type 0} → Exec E S A → (A → Exec E S B) → Exec E S B
◌>>=◌ m f s = continue f (m s)

abbrev pub ◌>>◌ : {E S A B : Type 0} → Exec E S A → Exec E S B → Exec E S B
m >> k = m >>= λ _. k

-- A property that the first handler establishes and the rest keeps holds at the end, on success
-- and on failure.
module _ {E S A B : Type 0} (P : S → Type 0) where
  continue_keeps :
      (f : A → Exec E S B) (r : Result E A) (s : S)
      → P s
      → ((a : A) (t : S) → P t → P (f a t).1)
      → P (continue f (r, s)).1
  continue_keeps f (ok a) s h k = k a s h
  continue_keeps f (err e) s h k = h

  pub bind_keeps :
      (m : Exec E S A) (f : A → Exec E S B) (s : S)
      → P (m s).1
      → ((a : A) (t : S) → P t → P (f a t).1)
      → P ((m >>= f) s).1
  bind_keeps m f s h k = continue_keeps f (m s).0 (m s).1 h k

-- The same with a property of the state between, which gives the last one on failure.
module _ {E S A B : Type 0} (Q P : S → Type 0) where
  continue_ends :
      (f : A → Exec E S B) (r : Result E A) (s : S)
      → Q s
      → ((t : S) → Q t → P t)
      → ((a : A) (t : S) → Q t → P (f a t).1)
      → P (continue f (r, s)).1
  continue_ends f (ok a) s h w k = k a s h
  continue_ends f (err e) s h w k = w s h

  pub bind_ends :
      (m : Exec E S A) (f : A → Exec E S B) (s : S)
      → Q (m s).1
      → ((t : S) → Q t → P t)
      → ((a : A) (t : S) → Q t → P (f a t).1)
      → P ((m >>= f) s).1
  bind_ends m f s h w k = continue_ends f (m s).0 (m s).1 h w k
