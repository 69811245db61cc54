-- ===== src/Base/Action.antt =====
-- The same handlers with shut combinators, for components whose proofs go by rules: an action
-- returns a result and the new state, and what was written before a failure stays written.
pub mod Keeps
pub mod Ends
pub mod Calls
use littleorgans.Base.Exec.{Result, ok, err}
use littleorgans.Base.Tests.{if◌then◌else◌}
use mathlib.Core.Bool.{Bool}

abbrev pub Action : Type 0 → Type 0 → Type 0 → Type 0
Action E S A = S → Result E A × S

module _ {E S A : Type 0} where
  pub pure : A → Action E S A
  pure a s = (ok a, s)

  pub raise : E → Action E S A
  raise e s = (err e, s)

  pub lift : Result E A → Action E S A
  lift r s = (r, s)

  pub gets : (S → A) → Action E S A
  gets f s = (ok (f s), s)

module _ {E S : Type 0} where
  pub modify : (S → S) → Action E S (Unit {0})
  modify f s = (ok tt, f s)

  pub unless : Bool → E → Action E S (Unit {0})
  unless b e s = ((if b then ok tt else err e), s)

module _ {E S A B : Type 0} where
  abbrev pub continue : Result E A → (A → Action E S B) → Action E S B
  continue (ok a) f s = f a s
  continue (err e) f s = (err e, s)

  infixl 10 ◌>>=◌ ◌>>◌
  -- Opening this opens the other combinators too.
  unfoldable pub ◌>>=◌ : Action E S A → (A → Action E S B) → Action E S B
  unfolding pure raise lift gets modify unless
  ◌>>=◌ m f s = continue (m s).0 f (m s).1

  abbrev pub ◌>>◌ : Action E S A → Action E S B → Action E S B
  m >> n = m >>= λ _. n
