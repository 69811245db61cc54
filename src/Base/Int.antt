-- ===== src/Base/Int.antt =====
-- Signed integers that the program only stores and compares (exit codes, signal numbers).
-- `negsuc n` is -(n + 1).
use native.Mathlib.Decide.{ℕ_discrete}
use Prim.Native.Nat.{ℕ}

pub data ℤ : Type 0 where
  pos : ℕ → ℤ
  negsuc : ℕ → ℤ

unfoldable pub ℤ-discrete : Discrete ℤ
unfolding ℕ_discrete
ℤ-discrete = hlevel ℕ_discrete
