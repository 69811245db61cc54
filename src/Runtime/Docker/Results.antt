-- ===== src/Runtime/Docker/Results.antt =====
-- The results of checks that refuse, one after another.
use littleorgans.Base.{ℕ, ◌≡◌, refl, ap, Option, none, some, List}
use littleorgans.Base.Exec.{Result, ok, err}
use littleorgans.Runtime.Docker.{MountError, and_then, ok_or_else}

pub same_answer : {E A : Type 0} (r : Result E A) (a b : A) → r ≡ ok a → r ≡ ok b → a ≡ b
same_answer r a b h k = cc

pub and_then-ok :
    {E A B : Type 0}
    → (r : Result E A) (f : A → Result E B) (b : B) → and_then r f ≡ ok b
    → (a : A) × (r ≡ ok a) × (f a ≡ ok b)
and_then-ok (ok a) f b h = (a, refl, h)
and_then-ok (err e) f b h = absurd cc

pub and_then-eq :
    {E A B : Type 0}
    → (r : Result E A) (f : A → Result E B) (a : A) (b : Result E B) → r ≡ ok a
    → f a ≡ b
    → and_then r f ≡ b
and_then-eq r f a b h k = rw (h) k

pub ok_or_else-ok :
    (e : MountError) (path : Option (List ℕ)) (found : List ℕ)
    → ok_or_else e path ≡ ok found
    → path ≡ some found
ok_or_else-ok e none found h = absurd cc
ok_or_else-ok e (some path) found h = ap some (same_answer (ok path) path found refl h)
