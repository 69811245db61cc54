-- ===== src/Base/Text.antt =====
-- Tests on texts, which are lists of code points.
use littleorgans.Base.Tests.{◌==◌, ==_refl}
use Prim.Native.Nat.{ℕ}
use Prim.Native.Char.{code}
use Prim.Native.String.{String, [], ◌∷◌}
use mathlib.Core.Path.{◌≡◌, refl}
use mathlib.Core.Bool.{Bool, true, false, ◌&&◌}
use mathlib.Core.List.{List, [], ◌∷◌}

abbrev pub starts_with : List ℕ → List ℕ → Bool
starts_with text [] = true
starts_with [] (p ∷ ps) = false
starts_with (c ∷ cs) (p ∷ ps) = c == p && starts_with cs ps

abbrev pub same_text : List ℕ → List ℕ → Bool
same_text [] [] = true
same_text (a ∷ as') (b ∷ bs) = a == b && same_text as' bs
same_text _ _ = false

abbrev pub is_empty : List ℕ → Bool
is_empty [] = true
is_empty (_ ∷ _) = false

-- The code points of a string.
abbrev pub codes : String → List ℕ
codes [] = []
codes (c ∷ cs) = code c ∷ codes cs

pub same_text_refl : (text : List ℕ) → same_text text text ≡ true
same_text_refl [] = refl
same_text_refl (c ∷ cs) = rw (==_refl c, same_text_refl cs) refl
