-- ===== src/Session/Selector/Kept.antt =====
-- Lists of sessions that a test keeps, and the equality of directories: what the selection of sessions
-- by internal/session/store/src/postgres/sessions.rs needs of both.
use text.Mathlib.Text.{◌==◌ as str_eq}
use Prim.Native.String.{String}
use text.Mathlib.TextEquality.{eq_iff}
use littleorgans.Base.{
  ◌≡◌, refl, ap, Bool, Bool-cases, inl, inr, true, false, ◌&&◌, List, [], ◌∷◌, keep,
}
use littleorgans.Base.Text.{codes, same_text_refl}
use littleorgans.Runtime.Paths.{
  Component, root_dir, cur_dir, parent_dir, normal, components, same_components, same_path,
}
use littleorgans.Session.Selector.{Session}

pub keep-congr :
    (p q : Session → Bool) (xs : List Session) → ((x : Session) → p x ≡ q x) → keep p xs ≡ keep q xs
keep-congr p q [] h = refl
keep-congr p q (x ∷ xs) h = rw (h x, keep-congr p q xs h) refl

pub keep-keep :
    (p q : Session → Bool) (xs : List Session) → keep p (keep q xs) ≡ keep (λ x. q x && p x) xs
keep-keep p q [] = refl
keep-keep p q (x ∷ xs) = elim (Bool-cases (q x)) [
  | inl e ↦ rw (e, keep-keep p q xs) refl
  | inr e ↦ rw (e, keep-keep p q xs) refl
]

pub and_assoc : (a b c : Bool) → ((a && b) && c) ≡ (a && (b && c))
and_assoc true b c = refl
and_assoc false b c = refl

pub and_true : (a : Bool) → a ≡ (a && true)
and_true true = refl
and_true false = refl

and_false : (a : Bool) → false ≡ (a && false)
and_false true = refl
and_false false = refl

pub and_absorb : (a b : Bool) → (b ≡ true → a ≡ true) → (a && b) ≡ b
and_absorb true b h = refl
and_absorb false true h = h refl
and_absorb false false h = refl

pub keep_all : (xs : List Session) → xs ≡ keep (λ x. true) xs
keep_all [] = refl
keep_all (x ∷ xs) = ap (λ ys. x ∷ ys) (keep_all xs)

same_components_refl : (cs : List Component) → same_components cs cs ≡ true
same_components_refl [] = refl
same_components_refl (root_dir ∷ cs) = same_components_refl cs
same_components_refl (cur_dir ∷ cs) = same_components_refl cs
same_components_refl (parent_dir ∷ cs) = same_components_refl cs
same_components_refl (normal name ∷ cs) = rw (same_text_refl name) (same_components_refl cs)

pub same_dir : (a b : String) → str_eq a b ≡ (same_path (codes a) (codes b) && str_eq a b)
same_dir a b = elim (Bool-cases (str_eq a b)) [
  | inr e ↦ rw e (and_false (same_path (codes a) (codes b)))
  | inl e ↦
      let same = (eq_iff a b).0 e in rw (e, same, same_components_refl (components (codes b))) refl
]
