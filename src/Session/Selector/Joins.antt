-- ===== src/Session/Selector/Joins.antt =====
-- The queries on labels: each session once, where it has each key once.
use Prim.Native.String.{String}
use text.Mathlib.Text.{◌==◌ as str_eq}
use text.Mathlib.TextEquality.{eq_iff}
use littleorgans.Base.{
  clash, both_true, ◌≡◌, refl, sym, ◌∙◌, Bool, Bool-cases, inl, inr, true, false, ◌&&◌, List, [],
  ◌∷◌, ◌++◌, if◌then◌else◌, keep, All, arith,
}
use littleorgans.Session.Selector.{Label, Session, is_label_in, any_label}
use littleorgans.Session.Selector.Query.{copies, join}

-- The primary key of `session_labels`: a session has each key once.
abbrev pub DistinctLabels : List Label → Type 0
DistinctLabels [] = Unit
DistinctLabels (l ∷ ls) = All (λ k. str_eq k.key l.key ≡ false) ls × DistinctLabels ls

if_cons :
    (b : Bool) (x : Session) (xs : List Session)
    → (if b then x ∷ [] else []) ++ xs ≡ (if b then x ∷ xs else xs)
if_cons true x xs = refl
if_cons false x xs = refl

-- A join on a test of one key.
module _ (key : String) (test : Label → Bool)
    (one_key : (l : Label) → test l ≡ true → l.key ≡ key) where
  not_again : (l k : Label) → test l ≡ true → str_eq k.key l.key ≡ false → test k ≡ false
  not_again l k h other = elim (Bool-cases (test k)) [
    | inl e ↦ absurd (
        clash (str_eq k.key l.key) ((eq_iff k.key l.key).1 (one_key k e ∙ sym (one_key l h))) other)
    | inr e ↦ e
  ]

  copies-none :
      (l : Label) (ls : List Label) (x : Session)
      → test l ≡ true
      → All (λ k. str_eq k.key l.key ≡ false) ls
      → copies test ls x ≡ []
  copies-none l [] x h d = refl
  copies-none l (k ∷ ls) x h d = rw (not_again l k h d.0) (copies-none l ls x h d.1)

  copies-once :
      (ls : List Label) (x : Session)
      → DistinctLabels ls
      → copies test ls x ≡ (if any_label test ls then x ∷ [] else [])
  copies-once [] x d = refl
  copies-once (l ∷ ls) x d = elim (Bool-cases (test l)) [
    | inl e ↦ rw (e, copies-none l ls x e d.0) refl
    | inr e ↦ rw e (copies-once ls x d.1)
  ]

  pub join-keep :
      (xs : List Session)
      → All (λ x. DistinctLabels x.labels) xs
      → join test xs ≡ keep (λ x. any_label test x.labels) xs
  join-keep [] d = refl
  join-keep (x ∷ xs) d =
      rw (copies-once x.labels x d.0, join-keep xs d.1) (if_cons (any_label test x.labels) x _)

pub label_key : (key : String) (b : Bool) (l : Label) → (str_eq l.key key && b) ≡ true → l.key ≡ key
label_key key b l h = (eq_iff l.key key).0 (both_true (str_eq l.key key) b h).0

no_value : (key : String) (ls : List Label) → any_label (is_label_in key []) ls ≡ false
no_value key [] = refl
no_value key (l ∷ ls) = ground (arith, no_value key ls)

pub keep_none :
    (key : String) (xs : List Session) → [] ≡ keep (λ x. any_label (is_label_in key []) x.labels) xs
keep_none key [] = refl
keep_none key (x ∷ xs) = rw (no_value key x.labels) (keep_none key xs)
