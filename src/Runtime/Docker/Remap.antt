-- ===== src/Runtime/Docker/Remap.antt =====
-- `remap_cwd_workdir`: the workdir is at the target of the cover or below it.
use mathlib.Core.List.{append_assoc}
use littleorgans.Base.{
  ℕ, ◌≡◌, refl, ap, ◌∙◌, Bool, Bool-cases, ◌⊎◌, inl, inr, true, false, ◌||◌, Option, none, some,
  List, [], ◌∷◌, ◌++◌, ==_refl,
}
use littleorgans.Base.Exec.{ok}
use littleorgans.Base.Text.{same_text_refl, same_text}
use littleorgans.Runtime.Docker.Results.{same_answer}
use littleorgans.Runtime.Docker.{
  CwdCover, push_container_component, push_normal, remapped, remap_cwd_workdir,
}
use littleorgans.Runtime.Paths.{
  slash, Component, normal, root_dir, cur_dir, parent_dir, components, strip_text,
  container_path_covers, strip_prefix,
}

-- A workdir at the root or below it.
abbrev Extends : List ℕ → List ℕ → Type 0
Extends root path = (path ≡ root) ⊎ ((rest : List ℕ) × (path ≡ root ++ 47 ∷ rest))

push-Extends :
    (root path name : List ℕ)
    → same_text root slash ≡ false
    → Extends root path
    → Extends root (push_container_component path name)
push-Extends root path name n (inl e) = rw (e, n) (inr (name, refl))
push-Extends root path name n (inr (rest, e)) = elim (Bool-cases (same_text path slash)) [
  | inl s ↦ rw s (inr (rest ++ name, rw e (append_assoc root (47 ∷ rest) name)))
  | inr s ↦ rw s (inr (rest ++ 47 ∷ name, rw e (append_assoc root (47 ∷ rest) (47 ∷ name))))
]

push_normal-Extends :
    (root path : List ℕ) (cs : List Component)
    → same_text root slash ≡ false
    → Extends root path
    → Extends root (push_normal path cs)
push_normal-Extends root path [] n h = h
push_normal-Extends root path (normal name ∷ cs) n h =
    push_normal-Extends root (push_container_component path name) cs n
      (push-Extends root path name n h)
push_normal-Extends root path (root_dir ∷ cs) n h = push_normal-Extends root path cs n h
push_normal-Extends root path (cur_dir ∷ cs) n h = push_normal-Extends root path cs n h
push_normal-Extends root path (parent_dir ∷ cs) n h = push_normal-Extends root path cs n h

strip-append : (base tail : List ℕ) → strip_text (base ++ tail) base ≡ some tail
strip-append [] [] = refl
strip-append [] (c ∷ cs) = refl
strip-append (c ∷ cs) tail = rw (==_refl c, strip-append cs tail) refl

or_true : (b : Bool) → (b || true) ≡ true
or_true true = refl
or_true false = refl

covers-Extends : (root path : List ℕ) → Extends root path → container_path_covers root path ≡ true
unfolding container_path_covers
covers-Extends root path (inl e) = rw (e, same_text_refl root) (or_true (same_text root slash))
covers-Extends root path (inr (rest, e)) =
    rw (e, strip-append root (47 ∷ rest))
      (ap (λ b. same_text root slash || b) (or_true (same_text (root ++ 47 ∷ rest) root))
        ∙ or_true (same_text root slash))

root_covers :
    (root path : List ℕ) → same_text root slash ≡ true → container_path_covers root path ≡ true
unfolding container_path_covers
root_covers root path h = rw h refl

pushed :
    (root : List ℕ) (cs : List Component) → container_path_covers root (push_normal root cs) ≡ true
pushed root cs = elim (Bool-cases (same_text root slash)) [
  | inl e ↦ root_covers root (push_normal root cs) e
  | inr e ↦
      covers-Extends root (push_normal root cs) (push_normal-Extends root root cs e (inl refl))
]

remapped-below :
    (cover : CwdCover) (cwd workdir : List ℕ) (relative : Option (List Component))
    → remapped cover cwd relative ≡ ok workdir
    → container_path_covers cover.target workdir ≡ true
remapped-below cover cwd workdir none h = absurd cc
remapped-below cover cwd workdir (some relative) h =
    rw
      (← same_answer (ok (push_normal cover.target relative)) (push_normal cover.target relative)
        workdir refl h)
      (pushed cover.target relative)

-- A workdir that `remap_cwd_workdir` gives is at the target of the cover or below it.
pub remap-below :
    (cover : CwdCover) (cwd workdir : List ℕ)
    → remap_cwd_workdir cover cwd ≡ ok workdir
    → container_path_covers cover.target workdir ≡ true
unfolding remap_cwd_workdir
remap-below cover cwd workdir h =
    remapped-below cover cwd workdir (strip_prefix (components cwd) (components cover.source)) h
