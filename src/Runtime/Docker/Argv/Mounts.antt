-- ===== src/Runtime/Docker/Argv/Mounts.antt =====
-- The `--mount` arguments of `docker run` against the mounts they are written for.
use mathlib.Core.List.{append-nil}
use littleorgans.Base.{
  ℕ, ◌≡◌, refl, sym, ap, ◌∙◌, Bool, true, false, not, ◌&&◌, ◌==◌, both_true, List, [], ◌∷◌, ◌++◌,
  if◌then◌else◌, arith, All, drop,
}
use littleorgans.Runtime.Docker.{MountSpec}
use littleorgans.Base.Text.{codes}
use littleorgans.Runtime.Docker.Argv.{bind_mount_arg, append_mount_args}

abbrev no_comma : List ℕ → Bool
no_comma [] = true
no_comma (c ∷ cs) = not (c == 44) && no_comma cs

abbrev pub CommaFree : MountSpec → Type 0
CommaFree mount = (no_comma mount.source ≡ true) × (no_comma mount.target ≡ true)

-- A reader of one argument: up to the first comma, and after it.
abbrev before_comma : List ℕ → List ℕ
before_comma [] = []
before_comma (c ∷ cs) = let rest = before_comma cs in if c == 44 then [] else c ∷ rest

abbrev after_comma : List ℕ → List ℕ
after_comma [] = []
after_comma (c ∷ cs) = let rest = after_comma cs in if c == 44 then cs else rest

abbrev read : List ℕ → MountSpec
read text =
    let fields = drop 17 text in
    let target = drop 7 (after_comma fields) in
    record {
      source = before_comma fields;
      target = before_comma target;
      read_only = not (no_comma target);
    }

rest_free :
    (c : ℕ) (cs : List ℕ) → no_comma (c ∷ cs) ≡ true → ((c == 44) ≡ false) × (no_comma cs ≡ true)
rest_free c cs h = (ground arith, (both_true (not (c == 44)) (no_comma cs) h).1)

before_all : (text : List ℕ) → no_comma text ≡ true → before_comma text ≡ text
before_all [] h = refl
before_all (c ∷ cs) h = let (e, k) = rest_free c cs h in rw (e, before_all cs k) refl

before-append :
    (text rest : List ℕ) → no_comma text ≡ true → before_comma (text ++ 44 ∷ rest) ≡ text
before-append [] rest h = refl
before-append (c ∷ cs) rest h =
    let (e, k) = rest_free c cs h in rw (e, before-append cs rest k) refl

after-append : (text rest : List ℕ) → no_comma text ≡ true → after_comma (text ++ 44 ∷ rest) ≡ rest
after-append [] rest h = refl
after-append (c ∷ cs) rest h = let (e, k) = rest_free c cs h in rw (e, after-append cs rest k) refl

comma_in : (text rest : List ℕ) → no_comma (text ++ 44 ∷ rest) ≡ false
comma_in [] rest = refl
comma_in (c ∷ cs) rest = ground (arith, comma_in cs rest)

abbrev option_text : Bool → List ℕ
option_text read_only = if read_only then codes ",readonly" else []

target_read :
    (target : List ℕ) (read_only : Bool)
    → no_comma target ≡ true
    → before_comma (target ++ option_text read_only) ≡ target
target_read target true h = before-append target (codes "readonly") h
target_read target false h = ap before_comma (append-nil target) ∙ before_all target h

option_read :
    (target : List ℕ) (read_only : Bool)
    → no_comma target ≡ true
    → not (no_comma (target ++ option_text read_only)) ≡ read_only
option_read target true h = ap not (comma_in target (codes "readonly"))
option_read target false h = ap (λ t. not (no_comma t)) (append-nil target) ∙ ap not h

abbrev made : List ℕ → List ℕ → Bool → MountSpec
made source target read_only = record { source = source; target = target; read_only = read_only }

abbrev with_fields : List ℕ → List ℕ → MountSpec
with_fields source fields =
    made source (before_comma (drop 7 fields)) (not (no_comma (drop 7 fields)))

-- The reader gives back a mount without commas.
read-bind_mount_arg : (mount : MountSpec) → CommaFree mount → read (bind_mount_arg mount) ≡ mount
unfolding bind_mount_arg
read-bind_mount_arg mount (s, t) =
    let target = mount.target ++ option_text mount.read_only in
    let fields = codes "target=" ++ target in
    ap (λ x. with_fields x (after_comma (mount.source ++ 44 ∷ fields)))
      (before-append mount.source fields s)
    ∙ ap (λ x. with_fields mount.source x) (after-append mount.source fields s)
    ∙ ap (λ x. made mount.source x (not (no_comma target)))
        (target_read mount.target mount.read_only t)
    ∙ ap (λ x. made mount.source mount.target x) (option_read mount.target mount.read_only t)

abbrev second : List (List ℕ) → List ℕ
second (a ∷ (b ∷ rest)) = b
second _ = []

-- The `--mount` arguments are written for no other mounts, if no path has a comma.
pub append_mount_args_injective :
    (mounts others : List MountSpec)
    → All CommaFree mounts
    → All CommaFree others
    → append_mount_args mounts ≡ append_mount_args others
    → mounts ≡ others
unfolding append_mount_args
append_mount_args_injective [] [] h k e = refl
append_mount_args_injective [] (n ∷ ns) h k e = absurd cc
append_mount_args_injective (m ∷ ms) [] h k e = absurd cc
append_mount_args_injective (m ∷ ms) (n ∷ ns) h k e =
    let first : m ≡ n =
      sym (read-bind_mount_arg m h.0)
      ∙ ap (λ args. read (second args)) e
      ∙ read-bind_mount_arg n k.0 in
    ap (λ x. x ∷ ms) first
    ∙ ap (λ xs. n ∷ xs) (append_mount_args_injective ms ns h.1 k.1 (ap (drop 2) e))
