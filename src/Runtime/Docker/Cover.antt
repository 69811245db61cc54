-- ===== src/Runtime/Docker/Cover.antt =====
-- `select_cwd_cover`: the mount whose source is the longest that covers the working directory.
use mathlib.Core.Path.{subst}
use mathlib.Core.List.{append_assoc, append-nil}
use littleorgans.Base.{
  ℕ, ◌<◌, ◌≡◌, refl, sym, ap, ◌∙◌, Bool-cases, inl, inr, true, false, ltb, ltb→lt, ◌==◌, ==_iff,
  Option, none, some, List, [], ◌∷◌, ◌++◌, arith, All, All-append, clash,
}
use littleorgans.Base.Exec.{Result, ok, err}
use littleorgans.Runtime.Docker.{
  MountError, CwdCover, DockerMount, equal_precedence, depth, tie, select_next, select_loop,
  select_cwd_cover, cover_of, and_then,
}
use littleorgans.Runtime.Paths.{host_path_covers}

-- The first mount stands in the list at an earlier place than the second one.
abbrev pub InTurn : DockerMount → DockerMount → List DockerMount → Type 0
InTurn first second mounts =
    (before : List DockerMount) × (between : List DockerMount) × (after : List DockerMount)
    × (mounts ≡ before ++ first ∷ (between ++ second ∷ after))

module _ (cwd : List ℕ) where
  abbrev pub Covers : DockerMount → Type 0
  Covers mount = host_path_covers mount.source cwd ≡ true

  abbrev pub Uncovered : DockerMount → Type 0
  Uncovered mount = host_path_covers mount.source cwd ≡ false

  -- If the mount covers the directory, its source has fewer components than that of the other.
  abbrev pub Shorter : DockerMount → DockerMount → Type 0
  Shorter selected mount = Covers mount → depth mount < depth selected

  -- The mount stands in the list and covers the directory, and all others that do are shorter.
  abbrev pub Longest : DockerMount → List DockerMount → Type 0
  Longest mount mounts =
      Covers mount
      × ((before : List DockerMount) × (after : List DockerMount) × (mounts
            ≡ before ++ mount ∷ after)
          × All (Shorter mount) before
          × All (Shorter mount) after)

  -- Two mounts at different places of the list cover the directory with as many components.
  abbrev pub Tied : MountError → List DockerMount → Type 0
  Tied e mounts =
      (previous : DockerMount) × (mount : DockerMount) × InTurn previous mount mounts
      × Covers previous
      × Covers mount
      × (depth previous ≡ depth mount)
      × (e ≡ equal_precedence cwd previous.source mount.source)

  abbrev pub Selects : List DockerMount → Result MountError (Option DockerMount) → Type 0
  Selects mounts (ok none) = All Uncovered mounts
  Selects mounts (ok (some mount)) = Longest mount mounts
  Selects mounts (err e) = Tied e mounts

  -- What the loop holds after the mounts that it has read.
  abbrev Best : List DockerMount → Option DockerMount × ℕ → Type 0
  Best mounts (none, len) = All Uncovered mounts × (len ≡ 0)
  Best mounts (some mount, len) = Longest mount mounts × (len ≡ depth mount)

  abbrev Next : List DockerMount → Result MountError (Option DockerMount × ℕ) → Type 0
  Next mounts (ok state) = Best mounts state
  Next mounts (err e) = Tied e mounts

  none_before :
      (mount : DockerMount) (mounts : List DockerMount)
      → All Uncovered mounts
      → All (Shorter mount) mounts
  none_before mount [] h = tt
  none_before mount (m ∷ mounts) h = ((λ k. absurd (clash _ k h.0)), none_before mount mounts h.1)

  grown :
      (old new : DockerMount) (mounts : List DockerMount)
      → depth old < depth new
      → All (Shorter old) mounts
      → All (Shorter new) mounts
  grown old new [] lt h = tt
  grown old new (m ∷ mounts) lt h = ((λ k. omega (arith, h.0 k)), grown old new mounts lt h.1)

  -- The last mount is the longest if all before it are shorter.
  last-Longest :
      (mount : DockerMount) (mounts : List DockerMount)
      → Covers mount
      → All (Shorter mount) mounts
      → Longest mount (mounts ++ mount ∷ [])
  last-Longest mount mounts c h = (c, (mounts, [], refl, h, tt))

  Longest-All :
      (old new : DockerMount) (mounts : List DockerMount)
      → depth old < depth new
      → Longest old mounts
      → All (Shorter new) mounts
  Longest-All old new mounts lt (c, (before, after, e, b, a)) = rw e (
      All-append (Shorter new) before (old ∷ after) (grown old new before lt b)
        ((λ k. lt), grown old new after lt a))

  -- A further mount that is shorter changes nothing.
  Longest-further :
      (mount next : DockerMount) (mounts : List DockerMount)
      → Shorter mount next
      → Longest mount mounts
      → Longest mount (mounts ++ next ∷ [])
  Longest-further mount next mounts s (c, (before, after, e, b, a)) = (
    c,
    (
      before,
      after ++ next ∷ [],
      ap (λ ms. ms ++ next ∷ []) e ∙ append_assoc before (mount ∷ after) (next ∷ []),
      b,
      All-append (Shorter mount) after (next ∷ []) a (s, tt),
    ),
  )

  not_selected :
      (mounts : List DockerMount) (mount : DockerMount) (state : Option DockerMount × ℕ)
      → Uncovered mount
      → Best mounts state
      → Best (mounts ++ mount ∷ []) state
  not_selected mounts mount (none, len) u (all, z) =
      (All-append Uncovered mounts (mount ∷ []) all (u, tt), z)
  not_selected mounts mount (some m, len) u (long, z) =
      (Longest-further m mount mounts (λ k. absurd (clash _ k u)) long, z)

  selected :
      (mounts : List DockerMount) (mount : DockerMount) (state : Option DockerMount × ℕ)
      → Covers mount
      → state.1 < depth mount
      → Best mounts state
      → Longest mount (mounts ++ mount ∷ [])
  selected mounts mount (none, len) c lt (all, z) =
      last-Longest mount mounts c (none_before mount mounts all)
  selected mounts mount (some m, len) c lt (long, z) =
      last-Longest mount mounts c (Longest-All m mount mounts (omega (arith, z, lt)) long)

  tied :
      (mounts : List DockerMount) (mount : DockerMount) (best : Option DockerMount) (len : ℕ)
      → Covers mount
      → depth mount ≡ len
      → Best mounts (best, len)
      → Next (mounts ++ mount ∷ []) (tie cwd mount best)
  tied mounts mount none len c e (all, z) =
      (last-Longest mount mounts c (none_before mount mounts all), refl)
  tied mounts mount (some m) len c e ((d, (before, after, s, b, a)), z) = (
    m,
    mount,
    (
      before,
      after,
      [],
      ap (λ ms. ms ++ mount ∷ []) s ∙ append_assoc before (m ∷ after) (mount ∷ []),
    ),
    d,
    c,
    sym z ∙ sym e,
    refl,
  )

  shorter_kept :
      (mounts : List DockerMount) (mount : DockerMount) (state : Option DockerMount × ℕ)
      → ltb state.1 (depth mount) ≡ false
      → (depth mount == state.1) ≡ false
      → Best mounts state
      → Best (mounts ++ mount ∷ []) state
  shorter_kept mounts mount (none, len) lt ne (all, z) = absurd (ground arith)
  shorter_kept mounts mount (some m, len) lt ne (long, z) =
      (Longest-further m mount mounts (λ k. ground arith) long, z)

  select_next-Next :
      (mounts : List DockerMount) (mount : DockerMount) (best : Option DockerMount) (len : ℕ)
      → Best mounts (best, len)
      → Next (mounts ++ mount ∷ []) (select_next cwd mount (best, len))
  unfolding select_next
  select_next-Next mounts mount best len h = elim (Bool-cases (host_path_covers mount.source cwd)) [
    | inr u ↦ rw u (not_selected mounts mount (best, len) u h)
    | inl c ↦ elim (Bool-cases (ltb len (depth mount))) [
      | inl lt ↦
          rw (c, lt) (selected mounts mount (best, len) c (ltb→lt len (depth mount) lt) h, refl)
      | inr ge ↦ elim (Bool-cases (depth mount == len)) [
        | inl e ↦ rw (c, ge, e) (tied mounts mount best len c ((==_iff _ len).0 e) h)
        | inr ne ↦ rw (c, ge, ne) (shorter_kept mounts mount (best, len) ge ne h)
      ]
    ]
  ]

  Tied-more : (e : MountError) (xs ys : List DockerMount) → Tied e xs → Tied e (xs ++ ys)
  Tied-more e xs ys (previous, mount, (before, between, after, place), c, d, same, text) = (
    previous,
    mount,
    (
      before,
      between,
      after ++ ys,
      ap (λ ms. ms ++ ys) place
          ∙ append_assoc before (previous ∷ (between ++ mount ∷ after)) ys
          ∙ ap (λ ms. before ++ previous ∷ ms) (append_assoc between (mount ∷ after) ys),
    ),
    c,
    d,
    same,
    text,
  )

  loop_end :
      (mounts : List DockerMount) (state : Option DockerMount × ℕ)
      → Best mounts state
      → Selects mounts (ok state.0)
  loop_end mounts (none, len) h = h.0
  loop_end mounts (some mount, len) h = h.0

  continued :
      (rest mounts : List DockerMount) (next : Result MountError (Option DockerMount × ℕ))
      → Next mounts next
      → ((state : Option DockerMount × ℕ)
          → Best mounts state
          → Selects (mounts ++ rest) (select_loop cwd rest state))
      → Selects (mounts ++ rest) (and_then next (λ state. select_loop cwd rest state))
  continued rest mounts (err e) t k = Tied-more e mounts rest t
  continued rest mounts (ok state) b k = k state b

  select_loop-Selects :
      (rest mounts : List DockerMount) (state : Option DockerMount × ℕ)
      → Best mounts state
      → Selects (mounts ++ rest) (select_loop cwd rest state)
  select_loop-Selects [] mounts state h =
      subst (λ ms. Selects ms (ok state.0)) (sym (append-nil mounts)) (loop_end mounts state h)
  select_loop-Selects (mount ∷ rest) mounts (best, len) h =
      subst (λ ms. Selects ms (select_loop cwd (mount ∷ rest) (best, len)))
        (append_assoc mounts (mount ∷ []) rest)
        (continued rest (mounts ++ mount ∷ []) (select_next cwd mount (best, len))
          (select_next-Next mounts mount best len h)
          (λ state b. select_loop-Selects rest (mounts ++ mount ∷ []) state b))

  -- What `select_cwd_cover` answers: the cover of the longest mount, that there is none, or a tie.
  abbrev pub Answers : List DockerMount → Result MountError (Option CwdCover) → Type 0
  Answers mounts (ok none) = All Uncovered mounts
  Answers mounts (ok (some cover)) =
      (mount : DockerMount) × Longest mount mounts × (some cover ≡ cover_of (some mount))
  Answers mounts (err e) = Tied e mounts

  answered :
      (mounts : List DockerMount) (selected : Result MountError (Option DockerMount))
      → Selects mounts selected
      → Answers mounts (and_then selected (λ best. ok (cover_of best)))
  answered mounts (ok none) h = h
  answered mounts (ok (some mount)) h = (mount, h, refl)
  answered mounts (err e) h = h

-- The cover of the working directory is the mount of the list whose source covers it and has more
-- components than that of any other which does; if there is none, no mount covers it; and if it is
-- an error, two mounts at different places of the list cover it with as many components.
pub select_cwd_cover-Answers :
    (cwd : List ℕ) (mounts : List DockerMount) → Answers cwd mounts (select_cwd_cover cwd mounts)
unfolding select_cwd_cover
select_cwd_cover-Answers cwd mounts =
    answered cwd mounts (select_loop cwd mounts (none, 0))
      (select_loop-Selects cwd mounts [] (none, 0) (tt, refl))
