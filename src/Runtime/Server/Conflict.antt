-- ===== src/Runtime/Server/Conflict.antt =====
-- A second spawn of a session whose first spawn still waits for its shim: server/spawn.rs.
use littleorgans.Base.{
  ℕ, ◌+◌, ◌≡◌, refl, ◌∙◌, true, false, ◌&&◌, none, some, List, [], ◌∷◌, arith, contains, lookup,
  lookup-erase, erase,
}
use littleorgans.Base.Exec.{err}
use littleorgans.Base.Action.{◌>>=◌}
use littleorgans.Runtime.Lifecycle.{Lifecycle, is_forking}
use littleorgans.Runtime.Failure.{protocol_mismatch}
use littleorgans.Runtime.Server.{
  Env, ServerState, find_row, drop_row, store_get, query, store_delete, take_ready, without,
}
use littleorgans.Runtime.Server.Spawn.{
  SpawnRequest, begin_spawn, same_runtime, same_isolation, validate_spawn_target, put_launch,
  wait_or_cancel, begin_ready_wait, cancel_spawn, ignoring_errors,
}

pub drop_row-gone : (i : ℕ) (rows : List Lifecycle) → find_row i (drop_row i rows) ≡ none
unfolding find_row drop_row
drop_row-gone i [] = refl
drop_row-gone i (m ∷ ms) = ground (arith, drop_row-gone i ms)

without-gone : (i : ℕ) (js : List ℕ) → contains i (without i js) ≡ false
unfolding without
without-gone i [] = refl
without-gone i (j ∷ js) = ground (arith, without-gone i js)

erased : (i : ℕ) (m : List (ℕ × ℕ)) → lookup i (erase i m) ≡ none
erased i m = lookup-erase i i m ∙ ground arith

-- Nothing of the spawn of `i` is left.
abbrev pub IsCancelled : ℕ → ServerState → Type 0
IsCancelled i s =
    (find_row i s.lifecycles ≡ none)
    × (lookup i s.pending_launches ≡ none)
    × (contains i s.pending_ready ≡ false)

-- Where a spawn of a forking session waits for its shim and the database answers, a second spawn
-- of that session, of the same runtime and isolation and with no tmux target, fails with a
-- protocol mismatch, and nothing is left of the first spawn: neither its row nor its launch spec
-- nor its wait.
pub begin_spawn-IsCancelled :
    (env : Env) (request : SpawnRequest) (launch : ℕ) (l : Lifecycle) (s : ServerState)
    → env.db_ok s.clock ≡ true
    → env.db_ok (s.clock + 1) ≡ true
    → find_row request.session_id s.lifecycles ≡ some l
    → (is_forking l.state
        && same_runtime l.runtime request.runtime
        && same_isolation l.isolation request.isolation)
      ≡ true
    → request.target ≡ none
    → contains request.session_id s.pending_ready ≡ true
    → ((begin_spawn env request launch s).0 ≡ err (protocol_mismatch request.session_id))
      × IsCancelled request.session_id (begin_spawn env request launch s).1
unfolding begin_spawn ◌>>=◌ store_get query validate_spawn_target put_launch wait_or_cancel
    begin_ready_wait cancel_spawn ignoring_errors store_delete take_ready
begin_spawn-IsCancelled env request launch l s up still_up found matches target waiting =
    rw (up, found, matches, target, waiting, still_up)
      (
        refl,
        (
          drop_row-gone request.session_id s.lifecycles,
          erased request.session_id _,
          without-gone request.session_id s.pending_ready,
        ),
      )
