-- ===== src/Lib.antt =====
-- A verification library for littleorgans: the runtime daemon, which launches coding agents, watches
-- their processes and reports what becomes of them, and the session layer above it, which follows the
-- daemon's events and keeps the sessions and their mail.
--
-- Paths of the source are from the repository's root.
--
-- Base: shared helpers. Base/Tests has Boolean tests on the native numbers, Base/Lists the lists
--   over them, Base/Exec the handlers that change a state and may fail, Base/Action the same with
--   combinators that do not unfold by themselves and rules for what they keep, Base/Int the signed
--   integers of exit codes.
-- Runtime/Lifecycle: crates/lilo-rm-core/src/types/lifecycle.rs. A `Lifecycle` and its transitions
--   `mark_running`, `mark_exited` and `mark_lost`; the stored text of `LostEvidence`. A session id,
--   a process id and a time are natural numbers.
-- Runtime/Failure: the errors that the daemon tells apart.
-- Runtime/EventLog: internal/runtime/daemon/src/event_log.rs. The state is `EventLogInner`; the file
--   is the list of its bytes, and a lost file handle is `linked = false`. What the operating system
--   answers to the calls of one append is an `AppendIo`, so a write may stop after any byte. The
--   encoder and the decoder of a line (serde_json) are parameters, with the laws that an encoded
--   line reads back and holds no newline; Runtime/EventLog/Sample shows that such a pair exists.
--   `EventLog.Recovery` is `EventLog::open`.
-- Runtime/Server: internal/runtime/daemon/src/server/. `ServerState` has the shared state of the
--   coordinators and the table of internal/runtime/store/src/postgres/lifecycle.rs; a handler is one
--   method. `Env` answers the daemon's questions, the n-th one by a function of n, so an answer may
--   change at every call. Server/Spawn is spawn.rs, Server/Termination termination.rs and watcher.rs,
--   Server/Reconcile internal/runtime/daemon/src/reconcile.rs, and Server/Ops runs operations one
--   after the other. Server/Stable and Server/Once say what the operations keep, Server/Conflict
--   is about two spawns of one session.
-- Runtime/Kill: the loop of internal/runtime/daemon/src/runtime_kill.rs (`run_kill_loop`) for any
--   `KillTarget`, which answers by a function of the number of the question. A question and a sleep
--   take time, and the clock is part of the state. Kill/Host is `kill_runtime_with_probe`, on the
--   daemon's state and the target's.
-- Runtime/Nudge: internal/runtime/daemon/src/tmux_nudge.rs, how a text is typed into the tmux pane of
--   an agent: the policies (immediate, wait, steer) and the delivery with its confirmation. The pane
--   (`NudgeOps`) answers by functions of the number of the question, and the test for a busy pane is a
--   parameter. Nudge/Delivery is about what was sent, Nudge/Idle about the wait, Nudge/Timing about
--   its timing.
-- Runtime/Paths: the texts of paths in internal/runtime/daemon/src/docker_mount_plan.rs. A host path has
--   the components that `std::path` gives it on Unix. Paths/Parts is about normalization,
--   Paths/Prefixes about the test of one path against another.
-- Runtime/Docker: the plan of the same file, by which the working directory gets into a container.
--   Docker/Cover is about the choice of the mount that covers the directory, Docker/Remap about the
--   workdir in it, Docker/Planned and Docker/Workdir about a plan that is accepted. Docker/Preflight
--   has the checks of mounts in spawn_preflight.rs with the catalog of
--   crates/lilo-rm-core/src/path_shaped_envs.rs; `canonicalize` is any function. Docker/Image has the
--   checks of a profile and of its image there, with the configuration of docker_preflight.rs; docker
--   is an `Inspector` that answers. Image/User is about the name of an image's user, Image/Allowed
--   about the single tests. Docker/Argv is docker_argv.rs, the command line of `docker run`.
-- Session/Namespace: internal/session/core/src/namespace.rs. A text is a list of code points.
-- Session/Selector: internal/session/core/src/selector/types.rs and scope.rs, and the selection of
--   sessions of internal/session/store/src/postgres/sessions.rs. The table is the list of the sessions
--   in the order of `created_at`, each with its labels; the text of an id is a parameter. A directory is
--   compared by its text in a query and by its components in `session_matches_selector`.
-- Session/Mail: internal/session/core/src/mail.rs, the words of the mail protocol and the timeout of a
--   notified send.
-- Session/Store: internal/session/store/src/postgres/, as functions on tables. A statement is done,
--   refused, or done with an answer that is lost, by the number of the statement; a transaction that
--   fails is rolled back unless only the answer to its commit was lost (`commit_or_rollback` of
--   internal/db/src/lib.rs). Store/Events is events.rs, the runtime's events and the cursor;
--   Store/Sessions the writes of sessions.rs and the columns of a session's state (internal/session/
--   core/src/session.rs); Store/Mail the insertion and the reading of mail.rs. What other senders
--   commit between the `SELECT` and the `INSERT` of a message is a function on the database.
-- Session/Feed: internal/session/daemon/src/events.rs and reconcile.rs, the loop that polls the runtime
--   daemon and writes what it reads. Feed/Follows relates the sessions to any source of events with
--   numbers, Feed/Log is the runtime daemon's log as such a source, Feed/Decodes is about the columns.
-- Session/Messaging: internal/session/daemon/src/mail_safety.rs and the steps of `mail_send` of
--   internal/session/daemon/src/handler/messaging.rs that limit and write a mail. A handler's error has
--   the store's error in it. Messaging/Room is about the insertion, Messaging/Limits about a whole
--   send, Messaging/Config about the configuration.
-- Session/Spawn: internal/session/daemon/src/handler/spawn.rs from the intent on: the transaction that
--   writes the intent, the call of the runtime, the transaction that writes the session, and the
--   recovery. The statements are in Session/Store/Intents (spawn_intents.rs and the writes of the same
--   transactions in labels.rs and internal/runtime/store/src/postgres/lifecycle.rs). The runtime
--   daemon is an environment that answers by the number of a call and may change the tables it shares;
--   Spawn/Faithful says what is relied on of it. Spawn/Coherent has the invariant; Spawn/Drafts,
--   Spawn/Steps, Spawn/Spawns and Spawn/Recovers show that each handler keeps it; Spawn/Aborts,
--   Spawn/Completes and Spawn/Recovery are about a recovery that is answered, Spawn/Reached about
--   sequences of spawns and recoveries, Spawn/Confirmed about a spawn that succeeds.
--
-- Bounds: a sequence number saturates at 2^64 - 1. `advance_loop` runs on fuel, the distance to now,
-- which is enough for a positive interval; `wait` runs on one more than the milliseconds of the grace
-- period, which is enough since every round sleeps; `idle_loop` runs on two more than the nanoseconds
-- of its timeout, which is enough since every round but the last sleeps. `event_rounds` is any number
-- of rounds of a loop that has no end. A cursor is stored in 8 bytes.
--
-- Not modelled: the interleaving of two operations that hold no common lock, the timers, sockets and
-- child processes of the daemon, the text of SQL queries, the command lines of tmux, the
-- output of docker, the reading of a busy pane, the text of selectors and labels,
-- the log of messages, the responses and the other request handlers of the session daemon, and the
-- identity context.
pub mod Base
pub mod Runtime
pub mod Session
