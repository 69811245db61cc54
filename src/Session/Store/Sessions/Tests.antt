-- ===== src/Session/Store/Sessions/Tests.antt =====
-- Runs of the writes of a session's state.
use littleorgans.Base.{◌≡◌, none, some, [], ◌∷◌}
use littleorgans.Base.Int.{pos}
use littleorgans.Base.Exec.{ok}
use littleorgans.Runtime.Lifecycle.{pid_reuse_detected}
use littleorgans.Session.Store.{Database}
use littleorgans.Session.Store.Events.Tests.{spawning_session, initial_db, reliable}
use littleorgans.Session.Store.Sessions.{
  lost, session_state_from_row, end_session, terminated_write,
}
use littleorgans.Session.Store.Sessions.States.{
  state_row, Ended, session_state_from_row-sql_name, end_session-Ended,
}

abbrev mail_db : Database
mail_db = record initial_db {
  deliveries =
      record { message_id = 1; recipient_session_id = 7; status = "unread"; read_at = none }
      ∷ record { message_id = 1; recipient_session_id = 8; status = "unread"; read_at = none }
      ∷ [];
}

session_state_from_row-sql_name_example :
    session_state_from_row (state_row (spawning_session 7) (lost pid_reuse_detected))
    ≡ ok (lost pid_reuse_detected)
session_state_from_row-sql_name_example =
    session_state_from_row-sql_name (spawning_session 7) (lost pid_reuse_detected)

end_session-Ended_example :
    Ended 7
      (terminated_write (some (pos 3)) 100)
      mail_db
      (end_session reliable 7
        (terminated_write (some (pos 3)) 100)
        (record { db = mail_db; clock = 0 })).0
      (end_session reliable 7
        (terminated_write (some (pos 3)) 100)
        (record { db = mail_db; clock = 0 })).1.db
end_session-Ended_example =
    end_session-Ended 7 reliable (terminated_write (some (pos 3)) 100)
      (record { db = mail_db; clock = 0 })
