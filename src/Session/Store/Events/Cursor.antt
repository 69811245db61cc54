-- ===== src/Session/Store/Events/Cursor.antt =====
-- The stored cursor reads back.
use littleorgans.Base.{ℕ, ◌^◌, ◌<◌, ◌≡◌, ap, arith}
use littleorgans.Base.Exec.{ok}
use littleorgans.Session.Store.Events.{to_be_bytes, decode_cursor}

-- A cursor that is a u64 reads back from its eight bytes.
pub decode_cursor-to_be_bytes :
    (cursor : ℕ) → cursor < 2 ^ 64 → decode_cursor (to_be_bytes cursor) ≡ ok cursor
unfolding decode_cursor to_be_bytes
decode_cursor-to_be_bytes cursor h = ap ok (omega arith)
