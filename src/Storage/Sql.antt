-- ===== src/Storage/Sql.antt =====
-- storage/sql/sql.go. The database is a parameter: what the code calls of package database/sql, over
-- the statements that it sends. An error is `true`, or `none` where a value is returned.
pub mod Rows
pub mod Cursors
pub mod Meets
pub mod Refused
pub mod Samples
use irc_idler.Prelude.{
  ℕ, zero, suc, ◌+◌, Bytes, Bool, true, false, Option, none, some, if◌then◌else◌,
}
use irc_idler.Irc.Message.{Message, to_string}
use irc_idler.Irc.Reader.{
  ReadResult, ReadError, got, failed, eof, too_long, more_than_one, parse_message_string,
}
use irc_idler.Storage.{Store, Fetched, entry, end, broken}

pub record Database : Type 1 where
  pub State : Type 0
  pub Rows : Type 0
  -- `CREATE TABLE IF NOT EXISTS messages (id, channel, message)`.
  pub create : State → Bool × State
  -- `INSERT INTO messages(channel, message) VALUES (?, ?)`.
  pub insert : Bytes → Bytes → State → Bool × State
  -- `DELETE FROM messages WHERE channel = ?`.
  pub delete : Bytes → State → Bool × State
  -- `SELECT message FROM messages WHERE channel = ? ORDER BY id`.
  pub select : Bytes → State → Option Rows × State
  -- `rows.Next()`, `rows.Err()` and `rows.Scan()`, and a bound on the rows that are left.
  pub next_row : Rows → Bool × Rows
  pub rows_err : Rows → Bool
  pub scan : Rows → Option Bytes
  pub row_count : Rows → ℕ

-- The `err` of a cursor: nil, `io.EOF`, or another.
pub data CursorError : Type 0 where
  no_error at_end failure : CursorError

module _ (D : Database) where
  open D use {State, Rows, create, insert, delete, select, next_row, rows_err, scan, row_count}

  pub record SqlStore : Type 0 where
    pub db : State
    pub have_schema : Bool

  pub record SqlCursor : Type 0 where
    pub rows : Rows
    pub err : CursorError
    pub msg : Option Message

  -- `NewStore`.
  unfoldable pub new_store : State → SqlStore
  new_store db = record { db = db; have_schema = false }

  with_schema : Bool × State → Bool × SqlStore
  with_schema (true, db) = (true, record { db = db; have_schema = false })
  with_schema (false, db) = (false, record { db = db; have_schema = true })

  unfoldable pub get_channel : Bytes → SqlStore → Bool × SqlStore
  unfolding with_schema
  get_channel name s = if s.have_schema then (false, s) else with_schema (create s.db)

  unfoldable pub log_message : Bytes → Message → SqlStore → Bool × SqlStore
  log_message name m s =
      let (err, db) = insert name (to_string m) s.db in (err, record s { db = db })

  unfoldable pub clear : Bytes → SqlStore → Bool × SqlStore
  clear name s = let (err, db) = delete name s.db in (err, record s { db = db })

  -- `c.msg, c.err = irc.ParseMessage(str)`.
  pub parsed_row : Rows → ReadResult → SqlCursor
  parsed_row rows (got m rest) = record { rows = rows; err = no_error; msg = some m }
  parsed_row rows (failed eof) = record { rows = rows; err = at_end; msg = none }
  parsed_row rows (failed too_long) = record { rows = rows; err = failure; msg = none }
  parsed_row rows (failed more_than_one) = record { rows = rows; err = failure; msg = none }

  scanned_row : Rows → Option Message → Option Bytes → SqlCursor
  unfolding parsed_row
  scanned_row rows msg none = record { rows = rows; err = failure; msg = msg }
  scanned_row rows msg (some str) = parsed_row rows (parse_message_string str)

  -- What `Next` does to the cursor behind `rows.Next()`.
  unfoldable pub moved_to : Option Message → Bool × Rows → SqlCursor
  unfolding scanned_row
  moved_to msg (true, rows) = scanned_row rows msg (scan rows)
  moved_to msg (false, rows) = record {
    rows = rows;
    err = if rows_err rows then failure else at_end;
    msg = msg;
  }

  unfoldable pub next : SqlCursor → SqlCursor
  unfolding moved_to
  next c = moved_to c.msg (next_row c.rows)

  started : Option Rows → Option SqlCursor
  unfolding moved_to
  started none = none
  started (some rows) = some (moved_to none (next_row rows))

  unfoldable pub replay : Bytes → SqlStore → Option SqlCursor × SqlStore
  unfolding started
  replay name s = let (rows, db) = select name s.db in (started rows, record s { db = db })

  -- `Get` returns `c.msg, c.err`. With no error there is a message.
  pub fetched : CursorError → Option Message → Fetched
  fetched no_error (some m) = entry m
  fetched no_error none = broken
  fetched at_end msg = end
  fetched failure msg = broken

  unfoldable pub get : SqlCursor → Fetched
  unfolding fetched
  get c = fetched c.err c.msg

  -- The loop over a cursor that has no error takes one more round for each row that is left.
  pub rounds : CursorError → ℕ → ℕ
  rounds no_error n = suc n
  rounds at_end n = 0
  rounds failure n = 0

  unfoldable pub size : SqlCursor → ℕ
  unfolding rounds
  size c = rounds c.err (row_count c.rows)

  abbrev pub sql_store : Store
  sql_store = record {
    State = SqlStore;
    Cursor = SqlCursor;
    get_channel = get_channel;
    log_message = log_message;
    replay = replay;
    clear = clear;
    get = get;
    next = next;
    size = size;
  }
