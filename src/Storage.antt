-- ===== src/Storage.antt =====
-- storage/storage.go: the interfaces `Store`, `ChannelLog` and `LogCursor`. A `ChannelLog` is a
-- channel's name beside the store's state. An error is `true` or `none`.
pub mod Laws
pub mod Holds
pub mod Ephemeral
pub mod Sql
mod Tests
use irc_idler.Prelude.{ℕ, Bytes, Bool, Option}
use irc_idler.Irc.Message.{Message}

-- What `Get` returns: a message, `io.EOF`, or another error.
pub data Fetched : Type 0 where
  entry : Message → Fetched
  end : Fetched
  broken : Fetched

pub record Store : Type 1 where
  pub State : Type 0
  pub Cursor : Type 0
  pub get_channel : Bytes → State → Bool × State
  pub log_message : Bytes → Message → State → Bool × State
  pub replay : Bytes → State → Option Cursor × State
  pub clear : Bytes → State → Bool × State
  pub get : Cursor → Fetched
  pub next : Cursor → Cursor
  -- A bound on the entries that are left, for the loop over a cursor.
  pub size : Cursor → ℕ
