-- ===== src/Storage/Ephemeral.antt =====
-- storage/ephemeral/ephemeral.go, and the empty cursor of storage/storage.go.
pub mod Meets
use irc_idler.Prelude.{
  ℕ, ◌+◌, ◌-◌, Bytes, Bool, true, false, Option, none, some, List, [], ◌∷◌, ◌++◌, length, get_elem?,
}
use irc_idler.Prelude.Dict.{Dict, lookup, insert, delete}
use irc_idler.Irc.Message.{Message}
use irc_idler.Storage.{Store, Fetched, entry, end, broken}

abbrev pub Logs : Type 0
Logs = Dict (List Message)

-- `EmptyCursor`, and a slice with an index into it.
pub data Cursor : Type 0 where
  empty : Cursor
  cursor : List Message → ℕ → Cursor

unfoldable pub new_store : Logs
new_store = []

pub get_channel : Bytes → Logs → Bool × Logs
get_channel name s = (false, s)

appended : Option (List Message) → Message → List Message
appended none m = m ∷ []
appended (some ms) m = ms ++ m ∷ []

pub log_message : Bytes → Message → Logs → Bool × Logs
unfolding appended
log_message name m s = (false, insert name (appended (lookup name s) m) s)

pub clear : Bytes → Logs → Bool × Logs
clear name s = (false, delete name s)

cursor_at : Option (List Message) → Cursor
cursor_at none = empty
cursor_at (some ms) = cursor ms 0

pub replay : Bytes → Logs → Option Cursor × Logs
unfolding cursor_at
replay name s = (some (cursor_at (lookup name s)), s)

pub next : Cursor → Cursor
next empty = empty
next (cursor ms i) = cursor ms (i + 1)

fetched : Option Message → Fetched
fetched none = end
fetched (some m) = entry m

pub get : Cursor → Fetched
unfolding fetched
get empty = end
get (cursor ms i) = fetched (get_elem? ms i)

pub size : Cursor → ℕ
size empty = 0
size (cursor ms i) = length ms - i

abbrev pub ephemeral : Store
ephemeral = record {
  State = Logs;
  Cursor = Cursor;
  get_channel = get_channel;
  log_message = log_message;
  replay = replay;
  clear = clear;
  get = get;
  next = next;
  size = size;
}
