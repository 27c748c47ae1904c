-- ===== src/Storage/Tests.antt =====
-- The SQL store over the database in memory.
use irc_idler.Prelude.{Bytes, Bool, true, some, List, [], ◌∷◌, ◌≡◌, refl}
use irc_idler.Prelude.{ℕ, bytes_eq, inl}
use irc_idler.Irc.Message.{Message}
use irc_idler.Irc.Reader.{parse_message_string, read_message, scan}
use irc_idler.Irc.Parse.{parse_message}
use irc_idler.Storage.Sql.{SqlStore, get_channel, replay, next, moved_to, get}
use irc_idler.Storage.Sql.Rows.{read_as}
use irc_idler.Storage.Sql.Refused.{IsBlocked}
use irc_idler.Proxy.World.{Output, World, ◌>>=◌, pure}
use irc_idler.Proxy.Log.{replay_log}
use irc_idler.Proxy.Run.{new_proxy}
use irc_idler.Proxy.Replay.Stuck.{sql_env, replay_log-refused}
use irc_idler.Storage.Laws.{StoreLaws, IsReliable}
use irc_idler.Irc.Reader.Stream.{IsCarried}
use irc_idler.Storage.Sql.Samples.{mem_db, mem_db_laws}
use irc_idler.Storage.Sql.{sql_store, new_store}
use irc_idler.Storage.Sql.Rows.{texts, readable, Table, IsUp}
use irc_idler.Storage.Sql.Meets.Remade.{sql_store-StoreLaws}

sql_store-StoreLaws_example :
    (laws' : StoreLaws (sql_store mem_db)) × ((s : SqlStore mem_db) (k : Bytes)
      → laws'.contents s k ≡ readable (texts k (mem_db_laws.table s.db)))
    × ((m : Message) → IsCarried m → laws'.Storable m)
    × ((db : Table) → mem_db_laws.table db ≡ [] → laws'.IsSound (new_store mem_db db))
    × (IsUp mem_db → IsReliable (sql_store mem_db) laws')
sql_store-StoreLaws_example = sql_store-StoreLaws mem_db mem_db_laws

-- A row with two lines, as no connection carries them.
abbrev two_lines : Bytes
two_lines = b'A' ∷ b'\r' ∷ b'\n' ∷ b'B' ∷ []

abbrev chan : Bytes
chan = b'#' ∷ b'c' ∷ []

two_lines-IsBlocked : IsBlocked (texts chan ((chan, two_lines) ∷ []))
unfolding texts bytes_eq parse_message_string read_as read_message scan parse_message
two_lines-IsBlocked = inl refl

abbrev blocked : World (SqlStore mem_db)
blocked = new_proxy (record { db = (chan, two_lines) ∷ []; have_schema = true })

abbrev all_writes : List Output → ℕ → Message → Bool
all_writes out id m = true

abbrev as_listed : List Output → List Bytes → List Bytes
as_listed out names = names

blocked_run : replay_log (sql_env mem_db all_writes as_listed) chan blocked ≡ some (tt, blocked)
unfolding replay_log ◌>>=◌ pure get_channel replay next moved_to get texts bytes_eq
    parse_message_string new_proxy read_message scan parse_message
blocked_run = refl

replay_log-refused_example : (blocked.logs.db) ≡ (chan, two_lines) ∷ []
unfolding new_proxy mem_db_laws
replay_log-refused_example =
    replay_log-refused mem_db mem_db_laws all_writes as_listed chan blocked two_lines-IsBlocked
      blocked_run
