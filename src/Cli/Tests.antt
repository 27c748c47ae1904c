-- ===== src/Cli/Tests.antt =====
-- A daemon that is started, stopped and started again over a database in memory.
use irc_idler.Prelude.{inr, Bytes, bytes, List, [], ◌∷◌, true, false, some, ◌≡◌, refl, arith}
use irc_idler.Irc.Message.{Message}
use irc_idler.Irc.Message.{len, param_chunks, prefix_chunks}
use irc_idler.Irc.Reader.Stream.{IsCarried}
use irc_idler.Net.Dial.{dialled, Dialer}
use irc_idler.Storage.Sql.{SqlStore}
use irc_idler.Storage.Sql.Rows.{readable, texts}
use irc_idler.Storage.Sql.Samples.{mem_db, mem_db_laws}
use irc_idler.Storage.Sql.Meets.{sql_laws}
use irc_idler.Storage.Sql.Meets.Remade.{stores_carried}
use irc_idler.Proxy.World.{World}
use irc_idler.Proxy.Run.{Event, stop, from_server, client_conn}
use irc_idler.Proxy.NoPanic.Events.{stops, of_server, accepts}
use irc_idler.Cli.{
  Flags, default_flags, Services, Running, runs, daemon_on, with_listener, with_database,
  with_level, main,
}
use irc_idler.Cli.Restart.{Writes, Order, CanServe, IsUsed, unused, serve, daemon_restarts}

abbrev direct : Dialer
direct network addr done = (some (record { id = 7; verified = [] }), dialled 7 ∷ done)

abbrev host : Services mem_db
host = record {
  parse_level = λ name. some 4;
  open_db = λ path. some [];
  ping_fails = λ db. false;
  listen = λ network addr. some 3;
  direct = direct;
  handshake = λ done id name. true;
}

abbrev flags : Flags
flags = record default_flags { raddr = bytes "irc:6697"; use_tls = true }

abbrev started : Running mem_db
started = daemon_on mem_db host flags 4 [] 3

main_runs : main mem_db host flags ≡ runs started
unfolding main with_level with_database with_listener
main_runs = refl

-- Nothing can be written.
abbrev writes : Writes
writes = λ done id m. false

abbrev order : Order
order = λ done names. names

abbrev note : Message
note = record {
  prefix = b'n' ∷ [];
  command = bytes "PRIVMSG";
  params = (b'#' ∷ b'c' ∷ []) ∷ (b'h' ∷ []) ∷ [];
}

-- A message that cannot be given to the client is logged.
abbrev evening : List Event
evening = client_conn 1 0 (some 2) 1 ∷ from_server (some note) 2 ∷ stop ∷ []

note-IsCarried : IsCarried note
unfolding bytes param_chunks prefix_chunks
note-IsCarried = record {
  printable = record {
    prefix_word = omega arith;
    command_word = omega arith;
    has_command = ground arith;
    middle_words = omega arith;
  };
  keeps_last = (ground arith, inr (ground arith));
  one_line = omega arith;
  fits = unfold len in omega arith;
}

evening-CanServe : CanServe mem_db mem_db_laws writes order evening
evening-CanServe = (
  accepts 1 0 (some 2) 1,
  (
    of_server note 2 (λ e. omega arith) (stores_carried mem_db mem_db_laws note-IsCarried),
    (stops, tt),
  ),
)

-- The first daemon, on an empty table.
evening_run :
    ((k : Bytes)
      → (sql_laws mem_db mem_db_laws).contents started.proxy.logs k ≡ readable (texts k []))
    × ((w : World (SqlStore mem_db)) × (serve mem_db mem_db_laws writes order evening started
          ≡ some (tt, w))
        × IsUsed mem_db mem_db_laws w.logs.db)
unfolding mem_db_laws
evening_run =
    daemon_restarts mem_db mem_db_laws host flags writes order evening [] (unused [] refl) refl
      main_runs evening-CanServe

abbrev left : World (SqlStore mem_db)
left = evening_run.1.0

-- The second one, on what the first has left.
abbrev again : Services mem_db
again = record host { open_db = λ path. some left.logs.db }

again_runs : main mem_db again flags ≡ runs (daemon_on mem_db again flags 4 left.logs.db 3)
unfolding main with_level with_database with_listener
again_runs = refl

daemon_restarts_example :
    ((k : Bytes)
      → (sql_laws mem_db mem_db_laws).contents
          (daemon_on mem_db again flags 4 left.logs.db 3).proxy.logs
          k
        ≡ readable (texts k (mem_db_laws.table left.logs.db)))
    × ((w : World (SqlStore mem_db)) × (serve mem_db mem_db_laws writes order evening
            (daemon_on mem_db again flags 4 left.logs.db 3)
          ≡ some (tt, w))
        × IsUsed mem_db mem_db_laws w.logs.db)
daemon_restarts_example =
    daemon_restarts mem_db mem_db_laws again flags writes order evening left.logs.db evening_run.1.2
      refl again_runs evening-CanServe
