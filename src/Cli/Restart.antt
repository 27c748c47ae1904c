-- ===== src/Cli/Restart.antt =====
-- A daemon that is started again over the database that one before it has left.
use mathlib.Core.Path.{subst}
use irc_idler.Prelude.{ℕ, List, [], Bytes, Bool, Option, some, All, ◌≡◌, sym, ◌∙◌, ap}
use irc_idler.Irc.Message.{Message}
use irc_idler.Storage.Holds.{Holds}
use irc_idler.Storage.Sql.{Database, SqlStore, new_store}
use irc_idler.Storage.Sql.Rows.{DatabaseLaws, texts, readable}
use irc_idler.Storage.Sql.Meets.{sql_laws}
use irc_idler.Storage.Sql.Meets.Remade.{remade-Holds, empty-Holds, new_store-contents}
use irc_idler.State.Session.Total.{IsIndexable}
use irc_idler.Proxy.World.{Output, World}
use irc_idler.Proxy.Run
use irc_idler.Proxy.Run.{Event, new_proxy}
use irc_idler.Proxy.Replay.Stuck.{sql_env}
use irc_idler.Proxy.NoPanic.Events.{CanTake, run_never_panics}
use irc_idler.Cli.Started.{main_started}
use irc_idler.Cli.{Flags, Services, Running, runs, main}

-- The outcome of the writes and the order of the maps in one run.
abbrev pub Writes : Type 0
Writes = List Output → ℕ → Message → Bool

abbrev pub Order : Type 0
Order = List Output → List Bytes → List Bytes

module _ (D : Database) (laws : DatabaseLaws D) where
  open laws use {table}

  abbrev pub CanServe : Writes → Order → List Event → Type 0
  CanServe writes order = All (CanTake (sql_env D writes order) (sql_laws D laws))

  abbrev pub serve :
      Writes → Order → List Event → Running D → Option (Unit {0} × World (SqlStore D))
  serve writes order es r = Run.run (sql_env D writes order) es r.proxy

  -- A database that any number of daemons have used, one after the other, from an empty table on.
  pub data IsUsed : D.State → Type 0 where
    unused : (db : D.State) → table db ≡ [] → IsUsed db
    used :
        (p : Services D) (flags : Flags) {r : Running D} (writes : Writes) (order : Order)
        (es : List Event) (db : D.State) {w : World (SqlStore D)}
        → IsUsed db
        → p.open_db flags.dbpath ≡ some db
        → main D p flags ≡ runs r
        → CanServe writes order es
        → serve writes order es r ≡ some (tt, w)
        → IsUsed w.logs.db

  abbrev Replayable : SqlStore D → Type 0
  Replayable = Holds (sql_laws D laws) IsIndexable

  main-logs :
      (p : Services D) (flags : Flags) {r : Running D} (db : D.State)
      → p.open_db flags.dbpath ≡ some db
      → main D p flags ≡ runs r
      → r.proxy.logs ≡ new_store D db
  unfolding new_proxy
  main-logs p flags {r} db found starts =
      let (level, l, e) = main_started D p flags db found starts in
      ap (λ (r : Running D). r.proxy.logs) e

  -- One daemon that runs over a database whose logs can be replayed.
  serve-Replayable :
      (p : Services D) (flags : Flags) {r : Running D} (writes : Writes) (order : Order)
      (es : List Event) (db : D.State)
      → Replayable (new_store D db)
      → p.open_db flags.dbpath ≡ some db
      → main D p flags ≡ runs r
      → CanServe writes order es
      → (w : World (SqlStore D)) × (serve writes order es r ≡ some (tt, w)) × Replayable w.logs
  serve-Replayable p flags {r} writes order es db h found starts ok =
      run_never_panics (sql_env D writes order) (sql_laws D laws) es r.proxy ok
        (subst Replayable (sym (main-logs p flags db found starts)) h)

  IsUsed-Replayable : {db : D.State} → IsUsed db → Replayable (new_store D db)
  IsUsed-Replayable (unused db e) = empty-Holds D laws IsIndexable db e
  IsUsed-Replayable (used p flags {r} writes order es db {w} before found starts ok ran) =
      let (w', ran', h) =
        serve-Replayable p flags writes order es db (IsUsed-Replayable before) found starts ok in
      let same : w' ≡ w = cc (ran, ran') in
      remade-Holds D laws IsIndexable w.logs
        (subst (λ (x : World (SqlStore D)). Replayable x.logs) same h)

  pub daemon_restarts :
      (p : Services D) (flags : Flags) {r : Running D} (writes : Writes) (order : Order)
      (es : List Event) (db : D.State)
      → IsUsed db
      → p.open_db flags.dbpath ≡ some db
      → main D p flags ≡ runs r
      → CanServe writes order es
      → ((k : Bytes) → (sql_laws D laws).contents r.proxy.logs k ≡ readable (texts k (table db)))
        × ((w : World (SqlStore D)) × (serve writes order es r ≡ some (tt, w)) × IsUsed w.logs.db)
  daemon_restarts p flags {r} writes order es db before found starts ok =
      let (w, ran, h) =
        serve-Replayable p flags writes order es db (IsUsed-Replayable before) found starts ok in
      (
        λ k.
            ap (λ (s : SqlStore D). (sql_laws D laws).contents s k)
              (main-logs p flags db found starts)
            ∙ new_store-contents D laws db k,
        (w, ran, used p flags writes order es db before found starts ok ran),
      )
