-- ===== src/Cli/Started.antt =====
-- What is known of the start of the daemon where it runs.
use mathlib.Core.Path.{subst}
use irc_idler.Prelude.{ℕ, Option, none, some, ◌≡◌, refl, ap, Bool-cases, inl, inr}
use irc_idler.Storage.Sql.{Database}
use irc_idler.Cli.{
  Flags, Services, Running, runs, daemon_on, with_listener, with_database, with_level, main,
}

module _ (D : Database) (p : Services D) (flags : Flags) where
  -- The parts of a daemon that runs.
  abbrev IsStarted : Running D → Type 0
  IsStarted r =
      (level : ℕ) × (db : D.State) × (l : ℕ) × (p.open_db flags.dbpath ≡ some db)
      × (r ≡ daemon_on D p flags level db l)

  with_listener-IsStarted :
      (level : ℕ) (db : D.State) (l : Option ℕ) {r : Running D}
      → p.open_db flags.dbpath ≡ some db
      → with_listener D p flags level db l ≡ runs r
      → IsStarted r
  unfolding with_listener
  with_listener-IsStarted level db none found e = absurd (cc e)
  with_listener-IsStarted level db (some l) found e = (level, db, l, found, cc e)

  with_database-IsStarted :
      (level : ℕ) (o : Option D.State) {r : Running D}
      → p.open_db flags.dbpath ≡ o
      → with_database D p flags level o ≡ runs r
      → IsStarted r
  unfolding with_database
  with_database-IsStarted level none found e = absurd (cc e)
  with_database-IsStarted level (some db) found e = elim (Bool-cases (p.ping_fails db)) [
    | inl fails ↦ absurd (cc (e, fails))
    | inr answers ↦ with_listener-IsStarted level db _ found (rw answers at e)
  ]

  with_level-IsStarted :
      (level : Option ℕ) {r : Running D} → with_level D p flags level ≡ runs r → IsStarted r
  unfolding with_level
  with_level-IsStarted none e = absurd (cc e)
  with_level-IsStarted (some level) e =
      with_database-IsStarted level (p.open_db flags.dbpath) refl e

  -- A daemon that runs has the parts that the flags say, over the database that was opened.
  pub main_started :
      {r : Running D} (db : D.State)
      → p.open_db flags.dbpath ≡ some db
      → main D p flags ≡ runs r
      → (level : ℕ) × (l : ℕ) × (r ≡ daemon_on D p flags level db l)
  unfolding main
  main_started {r} db found starts =
      let (level, db', l, found', e) = with_level-IsStarted (p.parse_level flags.loglevel) starts in
      let same : db' ≡ db = cc (found, found') in
      (level, l, subst (λ x. r ≡ daemon_on D p flags level x l) same e)

  -- And dials as they say.
  pub main-connector :
      {r : Running D}
      → main D p flags ≡ runs r
      → (level : ℕ) × (db : D.State) × (l : ℕ) × (r.connector
          ≡ (daemon_on D p flags level db l).connector)
  unfolding main
  main-connector {r} starts =
      let (level, db, l, found, e) = with_level-IsStarted (p.parse_level flags.loglevel) starts in
      (level, db, l, ap (λ (x : Running D). x.connector) e)
