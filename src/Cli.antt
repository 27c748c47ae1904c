-- ===== src/Cli.antt =====
-- cmd/irc-idler/main.go: the flags, and the start of the daemon outside Sandstorm. The calls of the
-- packages logrus, sql, net and tls are a parameter.
pub mod Started
pub mod Restart
pub mod Dials
mod Tests
use irc_idler.Prelude.{ℕ, [], Bytes, bytes, Bool, true, false, Option, none, some, if◌then◌else◌}
use irc_idler.Net.Dial.{Dialer, DialerConnector, History, tls_dial}
use irc_idler.Storage.Sql.{Database, SqlStore, new_store}
use irc_idler.Proxy.World.{World}
use irc_idler.Proxy.Run.{new_proxy}

-- The values of the flags.
pub record Flags : Type 0 where
  pub laddr : Bytes
  pub raddr : Bytes
  pub dbpath : Bytes
  pub loglevel : Bytes
  pub use_tls : Bool

-- The flags where the command line sets none.
abbrev pub default_flags : Flags
default_flags = record {
  laddr = bytes ":6667";
  raddr = [];
  dbpath = bytes ":memory:";
  loglevel = bytes "info";
  use_tls = false;
}

-- What `main` exits for: the log level, `sql.Open`, `Ping` and `Listen`.
pub data Trouble : Type 0 where
  bad_level : Bytes → Trouble
  no_database no_answer no_listener : Trouble

module _ (D : Database) where
  -- `log.ParseLevel`, `sql.Open`, `Ping`, `net.Listen`, the direct dialer, and the handshakes.
  pub record Services : Type 0 where
    pub parse_level : Bytes → Option ℕ
    pub open_db : Bytes → Option D.State
    pub ping_fails : D.State → Bool
    pub listen : Bytes → Bytes → Option ℕ
    pub direct : Dialer
    pub handshake : History → ℕ → Bytes → Bool

  -- The listener that `AcceptLoop` takes clients from, and the proxy before its first event.
  pub record Running : Type 0 where
    pub level : ℕ
    pub listener : ℕ
    pub connector : DialerConnector
    pub proxy : World (SqlStore D)

  pub data Startup : Type 0 where
    exits : Trouble → Startup
    runs : Running → Startup

  module _ (p : Services) where
    open p use {parse_level, open_db, ping_fails, listen, direct, handshake}

    unfoldable pub dialer_for : Bool → Dialer
    dialer_for use_tls = if use_tls then tls_dial handshake direct else direct

    -- The daemon's parts, over the database and with the listener.
    abbrev pub daemon_on : Flags → ℕ → D.State → ℕ → Running
    daemon_on flags level db l = record {
      level = level;
      listener = l;
      connector = record {
        dialer = dialer_for flags.use_tls;
        network = bytes "tcp";
        addr = flags.raddr;
      };
      proxy = new_proxy (new_store D db);
    }

    -- Behind `net.Listen`.
    unfoldable pub with_listener : Flags → ℕ → D.State → Option ℕ → Startup
    with_listener flags level db none = exits no_listener
    with_listener flags level db (some l) = runs (daemon_on flags level db l)

    -- Behind `sql.Open`.
    unfoldable pub with_database : Flags → ℕ → Option D.State → Startup
    with_database flags level none = exits no_database
    with_database flags level (some db) =
        if ping_fails db
        then exits no_answer
        else with_listener flags level db (listen (bytes "tcp") flags.laddr)

    -- Behind `log.ParseLevel`.
    unfoldable pub with_level : Flags → Option ℕ → Startup
    with_level flags none = exits (bad_level flags.loglevel)
    with_level flags (some level) = with_database flags level (open_db flags.dbpath)

    unfoldable pub main : Flags → Startup
    main flags = with_level flags (parse_level flags.loglevel)
