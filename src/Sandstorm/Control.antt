-- ===== src/Sandstorm/Control.antt =====
-- cmd/sandstorm-irc-idler/main.go: the files, the proxy daemon that runs, and the loop of `main`.
pub mod Current
pub mod Reached
pub mod Served
pub mod Dials
use irc_idler.Prelude.{
  ℕ, ◌+◌, List, [], ◌∷◌, Bytes, bytes, Bool, true, false, not, ◌&&◌, Option, none, some, is_some,
  ◌==◌, if◌then◌else◌,
}
use irc_idler.Prelude.Maybe.{◌>>=◌}
use irc_idler.Net.Dial.{NetConn, History, Dialer, DialerConnector, tls_dial}
use irc_idler.Sandstorm.Webui.{
  ServerConfig, to_string, Event, ip_network_cap, set_server_config, client_conn, get_server_config,
  have_network,
}

-- A proxy with the channel that it takes clients from and its connector.
pub record Daemon : Type 0 where
  pub id : ℕ
  pub client_conns : ℕ
  pub connector : DialerConnector

pub data Output : Type 0 where
  launched : ℕ → Output
  stopped : ℕ → Output
  handed : ℕ → ℕ → Output
  closed : ℕ → Output
  told_config : ServerConfig → Output
  told_network : Bool → Output

-- The variables of `main`, the two files, the channels and daemons that were made, and the outputs,
-- the latest first.
pub record Control : Type 0 where
  pub config : ServerConfig
  pub daemon : Option Daemon
  pub daemon_conns : Option ℕ
  pub ip_network : Option ℕ
  pub config_file : Option Bytes
  pub cap_file : Option Bytes
  pub made : ℕ
  pub out : List Output

abbrev pub no_config : ServerConfig
no_config = record { host = []; port = 0; tls = false }

-- JSON; a write of a file, which may fail and leave something else (`some`); tokens for
-- capabilities; the dialer of a network capability, and the handshakes.
pub record Platform : Type 0 where
  pub marshal : ServerConfig → Option Bytes
  pub unmarshal : Bytes → Option ServerConfig
  pub write_fails : List Output → Bytes → Option (Option Bytes)
  pub save_cap : List Output → ℕ → Option Bytes
  pub restore_cap : Bytes → Option ℕ
  pub ip_dialer : ℕ → Dialer
  pub handshake : History → ℕ → Bytes → Bool

-- A file behind a write.
written : Bytes → Option (Option Bytes) → Option Bytes
written buf none = some buf
written buf (some left) = left

or_no_config : Option ServerConfig → ServerConfig
or_no_config none = no_config
or_no_config (some c) = c

stop_daemon : Option Daemon → Control → Control
stop_daemon none s = s
stop_daemon (some d) s = record s { daemon = none; out = stopped d.id ∷ s.out }

-- A new channel, and a daemon on it that runs.
start_daemon : DialerConnector → Control → Control
start_daemon c s = record s {
  daemon_conns = some s.made;
  daemon = some (record { id = s.made; client_conns = s.made; connector = c });
  made = s.made + 1;
  out = launched s.made ∷ s.out;
}

output : Output → Control → Control
output o s = record s { out = o ∷ s.out }

-- A client's connection; `none` where the send on a nil channel would wait for ever.
give_client : ℕ → Option Daemon → Option ℕ → Control → Option Control
unfolding output
give_client conn none conns s = some (output (closed conn) s)
give_client conn (some d) none s = none
give_client conn (some d) (some chan) s = some (output (handed chan conn) s)

module _ (p : Platform) where
  open p use {marshal, unmarshal, write_fails, save_cap, restore_cap, ip_dialer, handshake}

  config_written : List Output → Option Bytes → Option Bytes → Option Bytes
  unfolding written
  config_written out file none = file
  config_written out file (some buf) = written buf (write_fails out buf)

  unfoldable pub save_server_config : Control → Control
  unfolding config_written
  save_server_config s = record s {
    config_file = config_written s.out s.config_file (marshal s.config);
  }

  -- `loadServerConfig`: the zero value on each error.
  unfoldable pub load_server_config : Option Bytes → ServerConfig
  unfolding or_no_config
  load_server_config file = or_no_config (file >>= unmarshal)

  unfoldable pub save_ip_network : ℕ → Control → Control
  unfolding config_written
  save_ip_network cap s = record s {
    cap_file = config_written s.out s.cap_file (save_cap s.out cap);
  }

  unfoldable pub load_ip_network : Option Bytes → Option ℕ
  load_ip_network file = file >>= restore_cap

  unfoldable pub choose_dialer : Bool → ℕ → Dialer
  choose_dialer tls network =
      if tls then tls_dial handshake (ip_dialer network) else ip_dialer network

  unfoldable pub connector_for : ServerConfig → ℕ → DialerConnector
  unfolding choose_dialer
  connector_for c network = record {
    dialer = choose_dialer c.tls network;
    network = bytes "tcp";
    addr = to_string c;
  }

  -- `newDaemon`; `none` where it reads through the nil pointer `ipNetwork`.
  unfoldable pub new_daemon : Control → Option Control
  unfolding stop_daemon start_daemon
  new_daemon s = do
    network ← s.ip_network
    some (start_daemon (connector_for s.config network) (stop_daemon s.daemon s))

  -- The variables at the head of `main`, with the files that it finds.
  unfoldable pub initial : Option Bytes → Option Bytes → Control
  initial config_file cap_file = record {
    config = load_server_config config_file;
    daemon = none;
    daemon_conns = none;
    ip_network = none;
    config_file = config_file;
    cap_file = cap_file;
    made = 0;
    out = [];
  }

  -- What `main` does before its loop.
  unfoldable pub start : Option Bytes → Option Bytes → Option Control
  unfolding initial
  start config_file cap_file =
      let s = initial config_file cap_file in
      if not (s.config.port == 0) && is_some s.ip_network then new_daemon s else some s

  -- One round of the loop.
  unfoldable pub handle_event : Event → Control → Option Control
  unfolding give_client output
  handle_event (ip_network_cap cap) s =
      let s' = record (save_ip_network cap s) { ip_network = some cap } in
      if not (s'.config.port == 0) then new_daemon s' else some s'
  handle_event (set_server_config c) s =
      let s' = save_server_config (record s { config = c }) in
      if is_some s'.ip_network then new_daemon s' else some s'
  handle_event (client_conn conn) s = give_client conn s.daemon s.daemon_conns s
  handle_event get_server_config s = some (output (told_config s.config) s)
  handle_event have_network s = some (output (told_network (is_some s.ip_network)) s)
