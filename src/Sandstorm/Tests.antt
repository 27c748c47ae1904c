-- ===== src/Sandstorm/Tests.antt =====
-- A platform on which everything works, and the theorems on it.
use irc_idler.Prelude.{
  ℕ, ◌+◌, [], ◌∷◌, Bytes, bytes, bytes_eq, Bool, true, false, Option, none, some, ◌==◌, ◌≡◌, refl,
  arith,
}
use irc_idler.Net.Dial.{NetConn, shook, dialled, History, Dialer, connect}
use irc_idler.Net.Dial.Clean.{IsClean, IsCleanResult, open_conns, tls_dial-IsClean}
use irc_idler.Net.Dial.{tls_dial}
use irc_idler.Sandstorm.Webui.{
  ServerConfig, to_string, SettingsForm, Tokens, validate, form, post_settings, set_server_config,
}
use irc_idler.Sandstorm.Control.{
  Daemon, Control, Platform, connector_for, initial, start, handle_event, load_server_config,
  save_ip_network,
}
use irc_idler.Net.HostPort.{split_host_port, join_host_port, sprint}
use irc_idler.Sandstorm.Control.Current.{grants, IsCurrent, running}
use irc_idler.Sandstorm.Control.Reached.{Reachable, started_up, after, Reachable-IsCurrent}
use irc_idler.Sandstorm.Control.Served.{settings_applied}
use irc_idler.Sandstorm.Control.Dials.{connect-connector_for}

abbrev flag_byte : Bool → ℕ
flag_byte true = 1
flag_byte false = 0

abbrev read_config : Bytes → Option ServerConfig
read_config [] = none
read_config (f ∷ []) = none
read_config (f ∷ n ∷ s) = some (record { host = s; port = n; tls = f == 1 })

abbrev count : History → ℕ
count [] = 0
count (a ∷ done) = count done + 1

-- A dialer whose connections are numbered by the actions before them.
abbrev counting : Dialer
counting network addr done =
    (some (record { id = count done; verified = [] }), dialled (count done) ∷ done)

abbrev platform : Platform
platform = record {
  marshal = λ c. some (flag_byte c.tls ∷ c.port ∷ c.host);
  unmarshal = read_config;
  write_fails = λ out buf. none;
  save_cap = λ out n. some (n ∷ []);
  restore_cap = λ s. none;
  ip_dialer = λ n. counting;
  handshake = λ done n host. true;
}

-- Every token is taken.
abbrev open_tokens : Tokens
open_tokens = record { generate = λ k u a. []; valid = λ t k u a. true }

abbrev freenode : ServerConfig
freenode = record { host = bytes "irc.example"; port = 6697; tls = true }

abbrev filled : SettingsForm
filled = record { config = freenode; xsrf_token = [] }

abbrev before : Control
before = initial platform none none

abbrev with_network : Control
with_network = record before { ip_network = some 7; cap_file = some (7 ∷ []) }

with_network-Reachable : Reachable platform open_tokens [] with_network
unfolding start handle_event load_server_config save_ip_network
with_network-Reachable = after (started_up none none refl) (grants 7) refl

filled_valid : validate open_tokens [] filled ≡ none
unfolding validate
filled_valid = refl

Reachable-IsCurrent_example : IsCurrent platform with_network
Reachable-IsCurrent_example = Reachable-IsCurrent platform open_tokens [] with_network-Reachable

settings_applied_example :
    ((post_settings open_tokens [] (form filled)).1 ≡ set_server_config freenode ∷ [])
    × ((s' : Control) × (d : Daemon) × (again : Control) × (handle_event platform
            (set_server_config freenode)
            with_network
          ≡ some s')
        × (s'.config ≡ freenode)
        × (s'.daemon ≡ some d)
        × (d.connector ≡ connector_for platform freenode 7)
        × (running s'.out ≡ d.id ∷ [])
        × (start platform s'.config_file none ≡ some again)
        × (again.config ≡ freenode))
settings_applied_example =
    settings_applied platform open_tokens [] with_network filled 7 none with_network-Reachable
      filled_valid refl refl refl refl

abbrev secure : NetConn
secure = record { id = 0; verified = bytes "irc.example" ∷ [] }

secure_run :
    connect (connector_for platform freenode 7) []
    ≡ (some secure, shook 0 (bytes "irc.example") ∷ dialled 0 ∷ [])
unfolding connect connector_for bytes tls_dial split_host_port to_string join_host_port sprint
    bytes_eq
secure_run = refl

connect-connector_for_example :
    (inner : NetConn) × (done1 : History) × (platform.ip_dialer 7
        (bytes "tcp")
        (to_string freenode)
        []
      ≡ (some inner, done1))
    × (platform.handshake done1 inner.id (bytes "irc.example") ≡ true)
    × (secure ≡ record inner { verified = bytes "irc.example" ∷ inner.verified })
    × (shook 0 (bytes "irc.example") ∷ dialled 0 ∷ []
        ≡ shook inner.id (bytes "irc.example") ∷ done1)
unfolding bytes
connect-connector_for_example =
    connect-connector_for platform freenode 7 [] refl (omega arith) (omega arith) (omega arith)
      secure_run

counting-IsClean : IsClean counting
unfolding IsClean IsCleanResult open_conns
counting-IsClean network addr done = refl

tls_dial-IsClean_example : IsClean (tls_dial (λ done n host. false) counting)
tls_dial-IsClean_example = tls_dial-IsClean (λ done n host. false) counting counting-IsClean
