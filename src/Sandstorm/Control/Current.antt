-- ===== src/Sandstorm/Control/Current.antt =====
-- Which daemon runs, in the states that the loop of `main` reaches.
use irc_idler.Prelude.{
  ℕ, List, [], ◌∷◌, Bytes, true, Option, none, some, is_some, ◌==◌, if◌then◌else◌, without_one, ◌≡◌,
  ◌≢◌, refl, sym, ap, ◌∙◌, arith, Option-cases, inl, inr, Bool-cases, ◌⊎◌,
}
use irc_idler.Net.Dial.{DialerConnector}
use irc_idler.Sandstorm.Webui.{
  ServerConfig, SettingsForm, Tokens, validate, Event, ip_network_cap, set_server_config,
  client_conn, get_server_config, have_network,
}
use irc_idler.Sandstorm.Control.{
  Daemon, Output, launched, stopped, handed, closed, told_config, told_network, Control, Platform,
  save_server_config, save_ip_network, connector_for, stop_daemon, start_daemon, output,
  give_client, new_daemon, handle_event,
}

-- The daemons that were launched and not stopped.
unfoldable pub running : List Output → List ℕ
running [] = []
running (launched n ∷ out) = n ∷ running out
running (stopped n ∷ out) = without_one n (running out)
running (handed chan conn ∷ out) = running out
running (closed conn ∷ out) = running out
running (told_config c ∷ out) = running out
running (told_network b ∷ out) = running out

abbrev pub ids : Option Daemon → List ℕ
ids none = []
ids (some d) = d.id ∷ []

abbrev pub connector_of : Option Daemon → Option DialerConnector
connector_of none = none
connector_of (some d) = some d.connector

abbrev pub HasChannel : Option Daemon → Option ℕ → Type 0
HasChannel none conns = Unit
HasChannel (some d) conns = conns ≡ some d.client_conns

-- What the web interface sends: a server's configuration only from a form that was validated.
pub data Sent (tokens : Tokens) (key : Bytes) : Event → Type 0 where
  grants : (cap : ℕ) → Sent tokens key (ip_network_cap cap)
  settings :
      (f : SettingsForm)
      → validate tokens key f ≡ none
      → Sent tokens key (set_server_config f.config)
  connects : (conn : ℕ) → Sent tokens key (client_conn conn)
  asks_config : Sent tokens key get_server_config
  asks_network : Sent tokens key have_network

pub validate_port :
    (tokens : Tokens) (key : Bytes) (f : SettingsForm)
    → validate tokens key f ≡ none
    → f.config.port ≢ 0
unfolding validate
validate_port tokens key f e = ground arith

-- Behind a stop no daemon runs, and nothing else has changed.
stop_daemon_lem :
    (d : Option Daemon) (s : Control)
    → running s.out ≡ ids d
    → (running (stop_daemon d s).out ≡ [])
      × ((stop_daemon d s).config ≡ s.config)
      × ((stop_daemon d s).ip_network ≡ s.ip_network)
unfolding stop_daemon running
stop_daemon_lem none s h = (h, refl, refl)
stop_daemon_lem (some d) s h = (ground (arith, h), refl, refl)

module _ (p : Platform) where
  -- The connector that a daemon should have: there is one for a network and a port.
  unfoldable pub wanted : ServerConfig → Option ℕ → Option DialerConnector
  wanted c none = none
  wanted c (some net) = if c.port == 0 then none else some (connector_for p c net)

  pub record IsCurrent (s : Control) : Type 0 where
    pub connected : connector_of s.daemon ≡ wanted s.config s.ip_network
    pub reachable : HasChannel s.daemon s.daemon_conns
    pub alone : running s.out ≡ ids s.daemon

  new_daemon-IsCurrent :
      (s : Control) (net : ℕ)
      → s.ip_network ≡ some net
      → s.config.port ≢ 0
      → running s.out ≡ ids s.daemon
      → (s' : Control) × (new_daemon p s ≡ some s') × IsCurrent s'
  new_daemon-IsCurrent s net has port alone =
      let t = stop_daemon s.daemon s in
      let c = connector_for p s.config net in
      let (none_runs, same_config, same_network) = stop_daemon_lem s.daemon s alone in
      (
        start_daemon c t,
        unfold new_daemon in rw has refl,
        record {
          connected =
              unfold start_daemon in
              rw (same_config, same_network, has) (unfold wanted in ground (arith, port));
          reachable = unfold start_daemon in refl;
          alone = unfold start_daemon running in ap (λ (l : List ℕ). t.made ∷ l) none_runs;
        },
      )

  wanted_off : (c : ServerConfig) (n : Option ℕ) → (n ≡ none) ⊎ (c.port ≡ 0) → wanted c n ≡ none
  unfolding wanted
  wanted_off c none off = refl
  wanted_off c (some net) off = ground (arith, off)

  idle : (s : Control) → IsCurrent s → (s.ip_network ≡ none) ⊎ (s.config.port ≡ 0) → s.daemon ≡ none
  idle s ok off = no_connector s.daemon (ok.connected ∙ wanted_off s.config s.ip_network off)
    where
      no_connector : (d : Option Daemon) → connector_of d ≡ none → d ≡ none
      no_connector none e = refl
      no_connector (some d) e = cc e

  -- Where neither is a daemon wanted nor does one run.
  idle-IsCurrent :
      (s : Control)
      → (s.ip_network ≡ none) ⊎ (s.config.port ≡ 0)
      → s.daemon ≡ none
      → running s.out ≡ ids s.daemon
      → IsCurrent s
  idle-IsCurrent s off none_runs alone = record {
    connected = rw none_runs (sym (wanted_off s.config s.ip_network off));
    reachable = rw none_runs tt;
    alone = alone;
  }

  told :
      (s : Control) (o : Output)
      → running (o ∷ s.out) ≡ running s.out
      → IsCurrent s
      → IsCurrent (output o s)
  unfolding output
  told s o same ok = record {
    connected = ok.connected;
    reachable = ok.reachable;
    alone = same ∙ ok.alone;
  }

  given :
      (conn : ℕ) (s : Control)
      → IsCurrent s
      → (d : Option Daemon) (conns : Option ℕ) → HasChannel d conns
      → (s' : Control) × (give_client conn d conns s ≡ some s') × IsCurrent s'
  unfolding give_client running
  given conn s ok none conns h = (output (closed conn) s, refl, told s (closed conn) refl ok)
  given conn s ok (some d) none h = cc h
  given conn s ok (some d) (some chan) h =
      (output (handed chan conn) s, refl, told s (handed chan conn) refl ok)

  -- Every event that the web interface sends is taken in, and leaves such a state again.
  pub handle_event-IsCurrent :
      (tokens : Tokens) (key : Bytes) {e : Event} (s : Control)
      → IsCurrent s
      → Sent tokens key e
      → (s' : Control) × (handle_event p e s ≡ some s') × IsCurrent s'
  unfolding handle_event save_ip_network save_server_config running
  handle_event-IsCurrent tokens key s ok (grants n) = elim (Bool-cases (s.config.port == 0)) [
    | inl off ↦
        let t = record (save_ip_network p n s) { ip_network = some n } in
        (
          t,
          rw off refl,
          idle-IsCurrent t (inr (ground (arith, off))) (idle s ok (inr (ground (arith, off))))
              ok.alone,
        )
    | inr on ↦
        let t = record (save_ip_network p n s) { ip_network = some n } in
        let (s', e, ok') = new_daemon-IsCurrent t n refl (ground (arith, on)) ok.alone in
        (s', rw on e, ok')
  ]
  handle_event-IsCurrent tokens key s ok (settings f valid) =
      let t = save_server_config p (record s { config = f.config }) in
      elim (Option-cases s.ip_network) [
        | inl off ↦ (t, rw off refl, idle-IsCurrent t (inl off) (idle s ok (inl off)) ok.alone)
        | inr (net, on) ↦
            let (s', e, ok') =
              new_daemon-IsCurrent t net on (validate_port tokens key f valid) ok.alone in
            let present : is_some s.ip_network ≡ true = rw on refl in (s', rw present e, ok')
      ]
  handle_event-IsCurrent tokens key s ok (connects conn) =
      given conn s ok s.daemon s.daemon_conns ok.reachable
  handle_event-IsCurrent tokens key s ok asks_config =
      (output (told_config s.config) s, refl, told s (told_config s.config) refl ok)
  handle_event-IsCurrent tokens key s ok asks_network = (
    output (told_network (is_some s.ip_network)) s,
    refl,
    told s (told_network (is_some s.ip_network)) refl ok,
  )
