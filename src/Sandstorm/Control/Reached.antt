-- ===== src/Sandstorm/Control/Reached.antt =====
-- The states that `main` reaches.
use mathlib.Core.Path.{subst}
use irc_idler.Prelude.{
  ℕ, Bytes, true, false, Option, none, some, is_some, ◌==◌, ◌≡◌, refl, Option-cases, inl, inr,
  Bool-cases,
}
use irc_idler.Prelude.Maybe.{◌>>=◌}
use irc_idler.Sandstorm.Webui.{ServerConfig, Tokens, Event, set_server_config}
use irc_idler.Sandstorm.Control.{
  Daemon, Control, Platform, save_server_config, connector_for, new_daemon, start, initial,
  stop_daemon, start_daemon, handle_event, load_server_config,
}
use irc_idler.Sandstorm.Control.Current.{running, Sent, wanted, IsCurrent, handle_event-IsCurrent}

-- From the files that it finds, by the events that the web interface sends.
pub data Reachable (p : Platform) (tokens : Tokens) (key : Bytes) : Control → Type 0 where
  started_up :
      (config_file cap_file : Option Bytes) {s : Control}
      → start p config_file cap_file ≡ some s
      → Reachable p tokens key s
  after :
      {s s' : Control} {e : Event}
      → Reachable p tokens key s
      → Sent tokens key e
      → handle_event p e s ≡ some s'
      → Reachable p tokens key s'

module _ (p : Platform) where
  initial-IsCurrent :
      (config_file cap_file : Option Bytes) → IsCurrent p (initial p config_file cap_file)
  unfolding initial running wanted
  initial-IsCurrent config_file cap_file = record { connected = refl; reachable = tt; alone = refl }

  pub start-initial :
      (config_file cap_file : Option Bytes)
      → start p config_file cap_file ≡ some (initial p config_file cap_file)
  unfolding start
  start-initial config_file cap_file =
      elim (Bool-cases ((load_server_config p config_file).port == 0)) [
        | inl off ↦ rw off refl
        | inr on ↦ rw on refl
      ]

  -- A new daemon changes neither the configuration, nor the network, nor the file.
  new_daemon_keeps :
      (s : Control) {s' : Control}
      → new_daemon p s ≡ some s'
      → (s'.config ≡ s.config) × (s'.ip_network ≡ s.ip_network) × (s'.config_file ≡ s.config_file)
  unfolding new_daemon
  new_daemon_keeps s {s'} e = kept s.daemon s.ip_network e
    where
      kept :
          (d : Option Daemon) (n : Option ℕ)
          → (n >>= λ network.
              some (start_daemon (connector_for p s.config network) (stop_daemon d s)))
            ≡ some s'
          → (s'.config ≡ s.config)
            × (s'.ip_network ≡ s.ip_network)
            × (s'.config_file ≡ s.config_file)
      kept none none e = cc e
      kept (some d) none e = cc e
      kept none (some n) e = unfold stop_daemon start_daemon in (cc e, cc e, cc e)
      kept (some d) (some n) e = unfold stop_daemon start_daemon in (cc e, cc e, cc e)

  -- The file behind the save of a configuration.
  abbrev pub saved : Control → ServerConfig → Option Bytes
  saved s c = (save_server_config p (record s { config = c })).config_file

  pub set_server_config_lem :
      (c : ServerConfig) (s : Control) {s' : Control}
      → handle_event p (set_server_config c) s ≡ some s'
      → (s'.config ≡ c) × (s'.ip_network ≡ s.ip_network) × (s'.config_file ≡ saved s c)
  unfolding handle_event save_server_config
  set_server_config_lem c s {s'} e =
      let t = save_server_config p (record s { config = c }) in
      elim (Option-cases s.ip_network) [
        | inl off ↦
            let absent : is_some s.ip_network ≡ false = rw off refl in
            let e' : ◌≡◌ {A = Option Control} (some t) (some s') = rw absent at e in
            (cc e', cc e', cc e')
        | inr (net, on) ↦
            let present : is_some s.ip_network ≡ true = rw on refl in
            new_daemon_keeps t (rw present at e)
      ]

module _ (p : Platform) (tokens : Tokens) (key : Bytes) where
  -- Whatever the web interface sends to the loop of main, in every state that it reaches: a proxy
  -- runs exactly if there is a network capability and a port, its connector is that of the
  -- present configuration and network, the clients' channel is its own, and it is the only one
  -- that was launched and not stopped.
  pub Reachable-IsCurrent : {s : Control} → Reachable p tokens key s → IsCurrent p s
  Reachable-IsCurrent (started_up config_file cap_file e) =
      subst (IsCurrent p) (cc (start-initial p config_file cap_file, e))
        (initial-IsCurrent p config_file cap_file)
  Reachable-IsCurrent {s = t} (after {s} r sent step) =
      let (s', step', ok) = handle_event-IsCurrent p tokens key s (Reachable-IsCurrent r) sent in
      let same : s' ≡ t = cc (step, step') in subst (IsCurrent p) same ok
