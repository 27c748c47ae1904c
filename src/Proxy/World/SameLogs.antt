-- ===== src/Proxy/World/SameLogs.antt =====
-- The steps of the handlers that leave the logs alone, and so keep what holds of them.
use mathlib.Core.Path.{subst}
use irc_idler.Prelude.{ℕ, Option, none, some, ◌≡◌, sym, arith}
use irc_idler.Irc.Message.{Message}
use irc_idler.Proxy.World.{Env, World, ◌>>=◌, modify, gets, pure}
use irc_idler.Proxy.World.Keeps.{After, Keeps}
use irc_idler.Proxy.Link.{send_client, send_server, drop_client, reset}
use irc_idler.Proxy.Server.{track_server}
use irc_idler.Proxy.Run.{set_client, set_server, accept_client}

module _ (env : Env) where
  open env.store use {State}

  abbrev SameLogs : State → World State → Type 0
  SameLogs s w = w.logs ≡ s

  SameLogs-After :
      {A : Type 0} (Q : State → Type 0) (s : State) (r : Option (A × World State))
      → Q s
      → After (SameLogs s) r
      → After (λ (w : World State). Q w.logs) r
  SameLogs-After Q s none q h = tt
  SameLogs-After Q s (some (a, w)) q h = subst Q (sym h) q

  send_client-logs : (m : Message) (w : World State) → After (SameLogs w.logs) (send_client env m w)
  unfolding send_client
  send_client-logs m w = ground arith

  send_server-logs : (m : Message) (w : World State) → After (SameLogs w.logs) (send_server env m w)
  unfolding send_server
  send_server-logs m w = ground arith

  drop_client-logs : (w : World State) → After (SameLogs w.logs) (drop_client w)
  unfolding drop_client
  drop_client-logs w = ground arith

  track_server-logs : (m : Message) (w : World State) → After (SameLogs w.logs) (track_server m w)
  unfolding track_server
  track_server-logs m w = ground arith

  accept_client-logs :
      (id now : ℕ) (dialled : Option ℕ) (later : ℕ) (w : World State)
      → After (SameLogs w.logs) (accept_client env id now dialled later w)
  unfolding accept_client ◌>>=◌ modify gets pure drop_client set_client set_server
  accept_client-logs id now none later w = ground arith
  accept_client-logs id now (some k) later w = ground arith

  module _ (Q : State → Type 0) where
    abbrev OfLogs : World State → Type 0
    OfLogs w = Q w.logs

    pub send_client-OfLogs : (m : Message) → Keeps OfLogs (send_client env m)
    send_client-OfLogs m = record { at = λ w q. SameLogs-After Q w.logs _ q (send_client-logs m w) }

    pub send_server-OfLogs : (m : Message) → Keeps OfLogs (send_server env m)
    send_server-OfLogs m = record { at = λ w q. SameLogs-After Q w.logs _ q (send_server-logs m w) }

    pub drop_client-OfLogs : Keeps OfLogs (drop_client {L = State})
    drop_client-OfLogs = record { at = λ w q. SameLogs-After Q w.logs _ q (drop_client-logs w) }

    pub reset-OfLogs : Keeps OfLogs (reset {L = State})
    unfolding reset
    reset-OfLogs = record { at = λ w q. q }

    pub track_server-OfLogs : (m : Message) → Keeps OfLogs (track_server {L = State} m)
    track_server-OfLogs m = record {
      at = λ w q. SameLogs-After Q w.logs _ q (track_server-logs m w);
    }

    pub accept_client-OfLogs :
        (id now : ℕ) (dialled : Option ℕ) (later : ℕ)
        → Keeps OfLogs (accept_client env id now dialled later)
    accept_client-OfLogs id now dialled later = record {
      at = λ w q. SameLogs-After Q w.logs _ q (accept_client-logs id now dialled later w);
    }
