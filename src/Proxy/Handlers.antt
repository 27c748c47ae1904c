-- ===== src/Proxy/Handlers.antt =====
-- Each event keeps what the steps of its handlers keep.
pub mod Logs
pub mod Kinds
pub mod ClientSide
pub mod ServerSide
use mathlib.Core.Path.{subst}
use irc_idler.Prelude.{ℕ, Option, none, some}
use irc_idler.Irc.Message.{Message}
use irc_idler.Proxy.World.{Env, World}
use irc_idler.Proxy.World.Keeps.{After, Keeps, Keeps-bind, Keeps-pure, Keeps-modify, keeps_rules}
use irc_idler.Proxy.Run
use irc_idler.Proxy.Run.{
  Event, stop, from_client, from_server, tick, client_conn, Reachable, start, step, new_proxy,
}
use irc_idler.Proxy.Stable.{IfSome, Talk, any_talk, IsStable}
use irc_idler.Proxy.Handlers.ClientSide.{handle_client_event-Keeps, client_end-Keeps}
use irc_idler.Proxy.Handlers.ServerSide.{handle_server_event-Keeps, server_end-Keeps}

-- The messages that come with an event are of the talk.
abbrev pub IsIn : Talk → Event → Type 0
IsIn talk (from_client (some m) now) = talk.Asked m
IsIn talk (from_server (some m) now) = talk.Told m × talk.Kept m
IsIn talk (client_conn id now dialled later) = talk.Fresh id × IfSome talk.Fresh dialled
IsIn talk e = Unit

module _ {ℓ} (env : Env) (talk : Talk) {P : World env.store.State → Type ℓ}
    (h : IsStable env talk P) where
  check_client-Keeps : (now : ℕ) (v : Run.Verdict) → Keeps P (Run.check_client env now v)
  unfolding Run.check_client
  check_client-Keeps now Run.nothing = Keeps-pure tt
  check_client-Keeps now Run.drop_it = h.drops_client
  check_client-Keeps now Run.ping_it =
      Keeps-bind _ _ (h.sends_client _ (talk.ping _)) (λ _. Keeps-modify _ (h.client_pinged now))

  check_server-Keeps : (now : ℕ) (v : Run.Verdict) → Keeps P (Run.check_server env now v)
  unfolding Run.check_server
  check_server-Keeps now Run.nothing = Keeps-pure tt
  check_server-Keeps now Run.drop_it = h.resets
  check_server-Keeps now Run.ping_it =
      Keeps-bind _ _ (h.sends_server _ (talk.ask_ping _))
        (λ _. Keeps-modify _ (h.server_pinged now))

  client_timeout-Keeps : (now : ℕ) → Keeps P (Run.client_timeout env now)
  unfolding Run.client_timeout
  client_timeout-Keeps now = search (keeps_rules, check_client-Keeps)

  server_timeout-Keeps : (now : ℕ) → Keeps P (Run.server_timeout env now)
  unfolding Run.server_timeout
  server_timeout-Keeps now = search (keeps_rules, check_server-Keeps)

  -- Whatever event of the talk the loop takes, the property holds behind it.
  pub handle_event-Keeps : (e : Event) → IsIn talk e → Keeps P (Run.handle_event env e)
  unfolding Run.handle_event
  handle_event-Keeps stop ok = h.resets
  handle_event-Keeps (from_client none now) ok =
      Keeps-bind _ _ (Keeps-modify _ (h.client_timer now)) (λ _. client_end-Keeps env talk h)
  handle_event-Keeps (from_client (some m) now) ok =
      Keeps-bind _ _ (Keeps-modify _ (h.client_timer now))
        (λ _. handle_client_event-Keeps env talk h m ok)
  handle_event-Keeps (from_server none now) ok =
      Keeps-bind _ _ (Keeps-modify _ (h.server_timer now)) (λ _. server_end-Keeps env talk h)
  handle_event-Keeps (from_server (some m) now) (told, kept) =
      Keeps-bind _ _ (Keeps-modify _ (h.server_timer now))
        (λ _. handle_server_event-Keeps env talk h m told kept)
  handle_event-Keeps (tick now later) ok =
      Keeps-bind _ _ (client_timeout-Keeps now) (λ _. server_timeout-Keeps later)
  handle_event-Keeps (client_conn id now dialled later) (new, others) =
      h.accepts id now dialled later new others

pub any_event : (e : Event) → IsIn any_talk e
unfolding any_talk
any_event stop = tt
any_event (from_client none now) = tt
any_event (from_client (some m) now) = tt
any_event (from_server none now) = tt
any_event (from_server (some m) now) = (tt, tt)
any_event (tick now later) = tt
any_event (client_conn id now none later) = (tt, tt)
any_event (client_conn id now (some k) later) = (tt, tt)

-- What stands any talk holds in every state that the daemon reaches.
pub Reachable-induction {ℓ} :
    (env : Env) {P : World env.store.State → Type ℓ}
    → IsStable env any_talk P
    → {logs : env.store.State} {w : World env.store.State} → P (new_proxy logs)
    → Reachable env logs w
    → P w
Reachable-induction env h base start = base
Reachable-induction env {P} h base (step {w = v} e r ready runs) =
    subst (After P) runs
      ((handle_event-Keeps env any_talk h e (any_event e)).at v (Reachable-induction env h base r))
