-- ===== src/Proxy/Held/Events.antt =====
-- What the events do to a connection that the daemon has, by Held.
use mathlib.Core.Path.{subst}
use irc_idler.Prelude.{ℕ, true, Option, some, ◌≡◌, arith}
use irc_idler.Irc.Message.{Message}
use irc_idler.State.Session.{Session, update_from_client}
use irc_idler.Proxy.World.{Env, World}
use irc_idler.Proxy.World.Keeps.{After, Keeps, Keeps-modify}
use irc_idler.Proxy.Link.{update_deadlines, send_client, send_server, drop_client, reset}
use irc_idler.Proxy.Client.{set_client_session, touch_pre_log}
use irc_idler.Proxy.Server.{set_server_session}
use irc_idler.Proxy.Run.{mark_pinged, set_client, set_server, Event, client_conn, handle_event}
use irc_idler.Proxy.Stable.{any_talk, IsStable}
use irc_idler.Proxy.Handlers.{handle_event-Keeps, any_event}
use irc_idler.Proxy.Handlers.Logs.{replay_log-Keeps, log_msg-Keeps}
use irc_idler.Proxy.Held.{held, IsHeld, IsPaired}
use irc_idler.Proxy.Held.Steps.{
  drop_client_world-IsHeld, reset_world-IsHeld, client_write-IsHeld, server_write-IsHeld,
  track_server-IsHeld, accept_client-IsHeld, accepted-IsHeld,
}

module _ (env : Env) (i : ℕ) where
  open env.store use {State}

  abbrev Here : World State → Type 0
  Here = IsHeld i

  client_sends : (m : Message) → Keeps Here (send_client env m)
  unfolding send_client
  client_sends m = record { at = λ w h. client_write-IsHeld env i m w.client.rwc w h }

  stores : (s : State) (w : World State) → Here w → Here (record w { logs = s })
  stores s w h = ground arith

  client_session :
      (f : Session → Session) (w : World State) → Here w → Here (set_client_session f w)
  unfolding set_client_session
  client_session f w h = ground arith

  pub IsHeld-IsStable : IsStable env any_talk Here
  unfolding send_server drop_client reset any_talk
  IsHeld-IsStable = record {
    sends_client = λ m told. client_sends m;
    sends_server = λ m asked. record { at = λ w h. server_write-IsHeld env i m w.server.rwc w h };
    drops_client = record { at = drop_client_world-IsHeld i };
    resets = record { at = reset_world-IsHeld i };
    tracks = λ m told. record { at = track_server-IsHeld env i m };
    replays = replay_log-Keeps env client_sends stores;
    logs = λ m kept. log_msg-Keeps env client_sends stores m;
    client_speaks = λ m asked. Keeps-modify _ (client_session (update_from_client m));
    client_session = λ f keeps. client_session f;
    server_id = λ id w h. unfold set_server_session in ground arith;
    touches = λ name w h. unfold touch_pre_log in ground arith;
    prefix = λ p w h. ground arith;
    yourhost = λ t w h. ground arith;
    created = λ t w h. ground arith;
    myinfo = λ ps w h. ground arith;
    cached = λ w h. ground arith;
    client_timer = λ now w h. unfold set_client update_deadlines in ground arith;
    server_timer = λ now w h. unfold set_server update_deadlines in ground arith;
    client_pinged = λ now w h. unfold set_client mark_pinged in ground arith;
    server_pinged = λ now w h. unfold set_server mark_pinged in ground arith;
    accepts = λ id now dialled later new others. record {
      at = accept_client-IsHeld env i id now dialled later;
    };
  }

module _ (env : Env) where
  open env.store use {State}

  -- No event lets go of a connection that it does not close.
  pub event_held :
      (i : ℕ) (e : Event) (w : World State) {w' : World State}
      → IsPaired w
      → handle_event env e w ≡ some (tt, w')
      → held i w ≡ true
      → held i w' ≡ true
  event_held i e w (c, s) runs h =
      let before : IsHeld i w = record { client_paired = c; server_paired = s; still = h } in
      let behind =
        (handle_event-Keeps env any_talk (IsHeld-IsStable env i) e (any_event e)).at w before in
      (subst (After (IsHeld i)) runs behind).still

  -- A new client is held.
  pub accepted_held :
      (i now : ℕ) (dialled : Option ℕ) (later : ℕ) (w : World State) {w' : World State}
      → IsPaired w
      → handle_event env (client_conn i now dialled later) w ≡ some (tt, w')
      → held i w' ≡ true
  unfolding handle_event
  accepted_held i now dialled later w p runs =
      (subst (After (IsHeld i)) runs (accepted-IsHeld env i now dialled later w p)).still
