-- ===== src/Proxy/Uses/Events.antt =====
-- Uses of a connection by the events, and which connections an event meets.
use mathlib.Core.Path.{subst}
use irc_idler.Prelude.{ℕ, Option, some, ◌≡◌, refl, arith}
use irc_idler.Irc.Message.{Message}
use irc_idler.State.Session.{Session, update_from_client}
use irc_idler.Proxy.World.{Env, World}
use irc_idler.Proxy.World.Keeps.{After, Keeps, Keeps-modify}
use irc_idler.Proxy.Link.{send_client, send_server, drop_client, reset, update_deadlines}
use irc_idler.Proxy.Client.{set_client_session, touch_pre_log}
use irc_idler.Proxy.Server.{set_server_session}
use irc_idler.Proxy.Run.{Event, client_conn, handle_event, mark_pinged, set_client, set_server}
use irc_idler.Proxy.Stable.{IfSome, Talk, any_talk, IsStable}
use irc_idler.Proxy.Handlers.{IsIn, handle_event-Keeps}
use irc_idler.Proxy.Handlers.Logs.{replay_log-Keeps, log_msg-Keeps}
use irc_idler.Proxy.Uses.{IsProper, IsUnknown}
use irc_idler.Proxy.Uses.Steps.{
  drop_client_world-IsProper, reset_world-IsProper, client_write-IsProper, server_write-IsProper,
  track_server-IsProper, drop_client_world-IsUnknown, reset_world-IsUnknown, client_write-IsUnknown,
  server_write-IsUnknown, track_server-IsUnknown,
}
use irc_idler.Proxy.Uses.Arrivals.{
  IsOther, accept_other-IsProper, accept_other-IsUnknown, accept_new-IsProper,
  accept_dialled-IsProper,
}

-- Any messages, and new connections with other numbers.
unfoldable pub others_talk : ℕ → Talk
unfolding any_talk
others_talk i = record (any_talk) { Fresh = IsOther i }

module _ (env : Env) (i : ℕ) where
  open env.store use {State}

  sends-IsProper : (m : Message) → Keeps (IsProper {L = State} i) (send_client env m)
  unfolding send_client
  sends-IsProper m = record { at = λ w h. client_write-IsProper env i m w.client.rwc w refl h }

  stores-IsProper :
      (s : State) (w : World State) → IsProper i w → IsProper i (record w { logs = s })
  stores-IsProper s w h = ground arith

  session-IsProper :
      (f : Session → Session) (w : World State) → IsProper i w → IsProper i (set_client_session f w)
  unfolding set_client_session
  session-IsProper f w h = ground arith

  IsProper-IsStable : IsStable env (others_talk i) (IsProper {L = State} i)
  unfolding send_server drop_client reset others_talk
  IsProper-IsStable = record {
    sends_client = λ m told. sends-IsProper m;
    sends_server =
        λ m asked. record { at = λ w h. server_write-IsProper env i m w.server.rwc w refl h };
    drops_client = record { at = drop_client_world-IsProper i };
    resets = record { at = reset_world-IsProper i };
    tracks = λ m told. record { at = track_server-IsProper env i m };
    replays = replay_log-Keeps env sends-IsProper stores-IsProper;
    logs = λ m kept. log_msg-Keeps env sends-IsProper stores-IsProper m;
    client_speaks = λ m asked. Keeps-modify _ (session-IsProper (update_from_client m));
    client_session = λ f keeps. session-IsProper f;
    server_id = λ id w h. unfold set_server_session in ground arith;
    touches = λ name w h. unfold touch_pre_log in ground arith;
    prefix = λ p w h. ground arith;
    yourhost = λ t w h. ground arith;
    created = λ t w h. ground arith;
    myinfo = λ ps w h. ground arith;
    cached = λ w h. ground arith;
    client_timer = λ now w h. unfold set_client update_deadlines in ground arith;
    server_timer = λ now w h. unfold set_server update_deadlines in ground arith;
    client_pinged = λ now w h. unfold set_client mark_pinged in ground arith;
    server_pinged = λ now w h. unfold set_server mark_pinged in ground arith;
    accepts = λ id now dialled later o os. record {
      at = λ w h. accept_other-IsProper env i id now dialled later w o os h;
    };
  }

  sends-IsUnknown : (m : Message) → Keeps (IsUnknown {L = State} i) (send_client env m)
  unfolding send_client
  sends-IsUnknown m = record { at = λ w h. client_write-IsUnknown env i m w.client.rwc w h }

  stores-IsUnknown :
      (s : State) (w : World State) → IsUnknown i w → IsUnknown i (record w { logs = s })
  stores-IsUnknown s w h = ground arith

  session-IsUnknown :
      (f : Session → Session) (w : World State)
      → IsUnknown i w
      → IsUnknown i (set_client_session f w)
  unfolding set_client_session
  session-IsUnknown f w h = ground arith

  IsUnknown-IsStable : IsStable env (others_talk i) (IsUnknown {L = State} i)
  unfolding send_server drop_client reset others_talk
  IsUnknown-IsStable = record {
    sends_client = λ m told. sends-IsUnknown m;
    sends_server =
        λ m asked. record { at = λ w h. server_write-IsUnknown env i m w.server.rwc w h };
    drops_client = record { at = drop_client_world-IsUnknown i };
    resets = record { at = reset_world-IsUnknown i };
    tracks = λ m told. record { at = track_server-IsUnknown env i m };
    replays = replay_log-Keeps env sends-IsUnknown stores-IsUnknown;
    logs = λ m kept. log_msg-Keeps env sends-IsUnknown stores-IsUnknown m;
    client_speaks = λ m asked. Keeps-modify _ (session-IsUnknown (update_from_client m));
    client_session = λ f keeps. session-IsUnknown f;
    server_id = λ id w h. unfold set_server_session in ground arith;
    touches = λ name w h. unfold touch_pre_log in ground arith;
    prefix = λ p w h. ground arith;
    yourhost = λ t w h. ground arith;
    created = λ t w h. ground arith;
    myinfo = λ ps w h. ground arith;
    cached = λ w h. ground arith;
    client_timer = λ now w h. unfold set_client update_deadlines in ground arith;
    server_timer = λ now w h. unfold set_server update_deadlines in ground arith;
    client_pinged = λ now w h. unfold set_client mark_pinged in ground arith;
    server_pinged = λ now w h. unfold set_server mark_pinged in ground arith;
    accepts = λ id now dialled later o os. record {
      at = λ w h. accept_other-IsUnknown env i id now dialled later w o os h;
    };
  }

  pub event-IsProper :
      (e : Event) (w : World State) {w' : World State}
      → IsIn (others_talk i) e
      → handle_event env e w ≡ some (tt, w')
      → IsProper i w
      → IsProper i w'
  event-IsProper e w ok runs h =
      subst (After (IsProper i)) runs
        ((handle_event-Keeps env (others_talk i) IsProper-IsStable e ok).at w h)

  pub event-IsUnknown :
      (e : Event) (w : World State) {w' : World State}
      → IsIn (others_talk i) e
      → handle_event env e w ≡ some (tt, w')
      → IsUnknown i w
      → IsUnknown i w'
  event-IsUnknown e w ok runs h =
      subst (After (IsUnknown i)) runs
        ((handle_event-Keeps env (others_talk i) IsUnknown-IsStable e ok).at w h)

  -- A new client.
  pub arrival-IsProper :
      (now : ℕ) (dialled : Option ℕ) (later : ℕ) (w : World State) {w' : World State}
      → IfSome (IsOther i) dialled
      → handle_event env (client_conn i now dialled later) w ≡ some (tt, w')
      → IsUnknown i w
      → IsProper i w'
  unfolding handle_event
  arrival-IsProper now dialled later w os runs h =
      subst (After (IsProper i)) runs (accept_new-IsProper env i now dialled later w os h)

  -- A server that was dialled.
  pub dialled-IsProper :
      (id now later : ℕ) (w : World State) {w' : World State}
      → IsOther i id
      → handle_event env (client_conn id now (some i) later) w ≡ some (tt, w')
      → IsUnknown i w
      → IsProper i w'
  unfolding handle_event
  dialled-IsProper id now later w o runs h =
      subst (After (IsProper i)) runs (accept_dialled-IsProper env i id now later w o h)
