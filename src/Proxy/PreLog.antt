-- ===== src/Proxy/PreLog.antt =====
-- `preLogSession` follows what the client is sent, but it is never told the client's nick.
use irc_idler.Prelude.{
  ℕ, Bytes, [], ◌∷◌, ◌++◌, true, Option, none, some, ◌≡◌, refl, arith, Option-cases, inl, inr,
}
use irc_idler.Irc.Message.{Message}
use irc_idler.State.Session.{Session, have_channel, update_from_client, update_from_server}
use irc_idler.State.Session.Nobody.{client_id_nobody, have_channel_nobody}
use irc_idler.Proxy.World.{write_failed, Env, World, ◌>>=◌, modify, gets, pure}
use irc_idler.Proxy.World.Keeps.{After, Keeps, Keeps-modify}
use irc_idler.Proxy.Link.{
  delivered, not_delivered, client_write, server_write, server_wrote, server_failed, send_client,
  send_server, drop_client, reset, drop_client_world, reset_world, setup, is_closed,
}
use irc_idler.Proxy.Client.{set_client_session, touch_pre_log}
use irc_idler.Proxy.Server.{set_server_session, track_server}
use irc_idler.Proxy.Run.{Reachable, new_proxy, set_client, set_server, accept_client}
use irc_idler.Proxy.Stable.{any_talk, IsStable}
use irc_idler.Proxy.Handlers.{Reachable-induction}
use irc_idler.Proxy.Handlers.Logs.{replay_log-Keeps, log_msg-Keeps}

abbrev pub IsNobody : {L : Type 0} → World L → Type 0
IsNobody w = w.pre_log.client_id.nick ≡ []

module _ {L : Type 0} where
  drop_client_world-IsNobody : (w : World L) → IsNobody w → IsNobody (drop_client_world w)
  unfolding drop_client_world
  drop_client_world-IsNobody w h = ground arith

  reset_world-IsNobody : (w : World L) → IsNobody w → IsNobody (reset_world w)
  unfolding reset_world
  reset_world-IsNobody w h = ground arith

module _ (env : Env) where
  open env.store use {State}

  delivered-IsNobody :
      (m : Message) (id : ℕ) (w : World State)
      → IsNobody w
      → After (IsNobody {L = State}) (delivered env m id w)
  unfolding delivered
  delivered-IsNobody m id w h = elim (Option-cases (update_from_server m w.pre_log)) [
    | inl e ↦ ground arith
    | inr (s, e) ↦ ground (arith, client_id_nobody m w.pre_log h e)
  ]

  client_write-IsNobody :
      (m : Message) (o : Option ℕ) (w : World State)
      → IsNobody w
      → After (IsNobody {L = State}) (client_write env m o w)
  unfolding client_write not_delivered
  client_write-IsNobody m none w h = h
  client_write-IsNobody m (some id) w h = ground (
    arith,
    delivered-IsNobody m id w h,
    drop_client_world-IsNobody (record w { out = w.out ++ write_failed id m ∷ [] }),
  )

  server_write-IsNobody :
      (m : Message) (o : Option ℕ) (w : World State)
      → IsNobody w
      → After (IsNobody {L = State}) (server_write env m o w)
  unfolding server_write server_failed server_wrote
  server_write-IsNobody m none w h = h
  server_write-IsNobody m (some id) w h =
      ground (arith, reset_world-IsNobody (record w { out = w.out ++ write_failed id m ∷ [] }))

  track_server-IsNobody :
      (m : Message) (w : World State) → IsNobody w → After (IsNobody {L = State}) (track_server m w)
  unfolding track_server
  track_server-IsNobody m w h = ground arith

  accept_client-IsNobody :
      (id now : ℕ) (dialled : Option ℕ) (later : ℕ) (w : World State)
      → IsNobody w
      → After (IsNobody {L = State}) (accept_client env id now dialled later w)
  unfolding accept_client ◌>>=◌ modify gets pure drop_client set_client set_server setup is_closed
  accept_client-IsNobody id now none later w h = ground arith
  accept_client-IsNobody id now (some k) later w h = ground arith

  client_sends : (m : Message) → Keeps (IsNobody {L = State}) (send_client env m)
  unfolding send_client
  client_sends m = record { at = λ w h. client_write-IsNobody m w.client.rwc w h }

  stores : (s : State) (w : World State) → IsNobody w → IsNobody (record w { logs = s })
  stores s w h = h

  client_session :
      (f : Session → Session) (w : World State) → IsNobody w → IsNobody (set_client_session f w)
  unfolding set_client_session
  client_session f w h = h

  IsNobody-IsStable : IsStable env any_talk (IsNobody {L = State})
  unfolding send_server drop_client reset any_talk
  IsNobody-IsStable = record {
    sends_client = λ m told. client_sends m;
    sends_server = λ m asked. record { at = λ w h. server_write-IsNobody m w.server.rwc w h };
    drops_client = record { at = drop_client_world-IsNobody };
    resets = record { at = reset_world-IsNobody };
    tracks = λ m told. record { at = track_server-IsNobody m };
    replays = replay_log-Keeps env client_sends stores;
    logs = λ m kept. log_msg-Keeps env client_sends stores m;
    client_speaks = λ m asked. Keeps-modify _ (client_session (update_from_client m));
    client_session = λ f keeps. client_session f;
    server_id = λ id w h. unfold set_server_session in h;
    touches = λ name w h. unfold touch_pre_log in h;
    prefix = λ p w h. h;
    yourhost = λ t w h. h;
    created = λ t w h. h;
    myinfo = λ ps w h. h;
    cached = λ w h. h;
    client_timer = λ now w h. unfold set_client in h;
    server_timer = λ now w h. unfold set_server in h;
    client_pinged = λ now w h. unfold set_client in h;
    server_pinged = λ now w h. unfold set_server in h;
    accepts = λ id now dialled later new others. record {
      at = accept_client-IsNobody id now dialled later;
    };
  }

  Reachable-IsNobody : {logs : State} {w : World State} → Reachable env logs w → IsNobody w
  unfolding new_proxy
  Reachable-IsNobody r = Reachable-induction env IsNobody-IsStable refl r

  -- In a reachable state no message that the client is sent takes the session before the logs out
  -- of a channel, the client's own PART of it included.
  pub pre_log_stays :
      {logs : State} {w : World State} {s' : Session} (m : Message) (c : Bytes)
      → Reachable env logs w
      → update_from_server m w.pre_log ≡ some s'
      → have_channel c w.pre_log.channels ≡ true
      → have_channel c s'.channels ≡ true
  pre_log_stays {w = w} m c r e here =
      have_channel_nobody m c w.pre_log (Reachable-IsNobody r) e here
