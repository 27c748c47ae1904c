-- ===== src/Proxy/Wired.antt =====
-- How the two connections hang together, in every reachable state.
use irc_idler.Prelude.{ℕ, [], ◌∷◌, ◌++◌, false, Option, none, some, ◌≡◌, refl, arith}
use irc_idler.Irc.Message.{Message}
use irc_idler.State.Handshake.{done}
use irc_idler.State.Handshake.Progress.{done-update_from_client, done-update_from_server}
use irc_idler.State.Session.{Session, update_from_server, update_from_client}
use irc_idler.State.Session.Effects.{update_from_server-handshake}
use irc_idler.Proxy.World.{write_failed, Env, World, ◌>>=◌, modify, gets, pure}
use irc_idler.Proxy.World.Keeps.{After, Keeps, Keeps-modify}
use irc_idler.Proxy.Link.{
  setup, is_closed, update_deadlines, delivered, not_delivered, client_write, server_write,
  server_wrote, server_failed, send_client, send_server, drop_client, reset, drop_client_world,
  reset_world,
}
use irc_idler.Proxy.Client.{set_client_session, touch_pre_log}
use irc_idler.Proxy.Server.{set_server_session, tracked_as, track_server}
use irc_idler.Proxy.Run.{Reachable, new_proxy, mark_pinged, set_client, set_server, accept_client}
use irc_idler.Proxy.Stable.{any_talk, IsStable}
use irc_idler.Proxy.Handlers.{Reachable-induction}
use irc_idler.Proxy.Handlers.Logs.{replay_log-Keeps, log_msg-Keeps}

-- A connection has both its transport and its channel, or neither; there is a client only beside
-- a server; and a server whose handshake is not done has its client.
pub record IsWired {L : Type 0} (w : World L) : Type 0 where
  pub client_paired : w.client.rwc ≡ w.client.chan
  pub server_paired : w.server.rwc ≡ w.server.chan
  pub client_served : w.server.rwc ≡ none → w.client.rwc ≡ none
  pub server_wanted :
      done w.server.session.handshake ≡ false → w.client.rwc ≡ none → w.server.rwc ≡ none

module _ {L : Type 0} where
  drop_client_world-IsWired : (w : World L) → IsWired w → IsWired (drop_client_world w)
  unfolding drop_client_world done
  drop_client_world-IsWired w h = ground arith

  reset_world-IsWired : (w : World L) → IsWired w → IsWired (reset_world w)
  unfolding reset_world done
  reset_world-IsWired w h = ground arith

module _ (env : Env) where
  open env.store use {State}

  delivered-IsWired :
      (m : Message) (id : ℕ) (w : World State)
      → IsWired w
      → After (IsWired {L = State}) (delivered env m id w)
  unfolding delivered
  delivered-IsWired m id w h = ground arith

  client_write-IsWired :
      (m : Message) (o : Option ℕ) (w : World State)
      → IsWired w
      → After (IsWired {L = State}) (client_write env m o w)
  unfolding client_write not_delivered
  client_write-IsWired m none w h = h
  client_write-IsWired m (some id) w h = ground (
    arith,
    delivered-IsWired m id w h,
    drop_client_world-IsWired (record w { out = w.out ++ write_failed id m ∷ [] }),
  )

  server_wrote-IsWired :
      (m : Message) (id : ℕ) (w : World State) → IsWired w → IsWired (server_wrote env m id w)
  unfolding server_wrote update_from_client
  server_wrote-IsWired m id w h =
      ground (arith, done-update_from_client m w.server.session.handshake)

  server_write-IsWired :
      (m : Message) (o : Option ℕ) (w : World State)
      → IsWired w
      → After (IsWired {L = State}) (server_write env m o w)
  unfolding server_write server_failed
  server_write-IsWired m none w h = h
  server_write-IsWired m (some id) w h = ground (
    arith,
    server_wrote-IsWired m id w h,
    reset_world-IsWired (record w { out = w.out ++ write_failed id m ∷ [] }),
  )

  tracked_as-IsWired :
      (m : Message) (o : Option Session) (w : World State)
      → IsWired w
      → update_from_server m w.server.session ≡ o
      → After (IsWired {L = State}) (tracked_as o w)
  unfolding tracked_as
  tracked_as-IsWired m none w h e = tt
  tracked_as-IsWired m (some s) w h e = ground (
    arith,
    update_from_server-handshake m w.server.session e,
    done-update_from_server m w.server.session.handshake,
  )

  track_server-IsWired :
      (m : Message) (w : World State) → IsWired w → After (IsWired {L = State}) (track_server m w)
  unfolding track_server
  track_server-IsWired m w h = tracked_as-IsWired m (update_from_server m w.server.session) w h refl

  accept_client-IsWired :
      (id now : ℕ) (dialled : Option ℕ) (later : ℕ) (w : World State)
      → IsWired w
      → After (IsWired {L = State}) (accept_client env id now dialled later w)
  unfolding accept_client ◌>>=◌ modify gets pure drop_client set_client set_server setup is_closed
      done
  accept_client-IsWired id now none later w h = ground arith
  accept_client-IsWired id now (some k) later w h = ground arith

  client_sends : (m : Message) → Keeps (IsWired {L = State}) (send_client env m)
  unfolding send_client
  client_sends m = record { at = λ w h. client_write-IsWired m w.client.rwc w h }

  stores : (s : State) (w : World State) → IsWired w → IsWired (record w { logs = s })
  stores s w h = ground arith

  client_session :
      (f : Session → Session) (w : World State) → IsWired w → IsWired (set_client_session f w)
  unfolding set_client_session
  client_session f w h = ground arith

  IsWired-IsStable : IsStable env any_talk (IsWired {L = State})
  unfolding send_server drop_client reset any_talk
  IsWired-IsStable = record {
    sends_client = λ m told. client_sends m;
    sends_server = λ m asked. record { at = λ w h. server_write-IsWired m w.server.rwc w h };
    drops_client = record { at = drop_client_world-IsWired };
    resets = record { at = reset_world-IsWired };
    tracks = λ m told. record { at = track_server-IsWired m };
    replays = replay_log-Keeps env client_sends stores;
    logs = λ m kept. log_msg-Keeps env client_sends stores m;
    client_speaks = λ m asked. Keeps-modify _ (client_session (update_from_client m));
    client_session = λ f keeps. client_session f;
    server_id = λ id w h. unfold set_server_session in ground arith;
    touches = λ name w h. unfold touch_pre_log in ground arith;
    prefix = λ p w h. ground arith;
    yourhost = λ t w h. ground arith;
    created = λ t w h. ground arith;
    myinfo = λ ps w h. ground arith;
    cached = λ w h. ground arith;
    client_timer = λ now w h. unfold set_client update_deadlines in ground arith;
    server_timer = λ now w h. unfold set_server update_deadlines in ground arith;
    client_pinged = λ now w h. unfold set_client mark_pinged in ground arith;
    server_pinged = λ now w h. unfold set_server mark_pinged in ground arith;
    accepts = λ id now dialled later new others. record {
      at = accept_client-IsWired id now dialled later;
    };
  }

  new_proxy-IsWired : (logs : State) → IsWired (new_proxy logs)
  unfolding new_proxy
  new_proxy-IsWired logs = ground arith

  -- In every state that the daemon reaches before it stops, with any store, any failing writes,
  -- any map order and any order of events: each connection has both its transport and its channel
  -- or neither, there is a client only beside a server, and a server whose handshake is not done
  -- has its client.
  pub Reachable-IsWired : {logs : State} {w : World State} → Reachable env logs w → IsWired w
  Reachable-IsWired {logs} r = Reachable-induction env IsWired-IsStable (new_proxy-IsWired logs) r
