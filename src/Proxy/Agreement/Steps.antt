-- ===== src/Proxy/Agreement/Steps.antt =====
-- The steps of the handlers keep the agreement on the handshake, at messages that no handshake
-- reads.
use irc_idler.Prelude.{
  ℕ, [], ◌∷◌, ◌++◌, Option, none, some, ◌≡◌, refl, arith, Option-cases, inl, inr,
}
use irc_idler.Irc.Message.{Message}
use irc_idler.State.Handshake.{done}
use irc_idler.State.Session.{Session, update_from_client, update_from_server}
use irc_idler.State.Session.Effects.{update_from_server-handshake}
use irc_idler.Proxy.World.{write_failed, Env, World, ◌>>=◌, modify, gets, pure}
use irc_idler.Proxy.World.Keeps.{After, Keeps}
use irc_idler.Proxy.Link.{
  setup, is_closed, delivered, not_delivered, client_write, server_write, server_wrote,
  server_failed, send_client, send_server, drop_client, reset, drop_client_world, reset_world,
}
use irc_idler.Proxy.Client.{set_client_session}
use irc_idler.Proxy.Server.{tracked_as, track_server}
use irc_idler.Proxy.Run.{set_client, set_server, accept_client}
use irc_idler.Proxy.Agreement.{IsQuiet, IsPlain, IsAgreed, quiet_stays, plain_stays}

module _ {L : Type 0} where
  pub drop_client_world-IsAgreed : (w : World L) → IsAgreed w → IsAgreed (drop_client_world w)
  unfolding drop_client_world done
  drop_client_world-IsAgreed w h = ground arith

  pub reset_world-IsAgreed : (w : World L) → IsAgreed w → IsAgreed (reset_world w)
  unfolding reset_world done
  reset_world-IsAgreed w h = ground arith

module _ (env : Env) where
  open env.store use {State}

  delivered-IsAgreed :
      (m : Message) (id : ℕ) (w : World State)
      → IsQuiet m
      → w.client.rwc ≡ some id
      → IsAgreed w
      → After (IsAgreed {L = State}) (delivered env m id w)
  unfolding delivered
  delivered-IsAgreed m id w q e h = elim (Option-cases (update_from_server m w.client.session)) [
    | inl e' ↦ ground arith
    | inr (s, e') ↦ ground (
      arith,
      update_from_server-handshake m w.client.session e',
      quiet_stays m w.client.session.handshake q,
    )
  ]

  client_write-IsAgreed :
      (m : Message) (o : Option ℕ) (w : World State)
      → IsQuiet m
      → w.client.rwc ≡ o
      → IsAgreed w
      → After (IsAgreed {L = State}) (client_write env m o w)
  unfolding client_write not_delivered
  client_write-IsAgreed m none w q e h = h
  client_write-IsAgreed m (some id) w q e h = ground (
    arith,
    delivered-IsAgreed m id w q e h,
    drop_client_world-IsAgreed (record w { out = w.out ++ write_failed id m ∷ [] }),
  )

  server_wrote-IsAgreed :
      (m : Message) (id : ℕ) (w : World State)
      → IsPlain m
      → IsAgreed w
      → IsAgreed (server_wrote env m id w)
  unfolding server_wrote update_from_client
  server_wrote-IsAgreed m id w q h = ground (arith, plain_stays m w.server.session.handshake q)

  server_write-IsAgreed :
      (m : Message) (o : Option ℕ) (w : World State)
      → IsPlain m
      → IsAgreed w
      → After (IsAgreed {L = State}) (server_write env m o w)
  unfolding server_write server_failed
  server_write-IsAgreed m none w q h = h
  server_write-IsAgreed m (some id) w q h = ground (
    arith,
    server_wrote-IsAgreed m id w q h,
    reset_world-IsAgreed (record w { out = w.out ++ write_failed id m ∷ [] }),
  )

  tracked_as-IsAgreed :
      (m : Message) (o : Option Session) (w : World State)
      → IsQuiet m
      → IsAgreed w
      → update_from_server m w.server.session ≡ o
      → After (IsAgreed {L = State}) (tracked_as o w)
  unfolding tracked_as
  tracked_as-IsAgreed m none w q h e = tt
  tracked_as-IsAgreed m (some s) w q h e = ground (
    arith,
    update_from_server-handshake m w.server.session e,
    quiet_stays m w.server.session.handshake q,
  )

  accept_client-IsAgreed :
      (id now : ℕ) (dialled : Option ℕ) (later : ℕ) (w : World State)
      → IsAgreed w
      → After (IsAgreed {L = State}) (accept_client env id now dialled later w)
  unfolding accept_client ◌>>=◌ modify gets pure drop_client set_client set_server setup is_closed
      done
  accept_client-IsAgreed id now none later w h = ground arith
  accept_client-IsAgreed id now (some k) later w h = ground arith

  pub send_client-IsAgreed :
      (m : Message) → IsQuiet m → Keeps (IsAgreed {L = State}) (send_client env m)
  unfolding send_client
  send_client-IsAgreed m q = record { at = λ w h. client_write-IsAgreed m w.client.rwc w q refl h }

  pub send_server-IsAgreed :
      (m : Message) → IsPlain m → Keeps (IsAgreed {L = State}) (send_server env m)
  unfolding send_server
  send_server-IsAgreed m q = record { at = λ w h. server_write-IsAgreed m w.server.rwc w q h }

  pub drop_client-IsAgreed : Keeps (IsAgreed {L = State}) (drop_client {L = State})
  unfolding drop_client
  drop_client-IsAgreed = record { at = drop_client_world-IsAgreed }

  pub reset-IsAgreed : Keeps (IsAgreed {L = State}) (reset {L = State})
  unfolding reset
  reset-IsAgreed = record { at = reset_world-IsAgreed }

  pub track_server-IsAgreed :
      (m : Message) → IsQuiet m → Keeps (IsAgreed {L = State}) (track_server {L = State} m)
  unfolding track_server
  track_server-IsAgreed m q = record {
    at = λ w h. tracked_as-IsAgreed m (update_from_server m w.server.session) w q h refl;
  }

  pub accepts-IsAgreed :
      (id now : ℕ) (dialled : Option ℕ) (later : ℕ)
      → Keeps (IsAgreed {L = State}) (accept_client env id now dialled later)
  accepts-IsAgreed id now dialled later = record {
    at = accept_client-IsAgreed id now dialled later;
  }

  pub set_client_session-IsAgreed :
      (f : Session → Session) (w : World State)
      → (f w.client.session).handshake ≡ w.client.session.handshake
      → IsAgreed w
      → IsAgreed (set_client_session f w)
  unfolding set_client_session
  set_client_session-IsAgreed f w e h = ground arith
