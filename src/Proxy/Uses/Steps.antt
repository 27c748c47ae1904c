-- ===== src/Proxy/Uses/Steps.antt =====
-- Uses of a connection by the steps of the handlers.
use irc_idler.Prelude.{ℕ, [], ◌∷◌, ◌++◌, Option, none, some, ◌≡◌, arith, Bool-cases, inl, inr}
use irc_idler.Irc.Message.{Message}
use irc_idler.Proxy.World.{wrote, write_failed, Env, World}
use irc_idler.Proxy.World.Keeps.{After}
use irc_idler.Proxy.Link.{
  shutdown, delivered, not_delivered, client_write, server_write, server_wrote, server_failed,
  drop_client_world, reset_world,
}
use irc_idler.Proxy.Server.{track_server}
use irc_idler.Proxy.Held.{was_closed-append, shutdown_closes}
use irc_idler.Proxy.Uses.{used_after-append, shutdown_uses, IsProper, IsUnknown}

module _ {L : Type 0} (i : ℕ) where
  pub drop_client_world-IsProper : (w : World L) → IsProper i w → IsProper i (drop_client_world w)
  unfolding drop_client_world shutdown
  drop_client_world-IsProper w h = ground (
    arith,
    shutdown_closes i w.out w.client,
    shutdown_closes i (w.out ++ (shutdown w.client).1) w.server,
    shutdown_uses i w.out w.client,
    shutdown_uses i (w.out ++ (shutdown w.client).1) w.server,
  )

  pub reset_world-IsProper : (w : World L) → IsProper i w → IsProper i (reset_world w)
  unfolding reset_world shutdown
  reset_world-IsProper w h = ground (
    arith,
    shutdown_closes i w.out w.client,
    shutdown_closes i (w.out ++ (shutdown w.client).1) w.server,
    shutdown_uses i w.out w.client,
    shutdown_uses i (w.out ++ (shutdown w.client).1) w.server,
  )

  pub drop_client_world-IsUnknown :
      (w : World L) → IsUnknown i w → IsUnknown i (drop_client_world w)
  unfolding drop_client_world shutdown
  drop_client_world-IsUnknown w h = ground (
    arith,
    shutdown_closes i w.out w.client,
    shutdown_closes i (w.out ++ (shutdown w.client).1) w.server,
  )

  pub reset_world-IsUnknown : (w : World L) → IsUnknown i w → IsUnknown i (reset_world w)
  unfolding reset_world shutdown
  reset_world-IsUnknown w h = ground (
    arith,
    shutdown_closes i w.out w.client,
    shutdown_closes i (w.out ++ (shutdown w.client).1) w.server,
  )

module _ (env : Env) (i : ℕ) where
  open env.store use {State}

  -- A write to the client or to the server is no use of a closed connection.
  client_failed-IsProper :
      (m : Message) (id : ℕ) (w : World State)
      → w.client.rwc ≡ some id
      → IsProper i w
      → IsProper i (record w { out = w.out ++ write_failed id m ∷ [] })
  client_failed-IsProper m id w e h = ground (
    arith,
    was_closed-append i w.out (write_failed id m ∷ []),
    used_after-append i w.out (write_failed id m ∷ []),
  )

  server_failed-IsProper :
      (m : Message) (id : ℕ) (w : World State)
      → w.server.rwc ≡ some id
      → IsProper i w
      → IsProper i (record w { out = w.out ++ write_failed id m ∷ [] })
  server_failed-IsProper m id w e h = ground (
    arith,
    was_closed-append i w.out (write_failed id m ∷ []),
    used_after-append i w.out (write_failed id m ∷ []),
  )

  delivered-IsProper :
      (m : Message) (id : ℕ) (w : World State)
      → w.client.rwc ≡ some id
      → IsProper i w
      → After (IsProper {L = State} i) (delivered env m id w)
  unfolding delivered
  delivered-IsProper m id w e h = ground (
    arith,
    was_closed-append i w.out (wrote id m ∷ []),
    used_after-append i w.out (wrote id m ∷ []),
  )

  pub client_write-IsProper :
      (m : Message) (o : Option ℕ) (w : World State)
      → w.client.rwc ≡ o
      → IsProper i w
      → After (IsProper {L = State} i) (client_write env m o w)
  unfolding client_write not_delivered
  client_write-IsProper m none w e h = h
  client_write-IsProper m (some id) w e h = elim (Bool-cases (env.writes w.out id m)) [
    | inl ok ↦ rw ok (delivered-IsProper m id w e h)
    | inr failed ↦ rw failed (drop_client_world-IsProper i _ (client_failed-IsProper m id w e h))
  ]

  server_wrote-IsProper :
      (m : Message) (id : ℕ) (w : World State)
      → w.server.rwc ≡ some id
      → IsProper i w
      → IsProper i (server_wrote env m id w)
  unfolding server_wrote
  server_wrote-IsProper m id w e h = ground (
    arith,
    was_closed-append i w.out (wrote id m ∷ []),
    used_after-append i w.out (wrote id m ∷ []),
  )

  pub server_write-IsProper :
      (m : Message) (o : Option ℕ) (w : World State)
      → w.server.rwc ≡ o
      → IsProper i w
      → After (IsProper {L = State} i) (server_write env m o w)
  unfolding server_write server_failed
  server_write-IsProper m none w e h = h
  server_write-IsProper m (some id) w e h = elim (Bool-cases (env.writes w.out id m)) [
    | inl ok ↦ rw ok (server_wrote-IsProper m id w e h)
    | inr failed ↦ rw failed (reset_world-IsProper i _ (server_failed-IsProper m id w e h))
  ]

  failed-IsUnknown :
      (m : Message) (id : ℕ) (w : World State)
      → IsUnknown i w
      → IsUnknown i (record w { out = w.out ++ write_failed id m ∷ [] })
  failed-IsUnknown m id w h = ground (arith, was_closed-append i w.out (write_failed id m ∷ []))

  pub client_write-IsUnknown :
      (m : Message) (o : Option ℕ) (w : World State)
      → IsUnknown i w
      → After (IsUnknown {L = State} i) (client_write env m o w)
  unfolding client_write not_delivered delivered
  client_write-IsUnknown m none w h = h
  client_write-IsUnknown m (some id) w h = elim (Bool-cases (env.writes w.out id m)) [
    | inl ok ↦ rw ok (ground (arith, was_closed-append i w.out (wrote id m ∷ [])))
    | inr failed ↦ rw failed (drop_client_world-IsUnknown i _ (failed-IsUnknown m id w h))
  ]

  pub server_write-IsUnknown :
      (m : Message) (o : Option ℕ) (w : World State)
      → IsUnknown i w
      → After (IsUnknown {L = State} i) (server_write env m o w)
  unfolding server_write server_failed server_wrote
  server_write-IsUnknown m none w h = h
  server_write-IsUnknown m (some id) w h = elim (Bool-cases (env.writes w.out id m)) [
    | inl ok ↦ rw ok (ground (arith, was_closed-append i w.out (wrote id m ∷ [])))
    | inr failed ↦ rw failed (reset_world-IsUnknown i _ (failed-IsUnknown m id w h))
  ]

  pub track_server-IsProper :
      (m : Message) (w : World State)
      → IsProper i w
      → After (IsProper {L = State} i) (track_server m w)
  unfolding track_server
  track_server-IsProper m w h = ground arith

  pub track_server-IsUnknown :
      (m : Message) (w : World State)
      → IsUnknown i w
      → After (IsUnknown {L = State} i) (track_server m w)
  unfolding track_server
  track_server-IsUnknown m w h = ground arith
