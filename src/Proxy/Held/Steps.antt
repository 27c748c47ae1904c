-- ===== src/Proxy/Held/Steps.antt =====
-- What the steps of the handlers do to a connection that the daemon has, by Held.
use irc_idler.Prelude.{
  ℕ, List, [], ◌∷◌, ◌++◌, true, Option, none, some, ◌≡◌, arith, Bool-cases, inl, inr,
}
use irc_idler.Irc.Message.{Message}
use irc_idler.Proxy.World.{Output, wrote, write_failed, Env, World, ◌>>=◌, modify, gets, pure}
use irc_idler.Proxy.World.Keeps.{After}
use irc_idler.Proxy.Link.{
  shutdown, setup, is_closed, delivered, not_delivered, client_write, server_write, server_wrote,
  server_failed, drop_client, drop_client_world, reset_world,
}
use irc_idler.Proxy.Server.{track_server}
use irc_idler.Proxy.Run.{set_client, set_server, connected, accept_client}
use irc_idler.Proxy.Held.{was_closed-append, shutdown_closes, IsHeld, IsPaired}

module _ {L : Type 0} (i : ℕ) where
  pub drop_client_world-IsHeld : (w : World L) → IsHeld i w → IsHeld i (drop_client_world w)
  unfolding drop_client_world shutdown
  drop_client_world-IsHeld w h = ground (
    arith,
    shutdown_closes i w.out w.client,
    shutdown_closes i (w.out ++ (shutdown w.client).1) w.server,
  )

  pub reset_world-IsHeld : (w : World L) → IsHeld i w → IsHeld i (reset_world w)
  unfolding reset_world shutdown
  reset_world-IsHeld w h = ground (
    arith,
    shutdown_closes i w.out w.client,
    shutdown_closes i (w.out ++ (shutdown w.client).1) w.server,
  )

module _ (env : Env) (i : ℕ) where
  open env.store use {State}

  abbrev Here : World State → Type 0
  Here = IsHeld i

  -- More outputs make no difference to what is held.
  output-IsHeld :
      (w : World State) (acts : List Output) → Here w → Here (record w { out = w.out ++ acts })
  output-IsHeld w acts h = ground (arith, was_closed-append i w.out acts)

  delivered-IsHeld :
      (m : Message) (id : ℕ) (w : World State) → Here w → After Here (delivered env m id w)
  unfolding delivered
  delivered-IsHeld m id w h = ground (arith, was_closed-append i w.out (wrote id m ∷ []))

  pub client_write-IsHeld :
      (m : Message) (o : Option ℕ) (w : World State) → Here w → After Here (client_write env m o w)
  unfolding client_write not_delivered
  client_write-IsHeld m none w h = h
  client_write-IsHeld m (some id) w h = elim (Bool-cases (env.writes w.out id m)) [
    | inl ok ↦ rw ok (delivered-IsHeld m id w h)
    | inr failed ↦
        rw failed (drop_client_world-IsHeld i _ (output-IsHeld w (write_failed id m ∷ []) h))
  ]

  server_wrote-IsHeld :
      (m : Message) (id : ℕ) (w : World State) → Here w → Here (server_wrote env m id w)
  unfolding server_wrote
  server_wrote-IsHeld m id w h = ground (arith, was_closed-append i w.out (wrote id m ∷ []))

  pub server_write-IsHeld :
      (m : Message) (o : Option ℕ) (w : World State) → Here w → After Here (server_write env m o w)
  unfolding server_write server_failed
  server_write-IsHeld m none w h = h
  server_write-IsHeld m (some id) w h = elim (Bool-cases (env.writes w.out id m)) [
    | inl ok ↦ rw ok (server_wrote-IsHeld m id w h)
    | inr failed ↦ rw failed (reset_world-IsHeld i _ (output-IsHeld w (write_failed id m ∷ []) h))
  ]

  pub track_server-IsHeld : (m : Message) (w : World State) → Here w → After Here (track_server m w)
  unfolding track_server
  track_server-IsHeld m w h = ground arith

  dropped_client : (w : World State) → Here w → (drop_client_world w).client.chan ≡ none
  unfolding drop_client_world
  dropped_client w h = ground arith

  new_client-IsHeld :
      (id now : ℕ) (w : World State)
      → w.client.chan ≡ none
      → Here w
      → Here (set_client (setup id now) w)
  unfolding set_client setup
  new_client-IsHeld id now w e h = ground arith

  new_server-IsHeld :
      (k now : ℕ) (w : World State)
      → is_closed w.server ≡ true
      → Here w
      → Here (set_server (setup k now) w)
  unfolding set_server setup is_closed
  new_server-IsHeld k now w e h = ground arith

  connected-IsHeld :
      (dialled : Option ℕ) (now : ℕ) (w : World State)
      → is_closed w.server ≡ true
      → Here w
      → After Here (connected env dialled now w)
  unfolding connected drop_client modify
  connected-IsHeld none now w e h = drop_client_world-IsHeld i w h
  connected-IsHeld (some k) now w e h = new_server-IsHeld k now w e h

  pub accept_client-IsHeld :
      (id now : ℕ) (dialled : Option ℕ) (later : ℕ) (w : World State)
      → Here w
      → After Here (accept_client env id now dialled later w)
  unfolding accept_client ◌>>=◌ modify gets pure drop_client
  accept_client-IsHeld id now dialled later w h =
      let w1 = drop_client_world w in
      let w2 = set_client (setup id now) w1 in
      let h2 = new_client-IsHeld id now w1 (dropped_client w h) (drop_client_world-IsHeld i w h) in
      elim (Bool-cases (is_closed w2.server)) [
        | inl closed' ↦ rw closed' (connected-IsHeld dialled later w2 closed' h2)
        | inr open' ↦ rw open' h2
      ]

  accepted_first :
      (now : ℕ) (w : World State)
      → IsPaired w
      → Here (set_client (setup i now) (drop_client_world w))
  unfolding set_client setup drop_client_world
  accepted_first now w h = ground arith

  pub accepted-IsHeld :
      (now : ℕ) (dialled : Option ℕ) (later : ℕ) (w : World State)
      → IsPaired w
      → After Here (accept_client env i now dialled later w)
  unfolding accept_client ◌>>=◌ modify gets pure drop_client
  accepted-IsHeld now dialled later w h =
      let w2 = set_client (setup i now) (drop_client_world w) in
      let h2 = accepted_first now w h in
      elim (Bool-cases (is_closed w2.server)) [
        | inl closed' ↦ rw closed' (connected-IsHeld dialled later w2 closed' h2)
        | inr open' ↦ rw open' h2
      ]
