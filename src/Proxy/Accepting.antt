-- ===== src/Proxy/Accepting.antt =====
-- A new client takes the place of the one before, and finds the server's session as it was.
use irc_idler.Prelude.{
  ℕ, [], ◌∷◌, ◌++◌, append-nil, List, ap, ◌∙◌, Bool-cases, true, Option, none, some, ◌≡◌, refl,
  arith, inl, inr, ◌⊎◌,
}
use irc_idler.State.Handshake.{done}
use irc_idler.State.Session.{new_session}
use irc_idler.Proxy.World.{Output, closed, Env, World, ◌>>=◌, modify, gets, pure}
use irc_idler.Proxy.Link.{drop_client, drop_client_world, setup, is_closed}
use irc_idler.Proxy.Run.{client_conn, handle_event, accept_client, set_client, set_server}
use irc_idler.Proxy.Sends.{IsOpen}
use irc_idler.Proxy.Wired.{IsWired}

-- What a new client finds: itself connected with a fresh session, and a server.
pub record IsWelcomed {L : Type 0} (id : ℕ) (w w' : World L) : Type 0 where
  pub connected : IsOpen id w'
  pub fresh : w'.client.session ≡ new_session
  pub logs_same : w'.logs ≡ w.logs
  pub pre_log_same : w'.pre_log ≡ w.pre_log

module _ (env : Env) where
  open env.store use {State}

  -- With a server whose handshake is done, a new client of a wired daemon is connected with a
  -- fresh session, the server, the logs and the session before them stay as they are, and the
  -- connection of the client before, if there was one, is closed.
  pub accept_idle :
      (id now k : ℕ) (dialled : Option ℕ) (later : ℕ) (w : World State)
      → IsWired w
      → w.server.rwc ≡ some k
      → done w.server.session.handshake ≡ true
      → (w' : World State) × (handle_event env (client_conn id now dialled later) w ≡ some (tt, w'))
        × IsWelcomed id w w'
        × (w'.server ≡ w.server)
        × ((old : ℕ) → w.client.rwc ≡ some old → w'.out ≡ w.out ++ closed old ∷ [])
  unfolding handle_event accept_client ◌>>=◌ modify gets pure drop_client drop_client_world
      set_client setup is_closed
  accept_idle id now k dialled later w h server d = (
    set_client (setup id now) (drop_client_world w),
    ground (arith, server, d, h.server_paired),
    record {
      connected = ground arith;
      fresh = refl;
      logs_same = ground arith;
      pre_log_same = ground arith;
    },
    ground (arith, d),
    λ old e. ground (arith, e, d, h.client_paired),
  )

  -- Without a server, a drop of the client closes the client, if there is one.
  idle_out :
      (w : World State)
      → w.server.rwc ≡ none
      → w.client.rwc ≡ none
      → (drop_client_world w).out ≡ w.out
  unfolding drop_client_world is_closed
  idle_out w server client = elim (Bool-cases (done w.server.session.handshake)) [
    | inl d ↦ ground (arith, server, client, d, append-nil w.out)
    | inr d ↦ ground (arith, server, client, d, append-nil w.out)
  ]

  opened_out :
      (id : ℕ) (w : World State)
      → w.server.rwc ≡ none
      → IsOpen id w
      → (drop_client_world w).out ≡ w.out ++ closed id ∷ []
  unfolding drop_client_world is_closed
  opened_out id w server (rwc, chan) = elim (Bool-cases (done w.server.session.handshake)) [
    | inl d ↦ ground (arith, server, rwc, chan, d)
    | inr d ↦ ground (arith, server, rwc, chan, d, append-nil (w.out ++ closed id ∷ []))
  ]

  -- Without a server, a new client of a wired daemon is connected beside the server that Connect
  -- returns, both with fresh sessions, and nothing is written or closed; or, where Connect fails,
  -- the client's connection is closed again, and that is all that is done to a connection. The
  -- logs are as they were.
  pub accept_dials :
      (id now : ℕ) (dialled : Option ℕ) (later : ℕ) (w : World State)
      → IsWired w
      → w.server.rwc ≡ none
      → (w' : World State) × (handle_event env (client_conn id now dialled later) w ≡ some (tt, w'))
        × (w'.server.rwc ≡ dialled)
        × (((k : ℕ) × (dialled ≡ some k)
              × IsWelcomed id w w'
              × (w'.server.session ≡ new_session)
              × (w'.out ≡ w.out))
            ⊎ ((dialled ≡ none)
                × (w'.client.rwc ≡ none)
                × (w'.logs ≡ w.logs)
                × (w'.out ≡ w.out ++ closed id ∷ [])))
  unfolding handle_event accept_client ◌>>=◌ modify gets pure drop_client drop_client_world
      set_client set_server setup is_closed
  accept_dials id now none later w h server = (
    drop_client_world (set_client (setup id now) (drop_client_world w)),
    ground (arith, server, h.server_paired),
    ground (arith, server, h.server_paired),
    inr (
      refl,
      ground arith,
      ground arith,
      opened_out id (set_client (setup id now) (drop_client_world w))
            (ground (arith, server, h.server_paired)) (refl, refl)
          ∙ ap (λ (o : List Output). o ++ closed id ∷ [])
              (idle_out w server (h.client_served server)),
    ),
  )
  accept_dials id now (some k) later w h server = (
    set_server (setup k later) (set_client (setup id now) (drop_client_world w)),
    ground (arith, server, h.server_paired),
    refl,
    inl (
      k,
      refl,
      record {
        connected = ground arith;
        fresh = refl;
        logs_same = ground arith;
        pre_log_same = ground arith;
      },
      refl,
      idle_out w server (h.client_served server),
    ),
  )
