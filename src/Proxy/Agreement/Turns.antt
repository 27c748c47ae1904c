-- ===== src/Proxy/Agreement/Turns.antt =====
-- The turns of the handshake: a NICK or USER of the client, and a reply of the server.
use irc_idler.Prelude.{
  ℕ, ◌∷◌, [], List, Bytes, bytes, bytes_eq, one_of, one_of-All, true, false, not, ◌||◌,
  if◌then◌else◌, none, some, ◌≡◌, refl, arith, Bool-cases, inl, inr, Option, Option-cases,
}
use irc_idler.Irc.Message.{Message}
use irc_idler.Irc.Codes.{cmd_pass, cmd_user, cmd_nick, cmd_ping, cmd_pong, cmd_quit, cmd_join}
use irc_idler.State.Handshake.{done}
use irc_idler.State.Handshake.Progress.{done-stable}
use irc_idler.State.Session.{Session, update_from_client, update_from_server}
use irc_idler.State.Session.Effects.{update_from_server-handshake}
use irc_idler.Proxy.World.{Env, World, ◌>>=◌, modify, gets, pure}
use irc_idler.Proxy.World.Keeps.{After}
use irc_idler.Proxy.Link.{
  send_server, client_write, server_write, delivered, not_delivered, server_wrote, server_failed,
  drop_client_world, reset_world,
}
use irc_idler.Proxy.Client.{
  message, set_client_session, handle_valid, handle_command, handle_handshake_message,
  welcome_if_wanted,
}
use irc_idler.Proxy.Server.{dispatch, forward, handle_endofmotd}
use irc_idler.Proxy.Agreement.{IsAgreed, refusals, endings}

abbrev pub speakers : List Bytes
speakers = cmd_user ∷ cmd_nick ∷ []

-- What the switches on the command of a NICK or USER find.
abbrev Tests : Bytes → Type 0
Tests c =
    (bytes_eq c cmd_ping ≡ false)
    × (bytes_eq c cmd_pong ≡ false)
    × (bytes_eq c cmd_quit ≡ false)
    × (bytes_eq c cmd_join ≡ false)
    × (one_of c (cmd_pass ∷ cmd_user ∷ cmd_nick ∷ []) ≡ true)

speaker-Tests : (c : Bytes) → one_of c speakers ≡ true → Tests c
unfolding one_of bytes bytes_eq
speaker-Tests c e =
    one_of-All Tests c speakers
      ((refl, refl, refl, refl, refl), ((refl, refl, refl, refl, refl), tt)) e

-- What `dispatch` does with the replies that a handshake reads.
module _ (env : Env) where
  refusal_forwarded :
      (c : Bytes)
      → one_of c refusals ≡ true
      → (prefix : Bytes) (ps : List Bytes)
      → dispatch env (message prefix c ps) ≡ forward env (message prefix c ps)
  unfolding dispatch one_of bytes bytes_eq
  refusal_forwarded c e =
      let Forwards : Bytes → Type 0 = λ c.
        (prefix : Bytes) (ps : List Bytes)
        → dispatch env (message prefix c ps) ≡ forward env (message prefix c ps) in
      one_of-All Forwards c refusals
        (λ prefix ps. refl, (λ prefix ps. refl, (λ prefix ps. refl, (λ prefix ps. refl, tt)))) e

  ending_replayed :
      (c : Bytes)
      → one_of c endings ≡ true
      → (prefix : Bytes) (ps : List Bytes)
      → dispatch env (message prefix c ps) ≡ handle_endofmotd env (message prefix c ps)
  unfolding dispatch one_of bytes bytes_eq
  ending_replayed c e =
      let Ends : Bytes → Type 0 = λ c.
        (prefix : Bytes) (ps : List Bytes)
        → dispatch env (message prefix c ps) ≡ handle_endofmotd env (message prefix c ps) in
      one_of-All Ends c endings (λ prefix ps. refl, (λ prefix ps. refl, tt)) e

  pub dispatch-refusal :
      (m : Message) → one_of m.command refusals ≡ true → dispatch env m ≡ forward env m
  dispatch-refusal m e = refusal_forwarded m.command e m.prefix m.params

  pub dispatch-ending :
      (m : Message) → one_of m.command endings ≡ true → dispatch env m ≡ handle_endofmotd env m
  dispatch-ending m e = ending_replayed m.command e m.prefix m.params

module _ (env : Env) where
  open env.store use {State}

  -- The world in which the client's session has taken in its message.
  abbrev pub spoken : Message → World State → World State
  spoken m w = set_client_session (update_from_client m) w

  -- The world in which the server's session has taken in its message.
  abbrev pub replied : Session → World State → World State
  replied s w = record w { server = record (w.server) { session = s } }

  pub speaker_asked :
      (m : Message) (w : World State)
      → one_of m.command speakers ≡ true
      → handle_valid env m w ≡ (
          if done (spoken m w).client.session.handshake
            || not (done (spoken m w).server.session.handshake)
          then (send_server env m >>= λ sent. pure tt) (spoken m w)
          else welcome_if_wanted env (spoken m w) (spoken m w))
  unfolding handle_valid handle_command handle_handshake_message modify gets ◌>>=◌
  speaker_asked m w e =
      let (a, b, c, d, f) = speaker-Tests m.command e in
      elim (Bool-cases (done (spoken m w).client.session.handshake)) [
        | inl x ↦ rw (x, a, b, c, d) refl
        | inr x ↦ elim (Bool-cases (done (spoken m w).server.session.handshake)) [
          | inl y ↦ rw (x, f, y) refl
          | inr y ↦ rw (x, f, y) refl
        ]
      ]

  pub server_write-spoken :
      (m : Message) (o : Option ℕ) (w : World State)
      → w.server.rwc ≡ o
      → IsAgreed w
      → (id : ℕ) → w.client.chan ≡ some id
      → After (IsAgreed {L = State}) (server_write env m o (spoken m w))
  unfolding server_write server_wrote server_failed reset_world set_client_session done
      update_from_client
  server_write-spoken m none w e h id open_ =
      absurd (cc (h.client_served e, h.client_paired, open_))
  server_write-spoken m (some k) w e h id open_ = elim (Bool-cases (env.writes w.out k m)) [
    | inl ok ↦ rw ok (ground (arith, done-stable m w.server.session.handshake))
    | inr failed ↦ rw failed (ground arith)
  ]

  pub spoken-IsAgreed :
      (m : Message) (w : World State)
      → IsAgreed w
      → (id : ℕ) → w.client.chan ≡ some id
      → done (spoken m w).server.session.handshake ≡ true
      → IsAgreed (spoken m w)
  unfolding set_client_session update_from_client
  spoken-IsAgreed m w h id open_ d = ground arith

  delivered-replied :
      (m : Message) (id : ℕ) (w : World State) {s : Session}
      → IsAgreed w
      → w.client.rwc ≡ some id
      → update_from_server m w.server.session ≡ some s
      → After (IsAgreed {L = State}) (delivered env m id (replied s w))
  unfolding delivered
  delivered-replied m id w h e s' = elim (Option-cases (update_from_server m w.client.session)) [
    | inl none' ↦ ground arith
    | inr (c, c') ↦ ground (
      arith,
      update_from_server-handshake m w.client.session c',
      update_from_server-handshake m w.server.session s',
      done-stable m w.server.session.handshake,
    )
  ]

  pub client_write-replied :
      (m : Message) (o : Option ℕ) (w : World State) {s : Session} (k : ℕ)
      → IsAgreed w
      → w.client.rwc ≡ o
      → w.server.chan ≡ some k
      → update_from_server m w.server.session ≡ some s
      → After (IsAgreed {L = State}) (client_write env m o (replied s w))
  unfolding client_write not_delivered drop_client_world
  client_write-replied m none w k h e ready s' = ground (
    arith,
    update_from_server-handshake m w.server.session s',
    done-stable m w.server.session.handshake,
    Bool-cases (done w.server.session.handshake),
  )
  client_write-replied m (some id) w k h e ready s' = elim (Bool-cases (env.writes w.out id m)) [
    | inl ok ↦ rw ok (delivered-replied m id w h e s')
    | inr failed ↦ rw failed (
        unfold done in
        ground (
          arith,
          done-stable m w.server.session.handshake,
          update_from_server-handshake m w.server.session s',
        ))
  ]
