-- ===== src/Proxy/Welcome.antt =====
-- The welcome of a client that comes back while the server's connection is open.
use irc_idler.Prelude.{
  ℕ, List, [], ◌∷◌, ◌++◌, map, append_assoc, one_of, Bool, true, Option, none, some, ◌≡◌, refl, ap,
  ◌∙◌, arith, Bool-cases, inl, inr, ◌⊎◌, if◌then◌else◌,
}
use irc_idler.Irc.Message.{Message}
use irc_idler.Irc.Validate.{validate}
use irc_idler.Irc.Codes.{cmd_motd, cmd_pass, cmd_user, cmd_nick}
use irc_idler.State.Handshake.{done, wants_welcome}
use irc_idler.State.Handshake
use irc_idler.State.Session.{update_from_client}
use irc_idler.Proxy.Run.{from_client, handle_event, set_client}
use irc_idler.Proxy.World.{
  Output, wrote, write_failed, closed, Env, World, Connection, Proc, ◌>>=◌, ◌>>◌, modify, gets,
  pure,
}
use irc_idler.Proxy.World.Runs.{bind_runs}
use irc_idler.Proxy.Link.{
  send_server, server_write, server_wrote, server_failed, reset_world, update_deadlines,
}
use irc_idler.Proxy.Client.{
  message, welcome_back, adopt_id, set_client_session, send_each, welcome, welcome_if_wanted,
  handle_handshake_message, handle_valid, handle_message, handle_client_event,
}
use irc_idler.Proxy.Sends.{IsOpen, reset_out}
use irc_idler.Proxy.NoPanic.Messages.{welcome_back-IsIndexable}
use irc_idler.Proxy.Sends.Each.{IsCut, send_each_lem}

module _ (env : Env) where
  open env.store use {State}

  -- The whole welcome was written to the client, in order, and then MOTD to the server; the client
  -- has its id back, and the logs are as they were.
  pub record IsBack (id k : ℕ) (w w' : World State) : Type 0 where
    pub written :
        w'.out ≡ (w.out ++ map (wrote id) (welcome_back w)) ++ wrote k (message [] cmd_motd []) ∷ []
    pub known : w'.client.session.client_id ≡ w.server.session.client_id
    pub same_logs : w'.logs ≡ w.logs

  -- The whole welcome was written to the client, but the write of MOTD to the server failed, and
  -- both connections were closed.
  pub record IsUnanswered (id k : ℕ) (w w' : World State) : Type 0 where
    pub closings : List Output
    pub lost :
        w'.out
        ≡ (w.out ++ map (wrote id) (welcome_back w))
          ++ write_failed k (message [] cmd_motd []) ∷ closed id ∷ closings
    pub gone : w'.client.rwc ≡ none
    pub logs_kept : w'.logs ≡ w.logs

  abbrev WelcomeEnd : ℕ → ℕ → World State → World State → Type 0
  WelcomeEnd id k w w' =
      IsBack id k w w' ⊎ (IsCut env id (welcome_back w) w w' ⊎ IsUnanswered id k w w')

  -- The last two steps of the welcome.
  finish_welcome : Proc State Unit
  finish_welcome = do modify adopt_id; sent ← send_server env (message [] cmd_motd []); pure tt

  finish_welcome_lem :
      (id k : ℕ) (w : World State)
      → IsOpen id w
      → w.server.rwc ≡ some k
      → (w' : World State) × (finish_welcome w ≡ some (tt, w'))
        × (((w'.out ≡ w.out ++ wrote k (message [] cmd_motd []) ∷ [])
              × (w'.client.session.client_id ≡ w.server.session.client_id)
              × (w'.logs ≡ w.logs))
            ⊎ ((closings : List Output) × (w'.out
                  ≡ w.out ++ write_failed k (message [] cmd_motd []) ∷ closed id ∷ closings)
                × (w'.client.rwc ≡ none)
                × (w'.logs ≡ w.logs)))
  unfolding finish_welcome ◌>>=◌ modify pure adopt_id set_client_session send_server server_write
  finish_welcome_lem id k w (rwc, chan) server =
      let m = message [] cmd_motd [] in
      elim (Bool-cases (env.writes w.out k m)) [
        | inl ok ↦ (
          server_wrote env m k (adopt_id w),
          ground (arith, ok, server),
          inl (
            unfold server_wrote in refl,
            unfold server_wrote in refl,
            unfold server_wrote in refl,
          ),
        )
        | inr failed ↦ (
          server_failed env m k (adopt_id w),
          ground (arith, failed, server),
          (let w1 = record (adopt_id w) { out = w.out ++ write_failed k m ∷ [] } in
              let (closings, e) = reset_out env id w1 (rwc, chan) in
              inr (
                closings,
                unfold server_failed in
                    (e ∙ append_assoc w.out (write_failed k m ∷ []) (closed id ∷ closings)),
                unfold server_failed reset_world in ground (arith, rwc, chan),
                unfold server_failed reset_world in ground (arith, rwc, chan),
              )),
        )
      ]

  welcome_lem :
      (id k : ℕ) (w : World State)
      → IsOpen id w
      → w.server.rwc ≡ some k
      → (w' : World State) × (welcome env w ≡ some (tt, w')) × WelcomeEnd id k w w'
  unfolding welcome finish_welcome gets pure
  welcome_lem id k w is_open server =
      let f = λ (sent : Bool). if sent then finish_welcome else pure tt in
      let g = λ (ms : List Message). send_each env ms >>= f in
      elim (send_each_lem env id (welcome_back w) w is_open (welcome_back-IsIndexable w)) [
        | inl (w1, runs, a) ↦
            let (w', last, out) =
              finish_welcome_lem id k w1 a.still_open
                (ap (λ (c : Connection). c.rwc) a.same_server ∙ server) in
            (
              w',
              bind_runs (gets welcome_back) g w refl
                  (bind_runs (send_each env (welcome_back w)) f w runs last),
              elim out [
                | inl (written, known, same_logs) ↦ inl (record {
                  written =
                      written
                      ∙ ap (λ (o : List Output). o ++ wrote k (message [] cmd_motd []) ∷ [])
                          a.written;
                  known = known ∙ ap (λ (c : Connection). c.session.client_id) a.same_server;
                  same_logs = same_logs ∙ a.same_logs;
                })
                | inr (closings, lost, gone, same_logs) ↦ inr (
                    inr (record {
                      closings = closings;
                      lost =
                          lost
                          ∙ ap
                              (λ (o : List Output).
                                o ++ write_failed k (message [] cmd_motd []) ∷ closed id ∷ closings)
                              a.written;
                      gone = gone;
                      logs_kept = same_logs ∙ a.same_logs;
                    }))
              ],
            )
        | inr (w1, runs, cut) ↦ (
          w1,
          bind_runs (gets welcome_back) g w refl
              (bind_runs (send_each env (welcome_back w)) f w runs refl),
          inr (inl cut),
        )
      ]

  welcome_if_wanted_runs :
      (m : Message) (w : World State) {r : Option (Unit {0} × World State)}
      → validate m ≡ none
      → one_of m.command (cmd_pass ∷ cmd_user ∷ cmd_nick ∷ []) ≡ true
      → wants_welcome (Handshake.update_from_client m w.client.session.handshake) ≡ true
      → done w.server.session.handshake ≡ true
      → w.have_msg_cache ≡ true
      → welcome env (set_client_session (update_from_client m) w) ≡ r
      → handle_client_event env (some m) w ≡ r
  unfolding handle_client_event handle_message handle_valid handle_handshake_message
      welcome_if_wanted wants_welcome done ◌>>=◌ modify gets set_client_session update_from_client
      one_of
  welcome_if_wanted_runs m w valid shakes wants d cached runs =
      ground (arith, valid, shakes, wants, d, cached, runs)

  pub client_returns :
      (id k now : ℕ) (m : Message) (w : World State)
      → IsOpen id w
      → w.server.rwc ≡ some k
      → validate m ≡ none
      → one_of m.command (cmd_pass ∷ cmd_user ∷ cmd_nick ∷ []) ≡ true
      → wants_welcome (Handshake.update_from_client m w.client.session.handshake) ≡ true
      → done w.server.session.handshake ≡ true
      → w.have_msg_cache ≡ true
      → (w' : World State) × (handle_event env (from_client (some m) now) w ≡ some (tt, w'))
        × (IsBack id k w w' ⊎ (IsCut env id (welcome_back w) w w' ⊎ IsUnanswered id k w w'))
  unfolding handle_event ◌>>=◌ modify set_client update_deadlines set_client_session welcome_back
  client_returns id k now m w is_open server valid shakes wants d cached =
      let w1 = set_client (update_deadlines now) w in
      let (w', runs, out) =
        welcome_lem id k (set_client_session (update_from_client m) w1) is_open server in
      (
        w',
        welcome_if_wanted_runs m w1 valid shakes wants d cached runs,
        elim out [
          | inl b ↦ inl (record { written = b.written; known = b.known; same_logs = b.same_logs })
          | inr (inl c) ↦ inr (
              inl (record {
                sent = c.sent;
                missed = c.missed;
                unsent = c.unsent;
                split = c.split;
                closings = c.closings;
                written = c.written;
                gone = c.gone;
                same_logs = c.same_logs;
              }))
          | inr (inr u) ↦ inr (
              inr (record {
                closings = u.closings;
                lost = u.lost;
                gone = u.gone;
                logs_kept = u.logs_kept;
              }))
        ],
      )
