-- ===== src/Proxy/Leaving.antt =====
-- A client that leaves, and a server that does.
use mathlib.Core.Path.{subst}
use irc_idler.Prelude.{
  ℕ, [], ◌∷◌, ◌++◌, append_assoc, ◌⊎◌, inl, inr, Bytes, bytes, bytes_eq, true, false, Option, none,
  some, ◌≡◌, refl, sym, arith,
}
use irc_idler.Irc.Message.{Message}
use irc_idler.Irc.Validate.{validate}
use irc_idler.Irc.Codes.{cmd_quit}
use irc_idler.State.Handshake.{done}
use irc_idler.State.Handshake.Progress.{done-update_from_client}
use irc_idler.State.Session.{update_from_client}
use irc_idler.Proxy.World.{closed, Env, World, ◌>>=◌, modify, gets}
use irc_idler.Proxy.Link.{reset, reset_world, drop_client, drop_client_world, update_deadlines}
use irc_idler.Proxy.Client.{
  handle_client_event, handle_message, handle_valid, handle_command, set_client_session,
}
use irc_idler.Proxy.Run.{
  Event, from_client, from_server, stop, handle_event, set_client, set_server,
}
use irc_idler.Proxy.Server.{handle_server_event}
use irc_idler.Proxy.Wired.{IsWired}

-- What the client's channel gives if the client is leaving: the end of its connection, or a QUIT
-- once its handshake is done.
pub data IsLeaving {L : Type 0} (w : World L) : Option Message → Type 0 where
  lost : IsLeaving w none
  quits :
      (m : Message)
      → m.command ≡ cmd_quit
      → validate m ≡ none
      → done w.client.session.handshake ≡ true
      → IsLeaving w (some m)

-- The client is gone; the server stays as it was if its handshake is done, else it is gone too.
pub record HasLeft {L : Type 0} (w w' : World L) : Type 0 where
  pub client_gone : w'.client.rwc ≡ none
  pub server_stays : done w.server.session.handshake ≡ true → w'.server ≡ w.server
  pub server_leaves : done w.server.session.handshake ≡ false → w'.server.rwc ≡ none
  pub logs_same : w'.logs ≡ w.logs
  pub pre_log_same : w'.pre_log ≡ w.pre_log

module _ {L : Type 0} where
  -- Dropping the client behind changes of its connection alone.
  drop_client_world-HasLeft :
      (w w1 : World L)
      → w1.client.rwc ≡ w1.client.chan
      → w1.server.rwc ≡ w1.server.chan
      → w1.server ≡ w.server
      → w1.logs ≡ w.logs
      → w1.pre_log ≡ w.pre_log
      → HasLeft w (drop_client_world w1)
  unfolding drop_client_world
  drop_client_world-HasLeft w w1 paired server_paired server logs pre_log = record {
    client_gone = ground (arith, paired);
    server_stays = λ d. ground (arith, d, server);
    server_leaves = λ d. ground (arith, d, server, server_paired);
    logs_same = ground (arith, logs);
    pre_log_same = ground (arith, pre_log);
  }

-- Both connections are closed, the client's first, and the logs are as they were.
pub record HasEnded {L : Type 0} (w w' : World L) : Type 0 where
  pub client_gone : w'.client.rwc ≡ none
  pub server_gone : w'.server.rwc ≡ none
  pub logs_same : w'.logs ≡ w.logs
  pub both_closed :
      (c k : ℕ)
      → w.client.rwc ≡ some c
      → w.server.rwc ≡ some k
      → w'.out ≡ w.out ++ closed c ∷ closed k ∷ []

reset_world-HasEnded :
    {L : Type 0} (w w1 : World L)
    → w1.client.rwc ≡ w1.client.chan
    → w1.server.rwc ≡ w1.server.chan
    → w1.client.rwc ≡ w.client.rwc
    → w1.server.rwc ≡ w.server.rwc
    → w1.logs ≡ w.logs
    → w1.out ≡ w.out
    → HasEnded w (reset_world w1)
unfolding reset_world
reset_world-HasEnded w w1 paired server_paired client server logs out = record {
  client_gone = ground (arith, paired);
  server_gone = ground (arith, server_paired);
  logs_same = ground (arith, logs);
  both_closed = λ c k e e'. ground (
    arith,
    paired,
    server_paired,
    client,
    server,
    out,
    e,
    e',
    append_assoc w.out (closed c ∷ []) (closed k ∷ []),
  );
}

module _ (env : Env) where
  open env.store use {State}

  quit_drops :
      (w : World State) (m : Message)
      → m.command ≡ cmd_quit
      → handle_command env m w ≡ some (tt, drop_client_world w)
  unfolding handle_command bytes bytes_eq drop_client modify
  quit_drops w m e =
      subst
        (λ (c : Bytes).
          handle_command env (record m { command = c }) w ≡ some (tt, drop_client_world w))
        (sym e) refl

  -- When the client of a wired daemon leaves, by the end of its connection or by a QUIT after its
  -- handshake, the client is gone, the logs and the session before them are as they were, and the
  -- server's connection stays as it was if its handshake is done, else it is gone too.
  pub client_leaves :
      (w : World State) (o : Option Message) (now : ℕ)
      → IsWired w
      → IsLeaving w o
      → (w' : World State) × (handle_event env (from_client o now) w ≡ some (tt, w')) × HasLeft w w'
  unfolding handle_event handle_client_event handle_message handle_valid ◌>>=◌ modify gets
      drop_client set_client update_deadlines set_client_session update_from_client
  client_leaves w o now h lost =
      let w1 = set_client (update_deadlines now) w in
      (
        drop_client_world w1,
        refl,
        drop_client_world-HasLeft w w1 h.client_paired h.server_paired refl refl refl,
      )
  client_leaves w o now h (quits m quit valid d) =
      let w1 = set_client_session (update_from_client m) (set_client (update_deadlines now) w) in
      (
        drop_client_world w1,
        ground (
          arith,
          valid,
          quit_drops w1 m quit,
          done-update_from_client m w.client.session.handshake d,
        ),
        drop_client_world-HasLeft w w1 h.client_paired h.server_paired refl refl refl,
      )

  abbrev Ends : World State → Event → Type 0
  Ends w e = (w' : World State) × (handle_event env e w ≡ some (tt, w')) × HasEnded w w'

  stop_runs : (w : World State) → handle_event env stop w ≡ some (tt, reset_world w)
  unfolding handle_event reset modify
  stop_runs w = refl

  lost_runs :
      (w : World State) (now : ℕ)
      → handle_event env (from_server none now) w
        ≡ some (tt, reset_world (set_server (update_deadlines now) w))
  unfolding handle_event handle_server_event reset modify ◌>>=◌
  lost_runs w now = refl

  -- When the server of a wired daemon is lost, or the daemon stops, both connections are closed,
  -- the client's first, and the logs are as they were.
  pub server_lost :
      (w : World State) (e : Event)
      → IsWired w
      → (e ≡ stop) ⊎ ((now : ℕ) × (e ≡ from_server none now))
      → (w' : World State) × (handle_event env e w ≡ some (tt, w')) × HasEnded w w'
  unfolding set_server update_deadlines
  server_lost w e h (inl stopped) = subst (Ends w) (sym stopped) (
    reset_world w,
    stop_runs w,
    reset_world-HasEnded w w h.client_paired h.server_paired refl refl refl refl,
  )
  server_lost w e h (inr (now, gone)) =
      let w1 = set_server (update_deadlines now) w in
      subst (Ends w) (sym gone) (
        reset_world w1,
        lost_runs w now,
        reset_world-HasEnded w w1 h.client_paired h.server_paired refl refl refl refl,
      )
