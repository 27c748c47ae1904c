-- ===== src/Proxy/Pings.antt =====
-- The server's PING is answered by the daemon itself.
use irc_idler.Prelude.{
  ℕ, List, [], ◌∷◌, ◌++◌, Bytes, bytes, bytes_eq, one_of, none, some, ◌≡◌, refl, arith, Bool-cases,
  inl, inr, ◌⊎◌,
}
use irc_idler.Irc.Message.{Message}
use irc_idler.Irc.Validate.{validate}
use irc_idler.Irc.Codes.{cmd_ping, cmd_pong}
use irc_idler.State.Session.{Session}
use irc_idler.State.Session.Total.{IsIndexable}
use irc_idler.Proxy.World.{wrote, Env, World, ◌>>=◌, pure}
use irc_idler.Proxy.Link.{send_server, server_write, server_wrote, server_failed, reset_world}
use irc_idler.Proxy.Client.{message}
use irc_idler.Proxy.Server.{handle_server_event, handle_message, track_server, tracked_as, dispatch}
use irc_idler.Proxy.Sends.{session_taken}

abbrev pub server_ping : Bytes → List Bytes → Message
server_ping prefix params = record { prefix = prefix; command = cmd_ping; params = params }

server_ping-IsIndexable :
    (prefix : Bytes) (params : List Bytes) → IsIndexable (server_ping prefix params)
unfolding one_of bytes bytes_eq
server_ping-IsIndexable prefix params = record {
  first = λ e. cc e;
  topic = λ e. cc e;
  names = λ e. cc e;
}

module _ (env : Env) where
  open env.store use {State}

  -- The answer was written to the server, and neither the client nor the logs have changed.
  pub record IsAnswered (k : ℕ) (params : List Bytes) (w w' : World State) : Type 0 where
    pub written : w'.out ≡ w.out ++ wrote k (message [] cmd_pong params) ∷ []
    pub same_client : w'.client ≡ w.client
    pub same_logs : w'.logs ≡ w.logs

  answer_lem :
      (k : ℕ) (prefix : Bytes) (params : List Bytes) (w : World State) (s : Session)
      → w.server.rwc ≡ some k
      → w.server.chan ≡ some k
      → (w' : World State) × (dispatch env
            (server_ping prefix params)
            (record w { server = record (w.server) { session = s } })
          ≡ some (tt, w'))
        × (IsAnswered k params w w' ⊎ (w'.server.rwc ≡ none))
  unfolding dispatch bytes_eq bytes ◌>>=◌ pure send_server server_write
  answer_lem k prefix params w s rwc chan =
      let m = message [] cmd_pong params in
      let w1 = record w { server = record (w.server) { session = s } } in
      elim (Bool-cases (env.writes w.out k m)) [
        | inl ok ↦ (
          server_wrote env m k w1,
          ground (arith, ok, rwc),
          inl (
              unfold server_wrote in
              record { written = refl; same_client = refl; same_logs = refl }),
        )
        | inr failed ↦ (
          server_failed env m k w1,
          ground (arith, failed, rwc),
          inr (unfold server_failed reset_world in ground (arith, rwc, chan)),
        )
      ]

  -- A valid PING of the connected server is answered with a PONG of the same parameters, and
  -- neither the client nor the logs change; or the write of the answer failed, and the server is
  -- dropped.
  pub handle_server_event-ping :
      (k : ℕ) (prefix : Bytes) (params : List Bytes) (w : World State)
      → w.server.rwc ≡ some k
      → w.server.chan ≡ some k
      → validate (server_ping prefix params) ≡ none
      → (w' : World State) × (handle_server_event env (some (server_ping prefix params)) w
          ≡ some (tt, w'))
        × (IsAnswered k params w w' ⊎ (w'.server.rwc ≡ none))
  unfolding handle_server_event handle_message track_server tracked_as ◌>>=◌
  handle_server_event-ping k prefix params w rwc chan valid =
      let (s, e) =
        session_taken (server_ping prefix params) w.server.session
          (server_ping-IsIndexable prefix params) in
      let (w', runs, out) = answer_lem k prefix params w s rwc chan in
      (w', ground (arith, valid, e, runs), out)
