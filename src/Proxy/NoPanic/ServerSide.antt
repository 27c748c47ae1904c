-- ===== src/Proxy/NoPanic/ServerSide.antt =====
-- The server's handlers, by the rules of Completes.
use irc_idler.Prelude.{
  ◌≤◌, bytes, bytes_eq, bytes_eq_iff, one_of, [], ◌∷◌, true, Option, none, some, ◌≡◌, refl, arith,
  length,
}
use irc_idler.Irc.Message.{Message}
use irc_idler.Irc.Validate.{validate, min_params}
use irc_idler.Irc.Codes.{
  rpl_welcome, rpl_yourhost, rpl_created, rpl_myinfo, rpl_endofnames, cmd_kick, cmd_part,
  cmd_privmsg, cmd_notice,
}
use irc_idler.Irc.ClientId.{Parsed, ok, err}
use irc_idler.State.Session.Total.{IsIndexable}
use irc_idler.State.Session.Valid.{valid_length, validate-IsIndexable}
use irc_idler.Storage.Laws.{StoreLaws}
use irc_idler.Proxy.World.{Env, World}
use irc_idler.Proxy.World.Completes.{
  Completes, Completes-bind, Completes-pure, Completes-gets, Completes-either, Completes-if,
  Completes-modify, Completes-param,
}
use irc_idler.Proxy.Log
use irc_idler.Proxy.Log.{is_logged}
use irc_idler.Proxy.Server
use irc_idler.Proxy.Client
use irc_idler.Proxy.Sends.{session_taken}
use irc_idler.Proxy.NoPanic.Steps.{
  IsFine, send_client-Completes, send_server-Completes, reset-Completes,
}
use irc_idler.Proxy.NoPanic.Logs.{replay_log-Completes, log_msg-Completes}

-- The parameters that the handlers read.
record IsReadable (m : Message) : Type 0 where
  text :
      one_of m.command (rpl_welcome ∷ rpl_yourhost ∷ rpl_created ∷ []) ≡ true → 2 ≤ length m.params
  info : bytes_eq m.command rpl_myinfo ≡ true → 5 ≤ length m.params
  names : bytes_eq m.command rpl_endofnames ≡ true → 3 ≤ length m.params
  target : one_of m.command (cmd_privmsg ∷ cmd_notice ∷ []) ≡ true → 2 ≤ length m.params

min_params_read :
    (min_params rpl_welcome ≡ 2)
    × (min_params rpl_yourhost ≡ 2)
    × (min_params rpl_created ≡ 2)
    × (min_params rpl_myinfo ≡ 5)
    × (min_params rpl_endofnames ≡ 3)
    × (min_params cmd_privmsg ≡ 2)
    × (min_params cmd_notice ≡ 2)
unfolding min_params one_of bytes bytes_eq
min_params_read = (refl, refl, refl, refl, refl, refl, refl)

valid-IsReadable : (m : Message) → validate m ≡ none → IsReadable m
unfolding one_of
valid-IsReadable m e =
    let long = valid_length m e in
    let (welcome, yourhost, created, myinfo, endofnames, privmsg, notice) = min_params_read in
    record {
      text = ground (
        arith,
        long,
        welcome,
        yourhost,
        created,
        bytes_eq_iff m.command rpl_welcome,
        bytes_eq_iff m.command rpl_yourhost,
        bytes_eq_iff m.command rpl_created,
      );
      info = ground (arith, long, myinfo, bytes_eq_iff m.command rpl_myinfo);
      names = ground (arith, long, endofnames, bytes_eq_iff m.command rpl_endofnames);
      target = ground (
        arith,
        long,
        privmsg,
        notice,
        bytes_eq_iff m.command cmd_privmsg,
        bytes_eq_iff m.command cmd_notice,
      );
    }

logged_long :
    (env : Env) (m : Message)
    → IsIndexable m
    → IsReadable m
    → is_logged env m.command ≡ true
    → 1 ≤ length m.params
unfolding is_logged one_of
logged_long env m h r = ground (arith, h.first, r.target)

module _ (env : Env) (laws : StoreLaws env.store) where
  open env.store use {State}
  open laws use {Storable}

  abbrev Fine : World State → Type 0
  Fine = IsFine env laws

  track_server-Completes :
      (m : Message) → IsIndexable m → Completes Fine (Server.track_server {L = State} m)
  unfolding Server.track_server Server.tracked_as
  track_server-Completes m h = record {
    at = λ w fine. let (s, e) = session_taken m w.server.session h in rw e fine;
  }

  module _ (m : Message) (h : IsIndexable m) (r : IsReadable m) (fits : Storable m) where
    forward-Completes : Completes Fine (Server.forward env m)
    unfolding Server.forward
    forward-Completes =
        Completes-bind _ _ (send_client-Completes env laws m h) (λ sent. Completes-pure tt)

    logs : Completes Fine (Log.log_msg env m)
    logs = log_msg-Completes env laws m h fits (logged_long env m h r)

    forward_or_log-Completes : Completes Fine (Server.forward_or_log env m)
    unfolding Server.forward_or_log
    forward_or_log-Completes =
        Completes-bind _ _ (send_client-Completes env laws m h)
          (λ sent. Completes-either sent _ _ (Completes-pure tt) logs)

    adopt_welcome-Completes : (p : Parsed) → Completes Fine (Server.adopt_welcome env m p)
    unfolding Server.adopt_welcome Server.set_server_session Client.set_client_session
    adopt_welcome-Completes (err e) = reset-Completes env laws
    adopt_welcome-Completes (ok id) = Completes-bind _ _ (Completes-modify _ (λ w fine. fine)) (λ _.
        Completes-bind _ _ (send_client-Completes env laws m h) (λ sent.
          Completes-either sent _ _ (Completes-modify _ (λ w fine. fine)) (Completes-pure tt)))

    handle_welcome-Completes : 2 ≤ length m.params → Completes Fine (Server.handle_welcome env m)
    unfolding Server.handle_welcome
    handle_welcome-Completes long = Completes-bind _ _ (Completes-modify _ (λ w fine. fine)) (λ _.
        Completes-bind _ _ (Completes-param m 1 (omega arith)) (λ text. adopt_welcome-Completes _))

    handle_yourhost-Completes : 2 ≤ length m.params → Completes Fine (Server.handle_yourhost env m)
    unfolding Server.handle_yourhost
    handle_yourhost-Completes long =
        Completes-bind _ _ (Completes-param m 1 (omega arith)) (λ text.
          Completes-bind _ _ (Completes-modify _ (λ w fine. fine)) (λ _. forward-Completes))

    handle_created-Completes : 2 ≤ length m.params → Completes Fine (Server.handle_created env m)
    unfolding Server.handle_created
    handle_created-Completes long =
        Completes-bind _ _ (Completes-param m 1 (omega arith)) (λ text.
          Completes-bind _ _ (Completes-modify _ (λ w fine. fine)) (λ _. forward-Completes))

    handle_myinfo-Completes : 5 ≤ length m.params → Completes Fine (Server.handle_myinfo env m)
    unfolding Server.handle_myinfo
    handle_myinfo-Completes long = Completes-bind _ _ (Completes-param m 0 (omega arith)) (λ first.
        Completes-bind _ _ (Completes-modify _ (λ w fine. fine))
          (λ _. Completes-bind _ _ forward-Completes (λ _. Completes-modify _ (λ w fine. fine))))

    handle_endofmotd-Completes : Completes Fine (Server.handle_endofmotd env m)
    unfolding Server.handle_endofmotd
    handle_endofmotd-Completes =
        Completes-bind _ _ forward-Completes
          (λ _. Completes-bind _ _ (Completes-gets (λ w. w)) (λ w. replay_log-Completes env laws _))

    handle_endofnames-Completes :
        3 ≤ length m.params → Completes Fine (Server.handle_endofnames env m)
    unfolding Server.handle_endofnames
    handle_endofnames-Completes long = Completes-bind _ _ forward-Completes (λ _.
        Completes-bind _ _ (Completes-param m 1 (omega arith))
          (λ name. replay_log-Completes env laws name))

    handle_privmsg-Completes : 2 ≤ length m.params → Completes Fine (Server.handle_privmsg env m)
    unfolding Server.handle_privmsg
    handle_privmsg-Completes long =
        Completes-bind _ _ (Completes-param m 0 (omega arith)) (λ target.
          Completes-bind _ _ (Completes-gets (λ w. w))
            (λ w. Completes-either _ _ _ forward_or_log-Completes logs))

    handle_roster_change-Completes : Completes Fine (Server.handle_roster_change env m)
    unfolding Server.handle_roster_change
    handle_roster_change-Completes =
        Completes-bind _ _ (Completes-gets (λ w. w))
          (λ w. Completes-either _ _ _ forward_or_log-Completes logs)

    dispatch-Completes : Completes Fine (Server.dispatch env m)
    unfolding Server.dispatch
    dispatch-Completes =
        Completes-either _ _ _
          (Completes-bind _ _ (send_server-Completes env laws _) (λ sent. Completes-pure tt))
          (Completes-either _ _ _ (Completes-pure tt) (
            Completes-either _ _ _ forward-Completes (
              Completes-if (bytes_eq m.command rpl_welcome) _ _
                (λ e. handle_welcome-Completes (r.text (unfold one_of in ground (arith, e))))
                (λ _.
                  Completes-if (bytes_eq m.command rpl_yourhost) _ _
                    (λ e. handle_yourhost-Completes (r.text (unfold one_of in ground (arith, e))))
                    (λ _.
                      Completes-if (bytes_eq m.command rpl_created) _ _
                        (λ e.
                          handle_created-Completes (r.text (unfold one_of in ground (arith, e))))
                        (λ _.
                          Completes-if (bytes_eq m.command rpl_myinfo) _ _
                            (λ e. handle_myinfo-Completes (r.info e))
                            (λ _. Completes-either _ _ _ handle_endofmotd-Completes (
                              Completes-if (bytes_eq m.command rpl_endofnames) _ _
                                (λ e. handle_endofnames-Completes (r.names e))
                                (λ _.
                                  Completes-if (one_of m.command (cmd_privmsg ∷ cmd_notice ∷ [])) _
                                    _ (λ e. handle_privmsg-Completes (r.target e))
                                    (λ _.
                                      Completes-either _ _ _ handle_roster_change-Completes
                                        forward_or_log-Completes))))))))))

  server_message-Completes :
      (m : Message) (o : Option Message)
      → validate m ≡ o
      → (one_of m.command (cmd_kick ∷ cmd_part ∷ []) ≡ true → 1 ≤ length m.params)
      → Storable m
      → Completes Fine (Server.handle_message env m o)
  unfolding Server.handle_message
  server_message-Completes m none e asked fits =
      let h = validate-IsIndexable m e asked in
      Completes-bind _ _ (track_server-Completes m h)
        (λ _. dispatch-Completes m h (valid-IsReadable m e) fits)
  server_message-Completes m (some complaint) e asked fits = reset-Completes env laws

  -- The handler does not panic on a message that the store takes, if it is no bare KICK or PART.
  pub handle_server_event-Completes :
      (m : Message)
      → (one_of m.command (cmd_kick ∷ cmd_part ∷ []) ≡ true → 1 ≤ length m.params)
      → Storable m
      → Completes Fine (Server.handle_server_event env (some m))
  unfolding Server.handle_server_event
  handle_server_event-Completes m asked fits =
      server_message-Completes m (validate m) refl asked fits

  pub server_end-Completes : Completes Fine (Server.handle_server_event env none)
  unfolding Server.handle_server_event
  server_end-Completes = reset-Completes env laws
