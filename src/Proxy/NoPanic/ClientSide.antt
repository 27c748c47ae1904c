-- ===== src/Proxy/NoPanic/ClientSide.antt =====
-- The client's handlers, by the rules of Completes.
use irc_idler.Prelude.{
  ◌<◌, Bytes, bytes_eq, bytes_eq_iff, List, [], ◌∷◌, All, true, false, Option, none, some, ◌≡◌,
  refl, arith, length,
}
use irc_idler.Irc.Message.{Message}
use irc_idler.Irc.Validate.{validate}
use irc_idler.Irc.Codes.{cmd_join}
use irc_idler.State.Session.Total.{IsIndexable}
use irc_idler.State.Session.Valid.{valid_length, min_params_known}
use irc_idler.State.Session.{update_from_client}
use irc_idler.Storage.Laws.{StoreLaws}
use irc_idler.Proxy.World.{Env, World, modify}
use irc_idler.Proxy.World.Completes.{
  Completes, Completes-bind, Completes-pure, Completes-gets, Completes-either, Completes-if,
  Completes-modify, Completes-param, Completes-gets_then,
}
use irc_idler.Proxy.Client
use irc_idler.Proxy.NoPanic.Steps.{
  IsFine, send_client-Completes, send_server-Completes, drop_client-Completes, reset-Completes,
}
use irc_idler.Proxy.NoPanic.Logs.{replay_log-Completes}
use irc_idler.Proxy.NoPanic.Messages.{
  pong-IsIndexable, join-IsIndexable, topic-IsIndexable, names-IsIndexable, endofnames-IsIndexable,
  welcome_back-IsIndexable, validate_complaint,
}

-- A valid JOIN has a parameter.
valid_join :
    (m : Message) → validate m ≡ none → bytes_eq m.command cmd_join ≡ true → 0 < length m.params
valid_join m e joins =
    let long = valid_length m e in
    let (topic, names, join, nick) = min_params_known in
    ground (arith, long, join, bytes_eq_iff m.command cmd_join)

module _ (env : Env) (laws : StoreLaws env.store) where
  open env.store use {State}

  abbrev Fine : World State → Type 0
  Fine = IsFine env laws

  send_each-Completes :
      (ms : List Message) → All IsIndexable ms → Completes Fine (Client.send_each env ms)
  unfolding Client.send_each
  send_each-Completes [] ok = Completes-pure true
  send_each-Completes (m ∷ ms) (first, others) =
      Completes-bind _ _ (send_client-Completes env laws m first)
        (λ sent. Completes-either sent _ _ (send_each-Completes ms others) (Completes-pure false))

  adopt_id-Completes : Completes Fine (modify {L = State} Client.adopt_id)
  unfolding Client.adopt_id
  adopt_id-Completes = Completes-modify _ (λ w h. h)

  welcome-Completes : Completes Fine (Client.welcome env)
  unfolding Client.welcome
  welcome-Completes = Completes-gets_then Client.welcome_back _ (λ w.
      Completes-bind _ _ (send_each-Completes (Client.welcome_back w) (welcome_back-IsIndexable w))
        (λ sent.
          Completes-either sent _ _
            (Completes-bind _ _ adopt_id-Completes (λ _.
              Completes-bind _ _ (send_server-Completes env laws _) (λ sent'. Completes-pure tt)))
            (Completes-pure tt)))

  welcome_if_wanted-Completes : (w : World State) → Completes Fine (Client.welcome_if_wanted env w)
  unfolding Client.welcome_if_wanted
  welcome_if_wanted-Completes w =
      Completes-either _ _ _ (Completes-either _ _ _ welcome-Completes (reset-Completes env laws))
        (Completes-pure tt)

  handle_handshake_message-Completes :
      (m : Message) → Completes Fine (Client.handle_handshake_message env m)
  unfolding Client.handle_handshake_message
  handle_handshake_message-Completes m = Completes-bind _ _ (Completes-gets (λ w. w)) (λ w.
      Completes-either _ _ _ (Completes-pure tt) (
        Completes-either _ _ _
          (Completes-bind _ _ (send_server-Completes env laws m) (λ sent. Completes-pure tt))
          (welcome_if_wanted-Completes w)))

  add_client_user-Completes :
      (name nick : Bytes) → Completes Fine (modify {L = State} (Client.add_client_user name nick))
  unfolding Client.add_client_user
  add_client_user-Completes name nick = Completes-modify _ (λ w h. h)

  touch_client-Completes :
      (name : Bytes) → Completes Fine (modify {L = State} (Client.touch_client name))
  unfolding Client.touch_client
  touch_client-Completes name = Completes-modify _ (λ w h. h)

  touch_pre_log-Completes :
      (name : Bytes) → Completes Fine (modify {L = State} (Client.touch_pre_log name))
  unfolding Client.touch_pre_log
  touch_pre_log-Completes name = Completes-modify _ (λ w h. h)

  send_names-Completes :
      (name me : Bytes) (nicks : List Bytes) → Completes Fine (Client.send_names env name me nicks)
  unfolding Client.send_names
  send_names-Completes name me [] = Completes-pure true
  send_names-Completes name me (nick ∷ nicks) = Completes-bind _ _ (Completes-gets (λ w. w)) (λ w.
      Completes-bind _ _ (send_client-Completes env laws _ (names-IsIndexable _ _ _ _ _)) (λ sent.
        Completes-either sent _ _
          (Completes-bind _ _ (add_client_user-Completes name nick)
            (λ _. send_names-Completes name me nicks))
          (Completes-pure false)))

  send_topic-Completes : (name : Bytes) → Completes Fine (Client.send_topic env name)
  unfolding Client.send_topic
  send_topic-Completes name = Completes-bind _ _ (Completes-gets (λ w. w)) (λ w.
      Completes-either _ _ _ (Completes-pure true)
        (send_client-Completes env laws _ (topic-IsIndexable _ _ _ _)))

  send_roster-Completes : (name : Bytes) → Completes Fine (Client.send_roster env name)
  unfolding Client.send_roster
  send_roster-Completes name = Completes-bind _ _ (touch_client-Completes name) (λ _.
      Completes-bind _ _ (Completes-gets (λ w. w)) (λ w.
        Completes-bind _ _ (send_names-Completes name _ _) (λ listed.
          Completes-either listed _ _
            (Completes-bind _ _ (send_client-Completes env laws _ (endofnames-IsIndexable _ _))
              (λ sent.
                Completes-either sent _ _ (replay_log-Completes env laws name) (Completes-pure tt)))
            (Completes-pure tt))))

  rejoin_channel-Completes : (name : Bytes) → Completes Fine (Client.rejoin_channel env name)
  unfolding Client.rejoin_channel
  rejoin_channel-Completes name = Completes-bind _ _ (touch_pre_log-Completes name) (λ _.
      Completes-bind _ _ (Completes-gets (λ w. w)) (λ w.
        Completes-bind _ _ (send_client-Completes env laws _ (join-IsIndexable _ name)) (λ joined.
          Completes-either joined _ _
            (Completes-bind _ _ (send_topic-Completes name)
              (λ told. Completes-either told _ _ (send_roster-Completes name) (Completes-pure tt)))
            (Completes-pure tt))))

  handle_join-Completes :
      (m : Message) → 0 < length m.params → Completes Fine (Client.handle_join env m)
  unfolding Client.handle_join
  handle_join-Completes m long = Completes-bind _ _ (Completes-param m 0 long) (λ name.
      Completes-bind _ _ (Completes-gets (λ w. w)) (λ w.
        Completes-either _ _ _ (Completes-pure tt) (
          Completes-either _ _ _ (rejoin_channel-Completes name)
            (Completes-bind _ _ (send_server-Completes env laws m) (λ sent. Completes-pure tt)))))

  handle_command-Completes :
      (m : Message)
      → (bytes_eq m.command cmd_join ≡ true → 0 < length m.params)
      → Completes Fine (Client.handle_command env m)
  unfolding Client.handle_command
  handle_command-Completes m long =
      Completes-either _ _ _
        (Completes-bind _ _ (send_client-Completes env laws _ (pong-IsIndexable [] m.params))
          (λ sent. Completes-pure tt))
        (Completes-either _ _ _ (Completes-pure tt) (
          Completes-either _ _ _ (drop_client-Completes env laws) (
            Completes-if (bytes_eq m.command cmd_join) _ _
              (λ joins. handle_join-Completes m (long joins))
              (λ other.
                Completes-bind _ _ (send_server-Completes env laws m)
                  (λ sent. Completes-pure tt)))))

  track_client-Completes :
      (m : Message)
      → Completes Fine (modify {L = State} (Client.set_client_session (update_from_client m)))
  unfolding Client.set_client_session
  track_client-Completes m = Completes-modify _ (λ w h. h)

  handle_valid-Completes :
      (m : Message)
      → (bytes_eq m.command cmd_join ≡ true → 0 < length m.params)
      → Completes Fine (Client.handle_valid env m)
  unfolding Client.handle_valid
  handle_valid-Completes m long = Completes-bind _ _ (track_client-Completes m) (λ _.
      Completes-bind _ _ (Completes-gets (λ w. w)) (λ w.
        Completes-either _ _ _ (handle_command-Completes m long)
          (handle_handshake_message-Completes m)))

  client_message-Completes :
      (m : Message) (o : Option Message)
      → validate m ≡ o
      → Completes Fine (Client.handle_message env m o)
  unfolding Client.handle_message
  client_message-Completes m none e = handle_valid-Completes m (valid_join m e)
  client_message-Completes m (some complaint) e =
      Completes-bind _ _ (send_client-Completes env laws complaint (validate_complaint m e))
        (λ sent. drop_client-Completes env laws)

  -- Whatever the client sends, its handler does not panic.
  pub handle_client_event-Completes :
      (o : Option Message) → Completes Fine (Client.handle_client_event env o)
  unfolding Client.handle_client_event
  handle_client_event-Completes none = drop_client-Completes env laws
  handle_client_event-Completes (some m) = client_message-Completes m (validate m) refl
