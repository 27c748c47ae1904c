-- ===== src/Proxy/Handlers/ClientSide.antt =====
-- The client's handlers keep what their steps keep.
use irc_idler.Prelude.{Bytes, List, [], ◌∷◌, All, true, false, Option, none, some, ◌≡◌, refl}
use irc_idler.Irc.Message.{Message}
use irc_idler.Irc.Validate.{validate}
use irc_idler.Proxy.World.{Env, World, modify}
use irc_idler.State.Channel.{add_user}
use irc_idler.State.Session.{get_channel, put_channel}
use irc_idler.Proxy.Client.{set_client_session, touch_pre_log}
use irc_idler.Proxy.World.Keeps.{
  Keeps, Keeps-bind, Keeps-gets, Keeps-pure, Keeps-if, Keeps-modify, Keeps-gets_then, keeps_rules,
}
use irc_idler.Proxy.Link.{send_client, drop_client, reset}
use irc_idler.Proxy.Log.{replay_log}
use irc_idler.Proxy.Client
use irc_idler.Proxy.Stable.{Talk, IsStable}

module _ {ℓ} (env : Env) (talk : Talk) {P : World env.store.State → Type ℓ}
    (h : IsStable env talk P) where
  open env.store use {State}
  open talk use {Told, Asked}

  -- The client's side.
  adopt_id-Keeps : Keeps P (modify {L = State} Client.adopt_id)
  unfolding Client.adopt_id
  adopt_id-Keeps = Keeps-modify _ (λ w.
      h.client_session (λ s. record s { client_id = w.server.session.client_id }) (λ s. refl) w)

  touch_client-Keeps : (name : Bytes) → Keeps P (modify {L = State} (Client.touch_client name))
  unfolding Client.touch_client
  touch_client-Keeps name =
      Keeps-modify _ (h.client_session (Client.touch name) (λ s. unfold Client.touch in refl))

  add_client_user-Keeps :
      (name nick : Bytes) → Keeps P (modify {L = State} (Client.add_client_user name nick))
  unfolding Client.add_client_user
  add_client_user-Keeps name nick = Keeps-modify _ (
      h.client_session
        (λ s. record s {
          channels = put_channel name (add_user nick (get_channel name s.channels)) s.channels;
        })
        (λ s. refl))

  touch_pre_log-Keeps : (name : Bytes) → Keeps P (modify {L = State} (touch_pre_log name))
  touch_pre_log-Keeps name = Keeps-modify _ (h.touches name)

  replays-Keeps : (name : Bytes) → Keeps P (replay_log env name)
  replays-Keeps name = h.replays name

  resets-Keeps : Keeps P (reset {L = State})
  resets-Keeps = h.resets

  drops_client-Keeps : Keeps P (drop_client {L = State})
  drops_client-Keeps = h.drops_client

  ruleset client_rules = (
    keeps_rules, adopt_id-Keeps, touch_client-Keeps, add_client_user-Keeps, touch_pre_log-Keeps,
    replays-Keeps,
  )

  send_each-Keeps : (ms : List Message) → All Told ms → Keeps P (Client.send_each env ms)
  unfolding Client.send_each
  send_each-Keeps [] ok = Keeps-pure true
  send_each-Keeps (m ∷ ms) (first, others) =
      Keeps-bind (send_client env m) _ (h.sends_client m first)
        (λ sent. Keeps-if sent _ _ (send_each-Keeps ms others) (Keeps-pure false))

  welcome-Keeps : Keeps P (Client.welcome env)
  unfolding Client.welcome
  welcome-Keeps = Keeps-gets_then Client.welcome_back _ (λ w.
      Keeps-bind _ _ (send_each-Keeps (Client.welcome_back w) (talk.welcomes w)) (λ sent.
        Keeps-if sent _ _
          (Keeps-bind _ _ adopt_id-Keeps
            (λ _. Keeps-bind _ _ (h.sends_server _ talk.ask_motd) (λ sent'. Keeps-pure tt)))
          (Keeps-pure tt)))

  pub welcome_if_wanted-Keeps : (w : World State) → Keeps P (Client.welcome_if_wanted env w)
  unfolding Client.welcome_if_wanted
  welcome_if_wanted-Keeps w = search (keeps_rules, welcome-Keeps, resets-Keeps) depth 12

  handle_handshake_message-Keeps :
      (m : Message) → Asked m → Keeps P (Client.handle_handshake_message env m)
  unfolding Client.handle_handshake_message
  handle_handshake_message-Keeps m ok =
      search (keeps_rules, welcome_if_wanted-Keeps, h.sends_server) depth 12

  send_names-Keeps :
      (name me : Bytes) (nicks : List Bytes) → Keeps P (Client.send_names env name me nicks)
  unfolding Client.send_names
  send_names-Keeps name me [] = Keeps-pure true
  send_names-Keeps name me (nick ∷ nicks) = Keeps-bind _ _ (Keeps-gets (λ w. w)) (λ w.
      Keeps-bind _ _ (h.sends_client _ (talk.names _ _ _ _)) (λ sent.
        Keeps-if sent _ _
          (Keeps-bind _ _ (add_client_user-Keeps name nick) (λ _. send_names-Keeps name me nicks))
          (Keeps-pure false)))

  send_topic-Keeps : (name : Bytes) → Keeps P (Client.send_topic env name)
  unfolding Client.send_topic
  send_topic-Keeps name =
      Keeps-bind _ _ (Keeps-gets (λ w. w))
        (λ w. Keeps-if _ _ _ (Keeps-pure true) (h.sends_client _ (talk.topic _ _ _ _)))

  send_roster-Keeps : (name : Bytes) → Keeps P (Client.send_roster env name)
  unfolding Client.send_roster
  send_roster-Keeps name =
      search (client_rules, send_names-Keeps, h.sends_client, talk.endofnames) depth 16

  rejoin_channel-Keeps : (name : Bytes) → Keeps P (Client.rejoin_channel env name)
  unfolding Client.rejoin_channel
  rejoin_channel-Keeps name =
      search (client_rules, send_topic-Keeps, send_roster-Keeps, h.sends_client, talk.join) depth 16

  handle_join-Keeps : (m : Message) → Asked m → Keeps P (Client.handle_join env m)
  unfolding Client.handle_join
  handle_join-Keeps m ok = search (client_rules, rejoin_channel-Keeps, h.sends_server) depth 16

  handle_command-Keeps : (m : Message) → Asked m → Keeps P (Client.handle_command env m)
  unfolding Client.handle_command
  handle_command-Keeps m ok =
      search
        (
          client_rules, handle_join-Keeps, h.sends_client, h.sends_server, drops_client-Keeps,
          talk.pong,
        )
        depth 20

  handle_valid-Keeps : (m : Message) → Asked m → Keeps P (Client.handle_valid env m)
  unfolding Client.handle_valid
  handle_valid-Keeps m ok =
      search (client_rules, h.client_speaks, handle_command-Keeps, handle_handshake_message-Keeps)
        depth 12

  pub client_message-Keeps :
      (m : Message) (o : Option Message)
      → validate m ≡ o
      → (o ≡ none → Keeps P (Client.handle_valid env m))
      → Keeps P (Client.handle_message env m o)
  unfolding Client.handle_message
  client_message-Keeps m none e valid = valid refl
  client_message-Keeps m (some complaint) e valid =
      Keeps-bind _ _ (h.sends_client complaint (talk.complaint m e)) (λ sent. drops_client-Keeps)

  pub handle_client_event-Keeps :
      (m : Message) → Asked m → Keeps P (Client.handle_client_event env (some m))
  unfolding Client.handle_client_event
  handle_client_event-Keeps m ok =
      client_message-Keeps m (validate m) refl (λ _. handle_valid-Keeps m ok)

  pub client_end-Keeps : Keeps P (Client.handle_client_event env none)
  unfolding Client.handle_client_event
  client_end-Keeps = h.drops_client
