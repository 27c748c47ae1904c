-- ===== src/Proxy/Client.antt =====
-- `handleClientEvent`, `handleHandshakeMessage` and `rejoinChannel`.
use irc_idler.Prelude.{
  List, [], ◌∷◌, ◌++◌, Bytes, bytes, bytes_eq, one_of, Bool, true, false, Option, none, some, not,
  if◌then◌else◌,
}
use irc_idler.Irc.Message.{Message}
use irc_idler.Irc.Validate.{validate}
use irc_idler.Irc.ClientId.{to_string}
use irc_idler.Irc.Codes.{
  rpl_welcome, rpl_yourhost, rpl_created, rpl_myinfo, rpl_topic, rpl_namereply, rpl_endofnames,
  cmd_pass, cmd_user, cmd_nick, cmd_ping, cmd_pong, cmd_quit, cmd_join, cmd_motd,
}
use irc_idler.State.Handshake.{done, wants_welcome}
use irc_idler.State.Channel.{users, add_user}
use irc_idler.State.Session.{Session, have_channel, get_channel, put_channel, update_from_client}
use irc_idler.Proxy.World.{Env, World, Proc, ◌>>=◌, ◌>>◌, pure, gets, modify, param}
use irc_idler.Proxy.Link.{send_client, send_server, drop_client, reset}
use irc_idler.Proxy.Log.{replay_log}

abbrev pub message : Bytes → Bytes → List Bytes → Message
message prefix command params = record { prefix = prefix; command = command; params = params }

-- `GetChannel` on a session makes the channel if it is missing.
unfoldable pub touch : Bytes → Session → Session
touch name s = record s { channels = put_channel name (get_channel name s.channels) s.channels }

module _ {L : Type 0} where
  -- The welcome sequence for a client that comes back, from what the server once sent.
  unfoldable pub welcome_back : World L → List Message
  welcome_back w =
      let id = w.server.session.client_id in
      message w.server_prefix rpl_welcome
        (id.nick ∷ (bytes "Welcome back to IRC Idler, " ++ to_string id) ∷ [])
      ∷ message w.server_prefix rpl_yourhost (id.nick ∷ w.yourhost ∷ [])
      ∷ message w.server_prefix rpl_created (id.nick ∷ w.created ∷ [])
      ∷ message w.server_prefix rpl_myinfo (id.nick ∷ w.myinfo)
      ∷ []

  unfoldable pub set_client_session : (Session → Session) → World L → World L
  set_client_session f w = record w { client = record (w.client) { session = f w.client.session } }

  -- `p.client.Session.ClientID = p.server.Session.ClientID`.
  unfoldable pub adopt_id : World L → World L
  unfolding set_client_session
  adopt_id w = set_client_session (λ s. record s { client_id = w.server.session.client_id }) w

  unfoldable pub touch_client : Bytes → World L → World L
  unfolding set_client_session touch
  touch_client name w = set_client_session (touch name) w

  unfoldable pub touch_pre_log : Bytes → World L → World L
  unfolding touch
  touch_pre_log name w = record w { pre_log = touch name w.pre_log }

  -- `clientState.AddUser(nick)`.
  unfoldable pub add_client_user : Bytes → Bytes → World L → World L
  unfolding set_client_session
  add_client_user name nick w =
      set_client_session
        (λ s. record s {
          channels = put_channel name (add_user nick (get_channel name s.channels)) s.channels;
        })
        w

module _ (env : Env) where
  open env.store use {State}

  -- Sends until one fails; `true` if none did.
  unfoldable pub send_each : List Message → Proc State Bool
  send_each [] = pure true
  send_each (m ∷ ms) = do sent ← send_client env m; if sent then send_each ms else pure false

  unfoldable pub welcome : Proc State Unit
  unfolding send_each welcome_back adopt_id
  welcome = do
    messages ← gets welcome_back
    sent ← send_each messages
    if sent
        then (do modify adopt_id; sent' ← send_server env (message [] cmd_motd []); pure tt)
        else pure tt

  -- The server thinks that the handshake is done: it sends no welcome any more.
  unfoldable pub welcome_if_wanted : World State → Proc State Unit
  unfolding welcome
  welcome_if_wanted w =
      if wants_welcome w.client.session.handshake
      then (if w.have_msg_cache then welcome else reset)
      else pure tt

  unfoldable pub handle_handshake_message : Message → Proc State Unit
  unfolding welcome_if_wanted
  handle_handshake_message m = do
    w ← gets (λ w. w)
    if not (one_of m.command (cmd_pass ∷ cmd_user ∷ cmd_nick ∷ []))
        then pure tt
        else if not (done w.server.session.handshake)
        then (do sent ← send_server env m; pure tt)
        else welcome_if_wanted w

  -- One `RPL_NAMEREPLY` for each name; `true` if all were sent.
  unfoldable pub send_names : Bytes → Bytes → List Bytes → Proc State Bool
  send_names name me [] = pure true
  send_names name me (nick ∷ nicks) = do
    w ← gets (λ w. w)
    sent ←
        send_client env (message w.server_prefix rpl_namereply (me ∷ bytes "=" ∷ name ∷ nick ∷ []))
    if sent then (do modify (add_client_user name nick); send_names name me nicks) else pure false

  -- The topic, if there is one.
  unfoldable pub send_topic : Bytes → Proc State Bool
  send_topic name = do
    w ← gets (λ w. w)
    let topic = (get_channel name w.pre_log.channels).topic
    if bytes_eq topic []
        then pure true
        else send_client env (
            message w.server_prefix rpl_topic
              (to_string w.client.session.client_id ∷ name ∷ topic ∷ []))

  -- The names, and the log behind them.
  unfoldable pub send_roster : Bytes → Proc State Unit
  unfolding send_names
  send_roster name = do
    modify (touch_client name)
    w ← gets (λ w. w)
    let me = w.server.session.client_id.nick
    listed ← send_names name me (env.order w.out (users (get_channel name w.pre_log.channels)))
    if listed
        then (do
          sent ←
              send_client env (
                message w.server_prefix rpl_endofnames (me ∷ name ∷ bytes "End of NAMES list" ∷ []))
          if sent then replay_log env name else pure tt)
        else pure tt

  -- `rejoinChannel(name, p.preLogSession.GetChannel(name))`. The pointer stays in the map, so what
  -- it points to is read from there.
  unfoldable pub rejoin_channel : Bytes → Proc State Unit
  unfolding send_topic send_roster
  rejoin_channel name = do
    modify (touch_pre_log name)
    w ← gets (λ w. w)
    joined ← send_client env (message (to_string w.client.session.client_id) cmd_join (name ∷ []))
    if joined
        then (do told ← send_topic name; if told then send_roster name else pure tt)
        else pure tt

  unfoldable pub handle_join : Message → Proc State Unit
  unfolding rejoin_channel
  handle_join m = do
    name ← param m 0
    w ← gets (λ w. w)
    if have_channel name w.client.session.channels
        then pure tt
        else if have_channel name w.server.session.channels
        then rejoin_channel name
        else (do sent ← send_server env m; pure tt)

  -- The switch on a message of a client that is through its handshake.
  unfoldable pub handle_command : Message → Proc State Unit
  unfolding handle_join
  handle_command m =
      if bytes_eq m.command cmd_ping
      then (do sent ← send_client env (message [] cmd_pong m.params); pure tt)
      else if bytes_eq m.command cmd_pong
      then pure tt
      else if bytes_eq m.command cmd_quit
      then drop_client
      else if bytes_eq m.command cmd_join
      then handle_join m
      else (do sent ← send_server env m; pure tt)

  unfoldable pub handle_valid : Message → Proc State Unit
  unfolding handle_handshake_message handle_command
  handle_valid m = do
    modify (set_client_session (update_from_client m))
    w ← gets (λ w. w)
    if done w.client.session.handshake then handle_command m else handle_handshake_message m

  unfoldable pub handle_message : Message → Option Message → Proc State Unit
  unfolding handle_valid
  handle_message m none = handle_valid m
  handle_message m (some complaint) = do sent ← send_client env complaint; drop_client

  -- `handleClientEvent(msg, ok)`: there is no message if the receive failed.
  unfoldable pub handle_client_event : Option Message → Proc State Unit
  unfolding handle_message
  handle_client_event none = drop_client
  handle_client_event (some m) = handle_message m (validate m)
