-- ===== src/Proxy/Server.antt =====
-- `handleServerEvent`.
use irc_idler.Prelude.{
  List, [], ◌∷◌, Bytes, bytes_eq, one_of, true, Option, none, some, if◌then◌else◌, ◌||◌,
}
use irc_idler.Irc.Message.{Message}
use irc_idler.Irc.Validate.{validate}
use irc_idler.Irc.ClientId.{Parsed, ok, err, parse_client_id, split}
use irc_idler.Irc.Codes.{
  rpl_welcome, rpl_yourhost, rpl_created, rpl_myinfo, rpl_topic, rpl_namereply, rpl_endofnames,
  rpl_motdstart, rpl_motd, rpl_endofmotd, err_nomotd, err_nonicknamegiven, err_erroneusnickname,
  err_nicknameinuse, err_nickcollision, cmd_nick, cmd_ping, cmd_pong, cmd_quit, cmd_join,
  cmd_privmsg, cmd_notice, cmd_kick, cmd_part,
}
use irc_idler.State.Handshake.{done}
use irc_idler.State.Session.{Session, have_channel, is_me, update_from_server}
use irc_idler.Proxy.World.{Env, World, Proc, ◌>>=◌, ◌>>◌, pure, gets, modify, param}
use irc_idler.Proxy.Link.{send_client, send_server, reset}
use irc_idler.Proxy.Log.{replay_log, log_msg}
use irc_idler.Proxy.Client.{message, set_client_session}

module _ {L : Type 0} where
  unfoldable pub set_server_session : (Session → Session) → World L → World L
  set_server_session f w = record w { server = record (w.server) { session = f w.server.session } }

  unfoldable pub tracked_as : Option Session → Proc L Unit
  tracked_as none w = none
  tracked_as (some s) w = some (tt, record w { server = record (w.server) { session = s } })

  -- `p.server.UpdateFromServer(msg)`, which may panic.
  unfoldable pub track_server : Message → Proc L Unit
  unfolding tracked_as
  track_server m w = tracked_as (update_from_server m w.server.session) w

-- The last of the parts, where the code indexes by `len(parts)-1`.
last_part : List Bytes → Bytes
last_part [] = []
last_part (p ∷ []) = p
last_part (p ∷ q ∷ ps) = last_part (q ∷ ps)

tail : List Bytes → List Bytes
tail [] = []
tail (p ∷ ps) = ps

module _ (env : Env) where
  open env.store use {State}

  unfoldable pub forward : Message → Proc State Unit
  forward m = do sent ← send_client env m; pure tt

  unfoldable pub forward_or_log : Message → Proc State Unit
  forward_or_log m = do sent ← send_client env m; if sent then pure tt else log_msg env m

  unfoldable pub adopt_welcome : Message → Parsed → Proc State Unit
  adopt_welcome m (err e) = reset
  adopt_welcome m (ok id) = do
    modify (set_server_session (λ s. record s { client_id = id }))
    sent ← send_client env m
    if sent then modify (set_client_session (λ s. record s { client_id = id })) else pure tt

  unfoldable pub handle_welcome : Message → Proc State Unit
  unfolding adopt_welcome last_part
  handle_welcome m = do
    modify (λ w. record w { server_prefix = m.prefix })
    text ← param m 1
    adopt_welcome m (parse_client_id (last_part (split b' ' text)))

  unfoldable pub handle_yourhost : Message → Proc State Unit
  handle_yourhost m = do text ← param m 1; modify (λ w. record w { yourhost = text }); forward m

  unfoldable pub handle_created : Message → Proc State Unit
  handle_created m = do text ← param m 1; modify (λ w. record w { created = text }); forward m

  -- `msg.Params[1:]` panics only where `Params[0]` would.
  unfoldable pub handle_myinfo : Message → Proc State Unit
  unfolding tail
  handle_myinfo m = do
    first ← param m 0
    modify (λ w. record w { myinfo = tail m.params })
    forward m
    modify (λ w. record w { have_msg_cache = true })

  unfoldable pub handle_endofmotd : Message → Proc State Unit
  handle_endofmotd m = do
    forward m
    w ← gets (λ w. w)
    replay_log env w.client.session.client_id.nick

  unfoldable pub handle_endofnames : Message → Proc State Unit
  handle_endofnames m = do forward m; name ← param m 1; replay_log env name

  unfoldable pub handle_privmsg : Message → Proc State Unit
  handle_privmsg m = do
    target ← param m 0
    w ← gets (λ w. w)
    if have_channel target w.client.session.channels || is_me target w.client.session
        then forward_or_log m
        else log_msg env m

  unfoldable pub handle_roster_change : Message → Proc State Unit
  handle_roster_change m = do
    w ← gets (λ w. w)
    if done w.client.session.handshake then forward_or_log m else log_msg env m

  -- The switch, in the code's order.
  unfoldable pub dispatch : Message → Proc State Unit
  dispatch m =
      if bytes_eq m.command cmd_ping
      then (do sent ← send_server env (message [] cmd_pong m.params); pure tt)
      else if bytes_eq m.command cmd_pong
      then pure tt
      else if one_of m.command (
          rpl_motdstart ∷ rpl_motd ∷ rpl_namereply ∷ rpl_topic ∷ err_nonicknamegiven
          ∷ err_erroneusnickname ∷ err_nicknameinuse ∷ err_nickcollision ∷ [])
      then forward m
      else if bytes_eq m.command rpl_welcome
      then handle_welcome m
      else if bytes_eq m.command rpl_yourhost
      then handle_yourhost m
      else if bytes_eq m.command rpl_created
      then handle_created m
      else if bytes_eq m.command rpl_myinfo
      then handle_myinfo m
      else if one_of m.command (rpl_endofmotd ∷ err_nomotd ∷ [])
      then handle_endofmotd m
      else if bytes_eq m.command rpl_endofnames
      then handle_endofnames m
      else if one_of m.command (cmd_privmsg ∷ cmd_notice ∷ [])
      then handle_privmsg m
      else if one_of m.command (cmd_join ∷ cmd_kick ∷ cmd_part ∷ cmd_quit ∷ cmd_nick ∷ [])
      then handle_roster_change m
      else forward_or_log m

  unfoldable pub handle_message : Message → Option Message → Proc State Unit
  unfolding dispatch
  handle_message m (some complaint) = reset
  handle_message m none = do track_server m; dispatch m

  -- `handleServerEvent(msg, ok)`: there is no message if the receive failed.
  unfoldable pub handle_server_event : Option Message → Proc State Unit
  unfolding handle_message
  handle_server_event none = reset
  handle_server_event (some m) = handle_message m (validate m)
