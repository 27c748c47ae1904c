-- ===== src/Proxy/Tests.antt =====
-- A session with the in-memory store.
use irc_idler.Prelude.{[], ◌∷◌, bytes, bytes_eq, one_of, true, Option, none, some, ◌≡◌, refl}
use irc_idler.Prelude.Dict.{lookup, insert}
use irc_idler.Irc.Message.{Message}
use irc_idler.Irc.Validate.{validate}
use irc_idler.Irc.ClientId.{parse_client_id}
use irc_idler.Storage.Ephemeral.{ephemeral, new_store}
use irc_idler.State.Handshake.{done}
use irc_idler.Proxy.Link.{drop_client, setup, send_client}
use irc_idler.Proxy.Server.{handle_server_event, track_server, forward}
use irc_idler.Irc.Validate.{min_params}
use irc_idler.State.Session.{is_me, put_channel}
use irc_idler.State.Channel
use irc_idler.Proxy.World.{◌>>=◌, gets, modify, pure, Env, World}
use irc_idler.Proxy.Run.{from_server, client_conn, handle_event, new_proxy, Reachable, start, step}
use irc_idler.Proxy.Wired.{IsWired, Reachable-IsWired}
use irc_idler.Proxy.PreLog.{pre_log_stays}
use irc_idler.Irc.Codes.{rpl_topic, cmd_part}
use irc_idler.State.Session.{Session, new_session, have_channel, update_from_server}

-- Every write succeeds, and a map is gone through in the order of its entries.
abbrev calm : Env
calm = record { store = ephemeral; writes = λ done id m. true; order = λ done names. names }

abbrev at_start : World calm.store.State
at_start = new_proxy new_store

accepted : World calm.store.State → Option (Unit {0} × World calm.store.State)
accepted w = handle_event calm (client_conn 1 0 (some 2) 0) w

abbrev or_start : Option (Unit {0} × World calm.store.State) → World calm.store.State
or_start none = at_start
or_start (some (_, w)) = w

abbrev one_client : World calm.store.State
one_client = or_start (accepted at_start)

one_client-Reachable : Reachable calm new_store one_client
unfolding accepted handle_event new_proxy ◌>>=◌ drop_client gets done
one_client-Reachable = step (client_conn 1 0 (some 2) 0) start tt refl

Reachable-IsWired_example : IsWired one_client
Reachable-IsWired_example = Reachable-IsWired calm one_client-Reachable

-- The server tells the topic of a channel, and then that the client left it.
abbrev topic_msg : Message
topic_msg = record {
  prefix = b's' ∷ [];
  command = rpl_topic;
  params = (b'n' ∷ []) ∷ (b'#' ∷ b'c' ∷ []) ∷ (b't' ∷ []) ∷ [];
}

abbrev part_msg : Message
part_msg = record { prefix = b'n' ∷ []; command = cmd_part; params = (b'#' ∷ b'c' ∷ []) ∷ [] }

abbrev told_topic : World calm.store.State
told_topic = or_start (handle_event calm (from_server (some topic_msg) 1) one_client)

told_topic-Reachable : Reachable calm new_store told_topic
unfolding handle_event accepted ◌>>=◌ drop_client gets done new_proxy setup handle_server_event
    validate bytes_eq bytes min_params one_of track_server update_from_server is_me parse_client_id
    modify send_client pure lookup insert forward
told_topic-Reachable = step (from_server (some topic_msg) 1) one_client-Reachable (2, refl) refl

abbrev or_new : Option Session → Session
or_new none = new_session
or_new (some s) = s

pre_log_stays_example :
    have_channel
      (b'#' ∷ b'c' ∷ [])
      (or_new (update_from_server part_msg told_topic.pre_log)).channels
    ≡ true
unfolding handle_event accepted ◌>>=◌ drop_client gets done new_proxy setup handle_server_event
    validate bytes_eq bytes min_params one_of track_server update_from_server is_me parse_client_id
    modify send_client pure lookup insert forward have_channel put_channel
    Channel.update_from_server
pre_log_stays_example =
    pre_log_stays calm {s' = or_new (update_from_server part_msg told_topic.pre_log)} part_msg
      (b'#' ∷ b'c' ∷ []) told_topic-Reachable refl refl
