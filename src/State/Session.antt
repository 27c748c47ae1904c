-- ===== src/State/Session.antt =====
-- proxy/state/channel.go (`mapChannelStates`) and proxy/state/session.go.
pub mod Effects
pub mod Total
pub mod Kick
pub mod Valid
pub mod Nobody
use irc_idler.Prelude.{
  ℕ, zero, suc, List, [], ◌∷◌, Bytes, bytes_eq, one_of, ◌==◌, ◌||◌, Bool, true, false, Option, none,
  some, get_elem?, if◌then◌else◌, is_some,
}
use irc_idler.Prelude.Maybe.{◌>>=◌}
use irc_idler.Prelude.Dict.{Dict, lookup, insert, delete}
use irc_idler.Irc.Message.{Message}
use irc_idler.Irc.ClientId.{ClientId, Parsed, ok, err, parse_client_id, no_client}
use irc_idler.Irc.Codes.{rpl_topic, rpl_namereply, cmd_join, cmd_part, cmd_kick, cmd_quit, cmd_nick}
use irc_idler.State.Handshake
use irc_idler.State.Handshake.{Handshake}
use irc_idler.State.Channel
use irc_idler.State.Channel.{ChannelState, new_channel_state}

abbrev pub Channels : Type 0
Channels = Dict ChannelState

unfoldable pub have_channel : Bytes → Channels → Bool
have_channel name cs = is_some (lookup name cs)

channel_or_new : Option ChannelState → ChannelState
channel_or_new none = new_channel_state []
channel_or_new (some s) = s

-- `GetChannel` returns a pointer into the map, to an entry that it makes if there is none: here the
-- entry, and the map with a new value written through the pointer.
unfoldable pub get_channel : Bytes → Channels → ChannelState
unfolding channel_or_new
get_channel name cs = channel_or_new (lookup name cs)

unfoldable pub put_channel : Bytes → ChannelState → Channels → Channels
put_channel = insert

-- `GetChannel(name).UpdateFromServer(msg)`.
update_channel : Message → Bytes → Channels → Option Channels
update_channel m name cs = do
  s ← Channel.update_from_server m (get_channel name cs)
  some (put_channel name s cs)

-- `for _, channel := range s.channels`: the rounds do not depend on one another.
update_all : Message → Channels → Option Channels
update_all m [] = some []
update_all m ((name, s) ∷ cs) = do
  s' ← Channel.update_from_server m s
  rest ← update_all m cs
  some ((name, s') ∷ rest)

unfoldable pub update_channels : Message → Channels → Option Channels
unfolding update_channel update_all
update_channels m cs =
    if one_of m.command (cmd_kick ∷ cmd_part ∷ cmd_join ∷ [])
    then (do name ← get_elem? m.params 0; update_channel m name cs)
    else if bytes_eq m.command rpl_topic
    then (do
      name ← get_elem? m.params 1
      topic ← get_elem? m.params 2
      some (put_channel name (record (get_channel name cs) { topic = topic }) cs))
    else if bytes_eq m.command rpl_namereply
    then (do name ← get_elem? m.params 2; update_channel m name cs)
    else if one_of m.command (cmd_nick ∷ cmd_quit ∷ [])
    then update_all m cs
    else some cs

pub record Session : Type 0 where
  pub client_id : ClientId
  pub handshake : Handshake
  pub channels : Channels

abbrev pub new_session : Session
new_session = record { client_id = no_client; handshake = Handshake.fresh; channels = [] }

same_nick : Bytes → Parsed → Bool
same_nick nick (ok id) = bytes_eq id.nick nick
same_nick nick (err e) = false

unfoldable pub is_me : Bytes → Session → Bool
unfolding same_nick
is_me prefix s = same_nick s.client_id.nick (parse_client_id prefix)

unfoldable pub update_from_client : Message → Session → Session
update_from_client m s = record s { handshake = Handshake.update_from_client m s.handshake }

-- What a message from ourselves changes.
update_own : Message → Session → Option Session
update_own m s =
    if one_of m.command (cmd_kick ∷ cmd_part ∷ [])
    then (do name ← get_elem? m.params 0; some (record s { channels = delete name s.channels }))
    else if bytes_eq m.command cmd_nick
    then (do
      nick ← get_elem? m.params 0
      some (record s { client_id = record (s.client_id) { nick = nick } }))
    else some s

-- The session behind the updates of its handshake and its channels.
tracked : Message → Session → Channels → Session
tracked m s cs = record s { handshake = Handshake.update_from_server m s.handshake; channels = cs }

finish_update : Message → Session → Option Session
finish_update m s = if is_me m.prefix s then update_own m s else some s

unfoldable pub update_from_server : Message → Session → Option Session
unfolding update_own update_channels tracked finish_update
update_from_server m s = do cs ← update_channels m s.channels; finish_update m (tracked m s cs)
