-- ===== src/State/Channel.antt =====
-- proxy/state/channel.go: one channel's state. An index out of range is a panic, here `none`.
use irc_idler.Prelude.{
  ℕ, List, [], ◌∷◌, Bytes, bytes_eq, one_of, ◌==◌, ◌||◌, Bool, true, false, Option, none, some,
  get_elem?, if◌then◌else◌,
}
use irc_idler.Prelude.Maybe.{◌>>=◌}
use irc_idler.Prelude.Dict.{Dict, lookup, insert, delete, keys}
use irc_idler.Irc.Message.{Message}
use irc_idler.Irc.ClientId.{Parsed, ok, err, parse_client_id, split}
use irc_idler.Irc.Codes.{rpl_namereply, cmd_join, cmd_part, cmd_kick, cmd_quit, cmd_nick}

pub record ChannelState : Type 0 where
  pub topic : Bytes
  pub users : Dict Bool

abbrev pub new_channel_state : Bytes → ChannelState
new_channel_state topic = record { topic = topic; users = [] }

-- `Users`, up to the order in which Go goes through the map.
unfoldable pub users : ChannelState → List Bytes
users s = keys s.users

unfoldable pub add_user : Bytes → ChannelState → ChannelState
add_user nick s = record s { users = insert nick true s.users }

unfoldable pub remove_user : Bytes → ChannelState → ChannelState
remove_user nick s = record s { users = delete nick s.users }

present : Option Bool → Bool
present none = false
present (some b) = b

unfoldable pub have_user : Bytes → ChannelState → Bool
unfolding present
have_user nick s = present (lookup nick s.users)

-- `strings.Trim(user, " \r\n")`.
is_blank : ℕ → Bool
is_blank c = c == 32 || c == 13 || c == 10

trim_left : Bytes → Bytes
unfolding is_blank
trim_left [] = []
trim_left (c ∷ s) = let rest = trim_left s in if is_blank c then rest else c ∷ s

-- A blank is kept only if something that is not blank stands behind it.
keep : ℕ → Bytes → Bytes
unfolding is_blank
keep c [] = if is_blank c then [] else c ∷ []
keep c (d ∷ s) = c ∷ d ∷ s

trim_right : Bytes → Bytes
unfolding keep
trim_right [] = []
trim_right (c ∷ s) = keep c (trim_right s)

unfoldable pub trim : Bytes → Bytes
unfolding trim_left trim_right
trim s = trim_right (trim_left s)

-- The nick of one entry of a names reply: it stays empty where the entry does not parse.
nick_of : Parsed → Bytes
nick_of (ok id) = id.nick
nick_of (err e) = []

unfoldable pub add_users : List Bytes → ChannelState → ChannelState
unfolding nick_of
add_users [] s = s
add_users (entry ∷ entries) s =
    add_users entries (add_user (nick_of (parse_client_id (trim entry))) s)

-- Apply `f` to the nick of a prefix that parses.
with_nick : Parsed → (Bytes → ChannelState → ChannelState) → ChannelState → ChannelState
with_nick (ok id) f s = f id.nick s
with_nick (err e) f s = s

rename : Bytes → Bytes → ChannelState → ChannelState
rename new old s = if have_user old s then add_user new (remove_user old s) else s

unfoldable pub update_from_server : Message → ChannelState → Option ChannelState
unfolding with_nick rename add_users
update_from_server m s =
    if bytes_eq m.command cmd_join
    then some (with_nick (parse_client_id m.prefix) add_user s)
    else if one_of m.command (cmd_part ∷ cmd_kick ∷ cmd_quit ∷ [])
    then some (with_nick (parse_client_id m.prefix) remove_user s)
    else if bytes_eq m.command rpl_namereply
    then (do entries ← get_elem? m.params 3; some (add_users (split 32 entries) s))
    else if bytes_eq m.command cmd_nick
    then (do
      new_nick ← get_elem? m.params 0
      some (with_nick (parse_client_id m.prefix) (rename new_nick) s))
    else some s
