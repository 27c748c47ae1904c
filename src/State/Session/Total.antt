-- ===== src/State/Session/Total.antt =====
-- Which messages a session can take in without an index out of range.
use irc_idler.Prelude.{
  ◌≤◌, [], ◌∷◌, Bytes, bytes_eq, one_of, true, get_elem?, ◌≡◌, refl, arith, length, is_some,
  is_some-get_elem?,
}
use irc_idler.Prelude.Maybe.{is_some-bind}
use irc_idler.Irc.Message.{Message}
use irc_idler.Irc.Codes.{rpl_topic, rpl_namereply, cmd_join, cmd_part, cmd_kick, cmd_nick}
use irc_idler.State.Channel
use irc_idler.State.Channel.{ChannelState}
use irc_idler.State.Session.{
  Session, Channels, get_channel, update_channel, update_all, update_channels, update_own, tracked,
  finish_update, update_from_server,
}

-- The message has each parameter that the updates read.
pub record IsIndexable (m : Message) : Type 0 where
  pub first :
      one_of m.command (cmd_kick ∷ cmd_part ∷ cmd_join ∷ cmd_nick ∷ []) ≡ true → 1 ≤ length m.params
  pub topic : bytes_eq m.command rpl_topic ≡ true → 3 ≤ length m.params
  pub names : bytes_eq m.command rpl_namereply ≡ true → 4 ≤ length m.params

channel_total :
    (m : Message) (s : ChannelState)
    → IsIndexable m
    → is_some (Channel.update_from_server m s) ≡ true
unfolding Channel.update_from_server one_of
channel_total m s h =
    ground (arith, h.first, h.names, is_some-get_elem? m.params 0, is_some-get_elem? m.params 3)

channel_defined :
    (m : Message) (name : Bytes) (cs : Channels)
    → IsIndexable m
    → is_some (update_channel m name cs) ≡ true
unfolding update_channel
channel_defined m name cs h = ground (arith, channel_total m (get_channel name cs) h)

all_defined : (m : Message) (cs : Channels) → IsIndexable m → is_some (update_all m cs) ≡ true
unfolding update_all
all_defined m [] h = refl
all_defined m ((name, s) ∷ cs) h = ground (arith, channel_total m s h, all_defined m cs h)

-- The parameters that the switch of `mapChannelStates` reads.
channels_defined :
    (m : Message) (cs : Channels) → IsIndexable m → is_some (update_channels m cs) ≡ true
unfolding update_channels one_of
channels_defined m cs h = ground (
  arith,
  h.first,
  h.topic,
  h.names,
  is_some-get_elem? m.params 0,
  is_some-get_elem? m.params 1,
  is_some-get_elem? m.params 2,
  all_defined m cs h,
  λ (p : is_some (get_elem? m.params 0) ≡ true).
      is_some-bind (get_elem? m.params 0) (λ name. update_channel m name cs) p
        (λ name. channel_defined m name cs h),
  λ (p : is_some (get_elem? m.params 2) ≡ true).
      is_some-bind (get_elem? m.params 2) (λ name. update_channel m name cs) p
        (λ name. channel_defined m name cs h),
)

own_defined : (m : Message) (s : Session) → IsIndexable m → is_some (update_own m s) ≡ true
unfolding update_own one_of
own_defined m s h = ground (arith, h.first, is_some-get_elem? m.params 0)

finish_defined : (m : Message) (s : Session) → IsIndexable m → is_some (finish_update m s) ≡ true
unfolding finish_update
finish_defined m s h = ground (arith, own_defined m s h)

-- A session takes in every message that has the parameters which its command's updates read.
pub update_from_server_total :
    (m : Message) (s : Session) → IsIndexable m → is_some (update_from_server m s) ≡ true
unfolding update_from_server
update_from_server_total m s h =
    is_some-bind (update_channels m s.channels) (λ cs. finish_update m (tracked m s cs))
      (channels_defined m s.channels h) (λ cs. finish_defined m (tracked m s cs) h)
