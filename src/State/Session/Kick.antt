-- ===== src/State/Session/Kick.antt =====
-- A KICK names its victim in the second parameter; the updates look at the prefix.
use irc_idler.Prelude.{
  List, ◌∷◌, Bytes, bytes, bytes_eq, one_of, true, some, ◌≡◌, arith, Option-cases, inl, inr, not,
  bytes_eq_refl,
}
use irc_idler.Prelude.Dict.{lookup-insert, lookup-delete}
use irc_idler.Prelude.Maybe.{>>=-eq-some}
use irc_idler.State.Session.Total.{IsIndexable, update_from_server_total}
use irc_idler.Irc.Message.{Message}
use irc_idler.Irc.Codes.{cmd_kick}
use irc_idler.State.Channel
use irc_idler.State.Channel.{ChannelState, remove_user}
use irc_idler.State.Session.{
  Session, Channels, have_channel, get_channel, put_channel, update_channels, update_own, tracked,
  finish_update, update_from_server, is_me,
}

abbrev pub kick : Bytes → Bytes → Bytes → List Bytes → Message
kick kicker channel victim more = record {
  prefix = kicker;
  command = cmd_kick;
  params = channel ∷ victim ∷ more;
}

kick-IsIndexable :
    (kicker channel victim : Bytes) (more : List Bytes)
    → IsIndexable (kick kicker channel victim more)
unfolding bytes bytes_eq
kick-IsIndexable kicker channel victim more = record {
  first = λ e. omega arith;
  topic = λ e. cc;
  names = λ e. cc;
}

-- The channel of a KICK is in the map behind the channels' update, also if it was not before.
kick_channel :
    (kicker channel victim : Bytes) (more : List Bytes) (cs cs' : Channels)
    → update_channels (kick kicker channel victim more) cs ≡ some cs'
    → have_channel channel cs' ≡ true
unfolding update_channels one_of bytes bytes_eq
kick_channel kicker channel victim more cs cs' h =
    let m = kick kicker channel victim more in
    let (st, _, e) =
      >>=-eq-some (Channel.update_from_server m (get_channel channel cs))
        (λ (t : ChannelState). some (put_channel channel t cs)) h in
    unfold have_channel put_channel in
    ground (arith, e, lookup-insert channel channel st cs, bytes_eq_refl channel)

-- The own update drops the channel if the kicker is this session's user.
kick_own :
    (kicker channel victim : Bytes) (more : List Bytes) (s s' : Session)
    → have_channel channel s.channels ≡ true
    → finish_update (kick kicker channel victim more) s ≡ some s'
    → have_channel channel s'.channels ≡ not (is_me kicker s)
unfolding finish_update update_own one_of bytes bytes_eq have_channel
kick_own kicker channel victim more s s' here h =
    ground (arith, lookup-delete channel channel s.channels, bytes_eq_refl channel)

kick_effect :
    (kicker channel victim : Bytes) (more : List Bytes) (s s' : Session)
    → update_from_server (kick kicker channel victim more) s ≡ some s'
    → have_channel channel s'.channels ≡ not (is_me kicker s)
unfolding update_from_server tracked is_me
kick_effect kicker channel victim more s s' h =
    let m = kick kicker channel victim more in
    let (cs, e, own) =
      >>=-eq-some (update_channels m s.channels) (λ cs. finish_update m (tracked m s cs)) h in
    kick_own kicker channel victim more (tracked m s cs) s'
      (kick_channel kicker channel victim more s.channels cs e) own

-- A session takes in every KICK, and behind it counts itself in the channel exactly if the kicker
-- is not its own user, whoever was kicked.
pub have_channel-kick :
    (kicker channel victim : Bytes) (more : List Bytes) (s : Session)
    → (s' : Session) × (update_from_server (kick kicker channel victim more) s ≡ some s')
      × (have_channel channel s'.channels ≡ not (is_me kicker s))
have_channel-kick kicker channel victim more s =
    let m = kick kicker channel victim more in
    elim (Option-cases (update_from_server m s)) [
      | inl e ↦
          absurd
            (cc (e, update_from_server_total m s (kick-IsIndexable kicker channel victim more)))
      | inr (s', e) ↦ (s', e, kick_effect kicker channel victim more s s' e)
    ]
