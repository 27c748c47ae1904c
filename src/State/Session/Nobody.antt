-- ===== src/State/Session/Nobody.antt =====
-- A session that has no nick of its own takes no message for its own, and so never leaves a channel.
use irc_idler.Prelude.{
  ℕ, [], ◌∷◌, Bytes, bytes_eq_iff, true, false, some, get_elem?, ◌≡◌, refl, arith, ◌∙◌, ap,
}
use irc_idler.Prelude.Dict.{lookup, lookup-insert}
use irc_idler.Prelude.Maybe.{◌>>=◌, >>=-eq-some}
use irc_idler.Irc.Message.{Message}
use irc_idler.Irc.ClientId.{ClientId, Parsed, ok, err, parse_client_id}
use irc_idler.Irc.ClientId.RoundTrip.{IsCanonical}
use irc_idler.Irc.ClientId.Canonical.{parse_client_id-IsCanonical}
use irc_idler.State.Channel
use irc_idler.State.Channel.{ChannelState}
use irc_idler.State.Session.{
  Session, Channels, have_channel, get_channel, put_channel, update_channel, update_all,
  update_channels, tracked, finish_update, update_from_server, is_me, same_nick,
}

same_nick_nobody :
    (p : Parsed) → ((id : ClientId) → p ≡ ok id → IsCanonical id) → same_nick [] p ≡ false
unfolding same_nick
same_nick_nobody (err e) h = refl
same_nick_nobody (ok id) h = ground (arith, (h id refl).has_nick, bytes_eq_iff id.nick [])

pub is_me_nobody : (p : Bytes) (s : Session) → s.client_id.nick ≡ [] → is_me p s ≡ false
unfolding is_me
is_me_nobody p s h =
    ap (λ (n : Bytes). same_nick n (parse_client_id p)) h
    ∙ same_nick_nobody (parse_client_id p) (λ id e. parse_client_id-IsCanonical p id e)

finish_nobody :
    (m : Message) (s : Session) {s' : Session}
    → s.client_id.nick ≡ []
    → finish_update m s ≡ some s'
    → s ≡ s'
unfolding finish_update
finish_nobody m s h own = ground (arith, own, is_me_nobody m.prefix s h)

update_nobody :
    (m : Message) (s : Session) {s' : Session}
    → s.client_id.nick ≡ []
    → update_from_server m s ≡ some s'
    → (cs : Channels) × (update_channels m s.channels ≡ some cs) × (tracked m s cs ≡ s')
unfolding update_from_server
update_nobody m s {s'} h e =
    let (cs, e', own) =
      >>=-eq-some (update_channels m s.channels) (λ cs. finish_update m (tracked m s cs)) e in
    (cs, e', finish_nobody m (tracked m s cs) (unfold tracked in h) own)

-- The client id of such a session stays what it is.
pub client_id_nobody :
    (m : Message) (s : Session) {s' : Session}
    → s.client_id.nick ≡ []
    → update_from_server m s ≡ some s'
    → s'.client_id ≡ s.client_id
client_id_nobody m s h e = let (cs, _, same) = update_nobody m s h e in unfold tracked in cc same

have_channel-put :
    (c k : Bytes) (st : ChannelState) (cs : Channels)
    → have_channel c cs ≡ true
    → have_channel c (put_channel k st cs) ≡ true
unfolding have_channel put_channel
have_channel-put c k st cs h = ground (arith, lookup-insert k c st cs)

stays_in_channel :
    (m : Message) (name c : Bytes) (cs cs' : Channels)
    → have_channel c cs ≡ true
    → update_channel m name cs ≡ some cs'
    → have_channel c cs' ≡ true
unfolding update_channel
stays_in_channel m name c cs cs' h e =
    let (st, _, same) =
      >>=-eq-some (Channel.update_from_server m (get_channel name cs))
        (λ (t : ChannelState). some (put_channel name t cs)) e in
    ground (arith, same, have_channel-put c name st cs h)

stays_in_all :
    (m : Message) (c : Bytes) (cs cs' : Channels)
    → update_all m cs ≡ some cs'
    → have_channel c cs' ≡ have_channel c cs
unfolding update_all have_channel lookup
stays_in_all m c [] cs' e = ground arith
stays_in_all m c ((name, s) ∷ cs) cs' e =
    let (s', _, e1) =
      >>=-eq-some (Channel.update_from_server m s)
        (λ (t : ChannelState). update_all m cs >>= λ rest. some ((name, t) ∷ rest)) e in
    let (rest, e2, same) =
      >>=-eq-some (update_all m cs) (λ (r : Channels). some ((name, s') ∷ r)) e1 in
    ground (arith, same, stays_in_all m c cs rest e2)

-- The topic is written into the channel's entry.
stays_with_topic :
    (m : Message) (c : Bytes) (cs cs' : Channels)
    → have_channel c cs ≡ true
    → (do
      name ← get_elem? m.params 1
      topic ← get_elem? m.params 2
      some (put_channel name (record (get_channel name cs) { topic = topic }) cs))
      ≡ some cs'
    → have_channel c cs' ≡ true
stays_with_topic m c cs cs' h e =
    let (name, _, e1) =
      >>=-eq-some (get_elem? m.params 1)
        (λ (name : Bytes). get_elem? m.params 2 >>= λ topic.
          some (put_channel name (record (get_channel name cs) { topic = topic }) cs))
        e in
    let (topic, _, same) =
      >>=-eq-some (get_elem? m.params 2)
        (λ (topic : Bytes).
          some (put_channel name (record (get_channel name cs) { topic = topic }) cs))
        e1 in
    ground
      (arith, same, have_channel-put c name (record (get_channel name cs) { topic = topic }) cs h)

stays_with_param :
    (m : Message) (i : ℕ) (c : Bytes) (cs cs' : Channels)
    → have_channel c cs ≡ true
    → (get_elem? m.params i >>= λ name. update_channel m name cs) ≡ some cs'
    → have_channel c cs' ≡ true
stays_with_param m i c cs cs' h e =
    let (name, _, e1) =
      >>=-eq-some (get_elem? m.params i) (λ (name : Bytes). update_channel m name cs) e in
    stays_in_channel m name c cs cs' h e1

pub stays :
    (m : Message) (c : Bytes) (cs cs' : Channels)
    → have_channel c cs ≡ true
    → update_channels m cs ≡ some cs'
    → have_channel c cs' ≡ true
unfolding update_channels
stays m c cs cs' h e = ground (
  arith,
  stays_with_param m 0 c cs cs' h,
  stays_with_topic m c cs cs' h,
  stays_with_param m 2 c cs cs' h,
  stays_in_all m c cs cs',
)

-- It never leaves a channel.
pub have_channel_nobody :
    (m : Message) (c : Bytes) (s : Session) {s' : Session}
    → s.client_id.nick ≡ []
    → update_from_server m s ≡ some s'
    → have_channel c s.channels ≡ true
    → have_channel c s'.channels ≡ true
have_channel_nobody m c s h e here =
    let (cs, e', same) = update_nobody m s h e in
    unfold tracked in cc (same, stays m c s.channels cs here e')
