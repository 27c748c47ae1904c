-- ===== src/Proxy/Rejoin.antt =====
-- What a client is told when it joins a channel that the server's session is in.
pub mod Lines
pub mod Roster
mod Tests
use irc_idler.Prelude.{
  ℕ, List, [], ◌∷◌, ◌++◌, map, All, All-append, Bytes, bytes, bytes_eq, Bool, true, false, Option,
  none, some, ◌≡◌, refl, sym, ap, ◌∙◌, arith, Bool-cases, inl, inr, ◌⊎◌, if◌then◌else◌, append-nil,
  append_assoc,
}
use mathlib.Core.Path.{subst}
use irc_idler.Irc.Message.{Message}
use irc_idler.Irc.ClientId.{to_string}
use irc_idler.Irc.Codes.{rpl_topic, rpl_namereply, rpl_endofnames, cmd_join}
use irc_idler.State.Session.Total.{IsIndexable}
use irc_idler.State.Session.{get_channel, update_from_server}
use irc_idler.State.Channel.{users}
use irc_idler.Proxy.World.{Output, wrote, Env, World, Proc, ◌>>=◌, pure, gets, modify}
use irc_idler.Proxy.World.Runs.{bind_runs}
use irc_idler.Proxy.Link.{send_client}
use irc_idler.Proxy.Client.{
  message, touch_client, touch_pre_log, add_client_user, send_names, send_topic, send_roster,
  rejoin_channel, set_client_session,
}
use irc_idler.Proxy.Sends.{IsOpen, IsSent, IsDropped, send_client-cases}
use irc_idler.Proxy.Sends.Each.{
  AllSent, takes, nothing, IsCut, dropped-IsCut, behind-IsCut, before-IsCut,
}
use mathlib.Core.List.{map-append}
use irc_idler.Storage.Laws.{StoreLaws}
use irc_idler.Proxy.Log.{replay_log}
use irc_idler.Proxy.Replay.{replay_log_lem}
use irc_idler.Proxy.Replay.Ends.{IsReplayed, IsKept}
use irc_idler.Proxy.NoPanic.Messages.{
  join-IsIndexable, topic-IsIndexable, names-IsIndexable, endofnames-IsIndexable,
}
use irc_idler.Proxy.Rejoin.Lines.{
  name_lines, topic_lines, roster_lines, send_client-Sending, send_topic_lem, send_names_lem,
  AllSent-append,
}
use irc_idler.Proxy.Rejoin.Roster.{Replayed, send_roster_lem}

module _ (env : Env) (laws : StoreLaws env.store) where
  open env.store use {State}
  open laws use {contents, IsSound}

  -- The client's own JOIN.
  abbrev pub own_join : Bytes → World State → Message
  own_join name w = message (to_string w.client.session.client_id) cmd_join (name ∷ [])

  -- Behind its JOIN: the client's session and the one before the logs have taken it in.
  pub record IsJoined (id : ℕ) (name : Bytes) (w joined : World State) : Type 0 where
    pub join_sent : AllSent env id (own_join name w ∷ []) (touch_pre_log name w) joined
    pub session_taken :
        update_from_server (own_join name w) w.client.session ≡ some joined.client.session

  -- What a client that joins again is told: its own JOIN, the topic and the names that were known
  -- before the logs, and the log.
  pub record IsRejoined (id : ℕ) (name : Bytes) (w w' : World State) : Type 0 where
    pub joined : World State
    pub told : World State
    pub listed : World State
    pub has_joined : IsJoined id name w joined
    pub topic_sent : AllSent env id (topic_lines name joined) joined told
    pub names_sent : AllSent env id (roster_lines env name told) told listed
    pub replayed : Replayed env laws id name (contents w.logs name) listed w'

  -- Where a write before the log fails: at the JOIN, at the topic, or at the names.
  pub data IsCutShort (id : ℕ) (name : Bytes) (w w' : World State) : Type 0 where
    at_join : IsCut env id (own_join name w ∷ []) w w' → IsCutShort id name w w'
    at_topic :
        (joined : World State)
        → IsJoined id name w joined
        → IsCut env id (topic_lines name joined) joined w'
        → IsCutShort id name w w'
    at_names :
        (joined told : World State)
        → IsJoined id name w joined
        → AllSent env id (topic_lines name joined) joined told
        → IsCut env id (roster_lines env name told) told w'
        → IsCutShort id name w w'

  own_join-IsJoined :
      (id : ℕ) (name : Bytes) (w : World State)
      → (s : IsSent env id (own_join name w) (touch_pre_log name w)) → IsJoined id name w s.after
  unfolding touch_pre_log
  own_join-IsJoined id name w s = record {
    join_sent = record {
      written = s.written;
      same_server = s.same_server;
      same_prefix = s.same_prefix;
      same_logs = s.same_logs;
      pre_log_taken = takes s.pre_log_taken nothing;
      still_open = s.still_open;
    };
    session_taken = s.session_taken;
  }

  own_join-IsCut :
      (id : ℕ) (name : Bytes) (w : World State)
      → (d : IsDropped env id (own_join name w) (touch_pre_log name w))
      → IsCut env id (own_join name w ∷ []) w d.after
  unfolding touch_pre_log
  own_join-IsCut id name w d =
      let c = dropped-IsCut env id (own_join name w) [] (touch_pre_log name w) d in
      record {
        sent = c.sent;
        missed = c.missed;
        unsent = c.unsent;
        split = c.split;
        closings = c.closings;
        written = c.written;
        gone = c.gone;
        same_logs = c.same_logs;
      }

  -- A connected client that joins a channel again is sent, in order, its own JOIN, the topic that
  -- was known before the logs, if any, a line for each user that was known before them with the
  -- end of the list, and then the channel's log, with any store that keeps its laws, any outcome
  -- of the writes and any map order, from sound logs, if a session can take in the messages of
  -- that log: then the log was written whole and cleared, and no other log has changed, or no log
  -- has changed, some of it was written, in order, and the store failed, or the write of the next
  -- message did and the client's connection was closed. Or the write of a line before the log
  -- failed, those before it were written, the client's connection was closed, and the logs are as
  -- they were.
  pub rejoin_channel_lem :
      (id : ℕ) (name : Bytes) (w : World State)
      → IsOpen id w
      → IsSound w.logs
      → All IsIndexable (contents w.logs name)
      → (w' : World State) × (rejoin_channel env name w ≡ some (tt, w'))
        × (IsRejoined id name w w' ⊎ IsCutShort id name w w')
  unfolding rejoin_channel gets modify ◌>>=◌ pure touch_pre_log
  rejoin_channel_lem id name w is_open sound ok =
      let w0 = touch_pre_log name w in
      let line = own_join name w in
      let g = λ (told : Bool). if told then send_roster env name else pure tt in
      let f = λ (joined : Bool). if joined then (send_topic env name >>= g) else pure tt in
      elim (send_client-cases env id line w0
        (join-IsIndexable (to_string w.client.session.client_id) name) is_open) [
          | inl s ↦ elim (send_topic_lem env id name s.after s.still_open) [
            | inl (w2, runs2, b) ↦
                let j = own_join-IsJoined id name w s in
                let same = b.same_logs ∙ s.same_logs in
                let (w', runs3, out) =
                  send_roster_lem env laws id name w2 b.still_open (subst IsSound (sym same) sound)
                    (subst (λ (s : State). All IsIndexable (contents s name)) (sym same) ok) in
                (
                  w',
                  bind_runs (send_client env line) f w0 s.runs
                      (bind_runs (send_topic env name) g s.after runs2 runs3),
                  elim out [
                    | inl (w3, c, r) ↦ inl (record {
                      joined = s.after;
                      told = w2;
                      listed = w3;
                      has_joined = j;
                      topic_sent = b;
                      names_sent = c;
                      replayed =
                          subst (λ (s : State). Replayed env laws id name (contents s name) w3 w')
                            same r;
                    })
                    | inr cut ↦ inr (at_names s.after w2 j b cut)
                  ],
                )
            | inr (w2, runs2, cut) ↦ (
              w2,
              bind_runs (send_client env line) f w0 s.runs
                  (bind_runs (send_topic env name) g s.after runs2 refl),
              inr (at_topic s.after (own_join-IsJoined id name w s) cut),
            )
          ]
          | inr d ↦ (
            d.after,
            bind_runs (send_client env line) f w0 d.runs refl,
            inr (at_join (own_join-IsCut id name w d)),
          )
        ]
