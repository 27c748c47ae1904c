-- ===== src/Proxy/Rejoin/Lines.antt =====
-- The lines that `rejoinChannel` sends before the log.
use irc_idler.Prelude.{
  ℕ, List, [], ◌∷◌, ◌++◌, map, Bytes, bytes, bytes_eq, Bool, false, Option, refl, sym, ap, ◌∙◌,
  Bool-cases, inl, inr, if◌then◌else◌, append-nil, append_assoc,
}
use mathlib.Core.Path.{subst}
use irc_idler.Irc.Message.{Message}
use irc_idler.Irc.ClientId.{to_string}
use irc_idler.Irc.Codes.{rpl_topic, rpl_namereply, rpl_endofnames}
use irc_idler.State.Session.Total.{IsIndexable}
use irc_idler.State.Session.{get_channel}
use irc_idler.State.Channel.{users}
use irc_idler.Proxy.World.{Output, wrote, Env, World, Proc, ◌>>=◌, pure, gets, modify}
use irc_idler.Proxy.World.Runs.{bind_runs}
use irc_idler.Proxy.Link.{send_client}
use irc_idler.Proxy.Client.{message, add_client_user, send_names, send_topic, set_client_session}
use irc_idler.Proxy.Sends.{IsOpen, send_client-cases}
use irc_idler.Proxy.Sends.Each.{
  AllSent, Sending, behind_sent, takes, nothing, Takes-append, dropped-IsCut,
}
use mathlib.Core.List.{map-append}
use irc_idler.Proxy.NoPanic.Messages.{topic-IsIndexable, names-IsIndexable}

-- One line for each nick.
unfoldable pub name_lines : Bytes → Bytes → Bytes → List Bytes → List Message
name_lines prefix name me [] = []
name_lines prefix name me (nick ∷ nicks) =
    message prefix rpl_namereply (me ∷ bytes "=" ∷ name ∷ nick ∷ [])
    ∷ name_lines prefix name me nicks

-- The topic that is known from before the logs, if there is one.
unfoldable pub topic_lines : {L : Type 0} → Bytes → World L → List Message
topic_lines name w =
    let topic = (get_channel name w.pre_log.channels).topic in
    if bytes_eq topic []
    then []
    else message w.server_prefix rpl_topic
        (to_string w.client.session.client_id ∷ name ∷ topic ∷ [])
      ∷ []

module _ (env : Env) where
  open env.store use {State}

  -- One message sent.
  pub send_client-Sending :
      (id : ℕ) (m : Message) (w : World State)
      → IsIndexable m
      → IsOpen id w
      → Sending env id (m ∷ []) w (send_client env m w)
  send_client-Sending id m w ok is_open = elim (send_client-cases env id m w ok is_open) [
    | inl s ↦ inl (
      s.after,
      s.runs,
      record {
        written = s.written;
        same_server = s.same_server;
        same_prefix = s.same_prefix;
        same_logs = s.same_logs;
        pre_log_taken = takes s.pre_log_taken nothing;
        still_open = s.still_open;
      },
    )
    | inr d ↦ inr (d.after, d.runs, dropped-IsCut env id m [] w d)
  ]

  nothing_sent : (id : ℕ) (w : World State) → IsOpen id w → AllSent env id [] w w
  nothing_sent id w is_open = record {
    written = sym (append-nil w.out);
    same_server = refl;
    same_prefix = refl;
    same_logs = refl;
    pre_log_taken = nothing;
    still_open = is_open;
  }

  pub send_topic_lem :
      (id : ℕ) (name : Bytes) (w : World State)
      → IsOpen id w
      → Sending env id (topic_lines name w) w (send_topic env name w)
  unfolding send_topic topic_lines gets ◌>>=◌ pure
  send_topic_lem id name w is_open =
      let topic = (get_channel name w.pre_log.channels).topic in
      elim (Bool-cases (bytes_eq topic [])) [
        | inl e ↦ rw e (inl (w, refl, nothing_sent id w is_open))
        | inr e ↦ rw e (
            send_client-Sending id _ w
              (topic-IsIndexable w.server_prefix (to_string w.client.session.client_id) name topic)
              is_open)
      ]

  -- Behind a message to the client its own list of the channel's users grows.
  noted :
      (id : ℕ) (name nick : Bytes) (ms : List Message) (w : World State)
      {r : Option (Bool × World State)}
      → Sending env id ms (add_client_user name nick w) r
      → Sending env id ms w r
  unfolding add_client_user set_client_session
  noted id name nick ms w (inl (w', runs, a)) = inl (
    w',
    runs,
    record {
      written = a.written;
      same_server = a.same_server;
      same_prefix = a.same_prefix;
      same_logs = a.same_logs;
      pre_log_taken = a.pre_log_taken;
      still_open = a.still_open;
    },
  )
  noted id name nick ms w (inr (w', runs, c)) = inr (
    w',
    runs,
    record {
      sent = c.sent;
      missed = c.missed;
      unsent = c.unsent;
      split = c.split;
      closings = c.closings;
      written = c.written;
      gone = c.gone;
      same_logs = c.same_logs;
    },
  )

  pub send_names_lem :
      (id : ℕ) (name me : Bytes) (nicks : List Bytes) (w : World State)
      → IsOpen id w
      → Sending env id (name_lines w.server_prefix name me nicks) w (send_names env name me nicks w)
  unfolding send_names name_lines pure add_client_user set_client_session gets modify ◌>>=◌
  send_names_lem id name me [] w is_open = inl (w, refl, nothing_sent id w is_open)
  send_names_lem id name me (nick ∷ nicks) w is_open =
      let m = message w.server_prefix rpl_namereply (me ∷ bytes "=" ∷ name ∷ nick ∷ []) in
      let more : Proc State Bool =
        modify (add_client_user name nick) >>= λ _. send_names env name me nicks in
      let f = λ (sent : Bool). if sent then more else pure false in
      elim (send_client-cases env id m w
        (names-IsIndexable w.server_prefix me (bytes "=") name nick) is_open) [
          | inl s ↦
              let w1 = add_client_user name nick s.after in
              let rest : Sending env id (name_lines w.server_prefix name me nicks) s.after
                  (send_names env name me nicks w1) =
                noted id name nick (name_lines w.server_prefix name me nicks) s.after (
                  subst
                    (λ (p : Bytes).
                      Sending env id (name_lines p name me nicks) w1
                        (send_names env name me nicks w1))
                    s.same_prefix (send_names_lem id name me nicks w1 s.still_open)) in
              behind_sent env id m (name_lines w.server_prefix name me nicks) w s
                (bind_runs (send_client env m) f w s.runs refl) rest
          | inr d ↦ inr (
            d.after,
            bind_runs (send_client env m) f w d.runs refl,
            dropped-IsCut env id m (name_lines w.server_prefix name me nicks) w d,
          )
        ]

  pub AllSent-append :
      (id : ℕ) (ms ns : List Message) (w w1 w2 : World State)
      → AllSent env id ms w w1
      → AllSent env id ns w1 w2
      → AllSent env id (ms ++ ns) w w2
  AllSent-append id ms ns w w1 w2 a b = record {
    written =
        b.written
        ∙ ap (λ (o : List Output). o ++ map (wrote id) ns) a.written
        ∙ append_assoc w.out (map (wrote id) ms) (map (wrote id) ns)
        ∙ ap (λ (o : List Output). w.out ++ o) (sym (map-append (wrote id) ms ns));
    same_server = b.same_server ∙ a.same_server;
    same_prefix = b.same_prefix ∙ a.same_prefix;
    same_logs = b.same_logs ∙ a.same_logs;
    pre_log_taken = Takes-append ms ns a.pre_log_taken b.pre_log_taken;
    still_open = b.still_open;
  }

  -- The names of the users from before the logs, in the map's order, and the end of the list.
  unfoldable pub roster_lines : Bytes → World State → List Message
  unfolding name_lines
  roster_lines name w =
      let me = w.server.session.client_id.nick in
      name_lines w.server_prefix name me
        (env.order w.out (users (get_channel name w.pre_log.channels)))
      ++ message w.server_prefix rpl_endofnames (me ∷ name ∷ bytes "End of NAMES list" ∷ []) ∷ []
