-- ===== src/Proxy/Delivery/Logging.antt =====
-- `logMessage` on a PRIVMSG or NOTICE.
use mathlib.Core.Path.{subst}
use irc_idler.Prelude.{
  ℕ, List, [], ◌∷◌, ◌++◌, Bytes, bytes, bytes_eq, bytes_eq_refl, one_of, false, some, ◌≡◌, refl,
  sym, arith, Bool-cases, inl, inr, ◌⊎◌, if◌then◌else◌,
}
use irc_idler.Irc.Message.{Message}
use irc_idler.Irc.Codes.{cmd_privmsg, cmd_notice}
use irc_idler.State.Session.Total.{IsIndexable}
use irc_idler.Storage.Laws.{StoreLaws, IsReliable}
use irc_idler.Proxy.World.{wrote, Env, World, ◌>>=◌, pure, param}
use irc_idler.Proxy.Log.{store_op, log_msg, is_logged}
use irc_idler.Proxy.Server.{handle_privmsg, dispatch}

-- A message with a target and a text.
abbrev pub addressed : Bytes → Bytes → Bytes → Bytes → List Bytes → Message
addressed prefix command target text more = record {
  prefix = prefix;
  command = command;
  params = target ∷ text ∷ more;
}

abbrev pub IsSpoken : Bytes → Type 0
IsSpoken command = (command ≡ cmd_privmsg) ⊎ (command ≡ cmd_notice)

-- What holds of the two commands holds of a spoken one.
spoken {ℓ} : (P : Bytes → Type ℓ) → P cmd_privmsg → P cmd_notice → (c : Bytes) → IsSpoken c → P c
spoken P p n c (inl e) = subst P (sym e) p
spoken P p n c (inr e) = subst P (sym e) n

module _ (prefix target text : Bytes) (more : List Bytes) where
  pub spoken-IsIndexable :
      (c : Bytes) → IsSpoken c → IsIndexable (addressed prefix c target text more)
  unfolding one_of bytes bytes_eq
  spoken-IsIndexable =
      spoken (λ c. IsIndexable (addressed prefix c target text more))
        (record { first = λ e. cc e; topic = λ e. cc e; names = λ e. cc e })
        (record { first = λ e. cc e; topic = λ e. cc e; names = λ e. cc e })

  module _ (env : Env) where
    open env.store use {State}

    pub dispatch_spoken :
        (w : World State) (c : Bytes)
        → IsSpoken c
        → dispatch env (addressed prefix c target text more) w
          ≡ handle_privmsg env (addressed prefix c target text more) w
    unfolding dispatch one_of bytes bytes_eq
    dispatch_spoken w =
        spoken
          (λ c.
            dispatch env (addressed prefix c target text more) w
            ≡ handle_privmsg env (addressed prefix c target text more) w)
          refl refl

module _ (env : Env) (laws : StoreLaws env.store) where
  open env.store use {State, get_channel, log_message}
  open laws use {contents, IsSound, Storable}

  -- The message stands at the end of its target's log, if the store did not fail.
  pub record IsLogged (m : Message) (target : Bytes) (w w' : World State) : Type 0 where
    pub sound : IsSound w'.logs
    pub appended :
        IsReliable env.store laws → contents w'.logs target ≡ contents w.logs target ++ m ∷ []
    pub others_same :
        (j : Bytes) → bytes_eq target j ≡ false → contents w'.logs j ≡ contents w.logs j

  -- The message was the last thing written, to the client, and no log has changed.
  pub record IsWritten (m : Message) (w w' : World State) : Type 0 where
    pub id : ℕ
    pub to_client : w.client.rwc ≡ some id
    pub sound : IsSound w'.logs
    pub written : w'.out ≡ w.out ++ wrote id m ∷ []
    pub logs_same : (j : Bytes) → contents w'.logs j ≡ contents w.logs j

  log_behind :
      (m : Message) (name : Bytes) (s s' : State) (j : Bytes)
      → Storable m
      → ((i : Bytes) → contents s' i ≡ contents s i)
      → contents (log_message name m s').1 j ≡ (
          if (log_message name m s').0
          then contents s j
          else if bytes_eq name j
          then contents s j ++ m ∷ []
          else contents s j)
  log_behind m name s s' j st same =
      ground (arith, laws.log_message-contents name j m s' st, same j)

  entry-IsLogged :
      (m : Message) (name : Bytes) (w : World State)
      → Storable m
      → IsSound w.logs
      → (w' : World State) × ((store_op env (get_channel name) >>= λ failed.
              if failed then pure tt else store_op env (log_message name m) >>= λ failed'. pure tt)
            w
          ≡ some (tt, w'))
        × IsLogged m name w w'
        × (w'.out ≡ w.out)
  unfolding store_op ◌>>=◌ pure
  entry-IsLogged m name w st sound =
      let s = (get_channel name w.logs).1 in
      let same = λ (j : Bytes). laws.get_channel-contents name j w.logs in
      elim (Bool-cases (get_channel name w.logs).0) [
        | inl failed ↦ (
          record w { logs = s },
          ground (arith, failed),
          record {
            sound = laws.get_channel-IsSound name w.logs sound;
            appended = λ r. absurd (cc (failed, r.get_channel_works name w.logs));
            others_same = λ j other. same j;
          },
          refl,
        )
        | inr works ↦ (
          record w { logs = (log_message name m s).1 },
          ground (arith, works),
          record {
            sound =
                laws.log_message-IsSound name m s st (laws.get_channel-IsSound name w.logs sound);
            appended = λ r. ground (
              arith,
              log_behind m name w.logs s name st same,
              r.log_message_works name m s,
              bytes_eq_refl name,
            );
            others_same = λ j other. ground (arith, log_behind m name w.logs s j st same, other);
          },
          refl,
        )
      ]

module _ (prefix target text : Bytes) (more : List Bytes) (env : Env)
    (laws : StoreLaws env.store) where
  open env.store use {State}
  open laws use {IsSound, Storable}

  abbrev Logs : World State → Bytes → Type 0
  Logs w c =
      (w' : World State) × (log_msg env (addressed prefix c target text more) w ≡ some (tt, w'))
      × IsLogged env laws (addressed prefix c target text more) target w w'
      × (w'.out ≡ w.out)

  pub log_spoken :
      (w : World State) (c : Bytes)
      → IsSpoken c
      → Storable (addressed prefix c target text more)
      → IsSound w.logs
      → Logs w c
  unfolding log_msg is_logged param one_of bytes bytes_eq ◌>>=◌
  log_spoken w c h st sound =
      spoken (λ c. Storable (addressed prefix c target text more) → Logs w c)
        (λ st.
          entry-IsLogged env laws (addressed prefix cmd_privmsg target text more) target w st sound)
        (λ st.
          entry-IsLogged env laws (addressed prefix cmd_notice target text more) target w st sound)
        c h st
