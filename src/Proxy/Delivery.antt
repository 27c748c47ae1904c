-- ===== src/Proxy/Delivery.antt =====
-- What the server says to the client's user or channel is written to the client or logged.
pub mod Logging
use mathlib.Core.Path.{subst}
use irc_idler.Prelude.{
  ℕ, zero, suc, ◌+◌, List, [], ◌∷◌, ◌++◌, Bytes, bytes, bytes_eq, bytes_eq_iff, bytes_eq_refl,
  one_of, Bool, true, false, Option, none, some, ◌≡◌, ◌≢◌, refl, sym, ap, ◌∙◌, arith, Option-cases,
  Bool-cases, inl, inr, ◌⊎◌, ◌||◌, if◌then◌else◌,
}
use irc_idler.Irc.Message.{Message}
use irc_idler.Irc.Validate.{validate}
use irc_idler.Irc.Codes.{cmd_privmsg, cmd_notice}
use irc_idler.State.Session.{Session, have_channel, is_me, update_from_server}
use irc_idler.State.Session.Total.{IsIndexable, update_from_server_total}
use irc_idler.Storage.Laws.{StoreLaws, IsReliable}
use irc_idler.Proxy.World.{wrote, Env, World, Proc, ◌>>=◌, pure, gets, param}
use irc_idler.Proxy.World.Runs.{bind_runs}
use irc_idler.Proxy.Link.{send_client}
use irc_idler.Proxy.Log.{store_op, log_msg, is_logged}
use irc_idler.Proxy.Server.{
  forward_or_log, handle_privmsg, dispatch, track_server, tracked_as, handle_message,
  handle_server_event,
}
use irc_idler.Proxy.Sends.{session_taken, IsUnwritten, Attempt, attempt}
use irc_idler.Proxy.Delivery.Logging.{
  addressed, IsSpoken, IsLogged, IsWritten, spoken-IsIndexable, dispatch_spoken, log_spoken,
}

module _ (env : Env) where
  open env.store use {State}

  -- A message for the client's user, or for a channel that the client is in.
  abbrev pub is_for_client : Bytes → World State → Bool
  is_for_client target w =
      have_channel target w.client.session.channels || is_me target w.client.session

  -- Why a message is logged: it is not for the client, and nothing was done to a connection, or
  -- there is no client, or the write to it failed.
  abbrev pub IsMissed : Message → Bytes → World State → World State → Type 0
  IsMissed m target w w' =
      ((is_for_client target w ≡ false) × (w'.out ≡ w.out)) ⊎ IsUnwritten env m w w'

module _ (prefix target text : Bytes) (more : List Bytes) (env : Env)
    (laws : StoreLaws env.store) where
  open env.store use {State}
  open laws use {IsSound, Storable}

  abbrev Heard : Bytes → World State → Option (Unit {0} × World State) → Type 0
  Heard c w r =
      (w' : World State) × (r ≡ some (tt, w'))
      × ((is_for_client env target w ≡ true)
            × IsWritten env laws (addressed prefix c target text more) w w'
          ⊎ (IsLogged env laws (addressed prefix c target text more) target w w'
              × IsMissed env (addressed prefix c target text more) target w w'))

  forward_or_log-Heard :
      (w : World State) (c : Bytes)
      → IsSpoken c
      → is_for_client env target w ≡ true
      → Storable (addressed prefix c target text more)
      → IsSound w.logs
      → Heard c w (forward_or_log env (addressed prefix c target text more) w)
  unfolding forward_or_log pure
  forward_or_log-Heard w c h here st sound =
      let m = addressed prefix c target text more in
      let a = attempt env m w (spoken-IsIndexable prefix target text more c h) in
      let (w', runs, logged, quiet) =
        log_spoken prefix target text more env laws a.after c h st
          (subst IsSound (sym a.same_logs) sound) in
      let f = λ (sent : Bool). if sent then pure tt else log_msg env m in
      elim (Bool-cases a.sent) [
        | inl took ↦ (
          a.after,
          bind_runs (send_client env m) f w a.runs (ground (arith, took)),
          inl (
            here,
            record {
              id = (a.written took).0;
              sound = subst IsSound (sym a.same_logs) sound;
              to_client = (a.written took).1;
              written = (a.written took).2;
              logs_same = λ j. ap (λ (s : State). laws.contents s j) a.same_logs;
            },
          ),
        )
        | inr missed ↦ (
          w',
          bind_runs (send_client env m) f w a.runs (ground (arith, missed, runs)),
          inr (
            (record {
              sound = logged.sound;
              appended = λ r.
                  logged.appended r
                  ∙ ap (λ (s : State). laws.contents s target ++ m ∷ []) a.same_logs;
              others_same = λ j other.
                  logged.others_same j other ∙ ap (λ (s : State). laws.contents s j) a.same_logs;
            }),
            inr (elim (a.unwritten missed) [
              | inl (absent, same) ↦ inl (absent, quiet ∙ same)
              | inr (id, closings, there, same) ↦ inr (id, closings, there, quiet ∙ same)
            ]),
          ),
        )
      ]

  handle_spoken :
      (w : World State) (c : Bytes)
      → IsSpoken c
      → Storable (addressed prefix c target text more)
      → IsSound w.logs
      → Heard c w (handle_privmsg env (addressed prefix c target text more) w)
  unfolding handle_privmsg param gets ◌>>=◌
  handle_spoken w c h st sound = elim (Bool-cases (is_for_client env target w)) [
    | inl here ↦
        let (w', runs, out) = forward_or_log-Heard w c h here st sound in
        (w', ground (arith, here, runs), out)
    | inr away ↦
        let (w', runs, logged, quiet) =
          log_spoken prefix target text more env laws w c h st sound in
        (w', ground (arith, away, runs), inr (logged, inl (away, quiet)))
  ]

  -- The server's session does not matter to what was heard.
  tracked-Heard :
      (s : Session) (w : World State) (c : Bytes) {r r' : Option (Unit {0} × World State)}
      → r' ≡ r
      → Heard c (record w { server = record (w.server) { session = s } }) r
      → Heard c w r'
  tracked-Heard s w c e (w', runs, inl (here, o)) = (
    w',
    e ∙ runs,
    inl (
      here,
      record {
        id = o.id;
        to_client = o.to_client;
        sound = o.sound;
        written = o.written;
        logs_same = o.logs_same;
      },
    ),
  )
  tracked-Heard s w c e (w', runs, inr (o, missed)) = (
    w',
    e ∙ runs,
    inr (record { sound = o.sound; appended = o.appended; others_same = o.others_same }, missed),
  )

  -- A valid PRIVMSG or NOTICE of the server that the store can store is taken in, with any store
  -- that keeps the laws, in a sound state, and any outcome of the writes, and leaves a sound
  -- state: either it is for the client and is written to its connection, and no log changes, or
  -- only the log of its target changes, and the message stands at its end if the store did not
  -- fail. It is logged only where it is neither for the client's user nor for a channel that the
  -- client is in, where there is no client, or where the write to it failed.
  pub handle_server_event-spoken :
      (w : World State) (command : Bytes)
      → IsSpoken command
      → Storable (addressed prefix command target text more)
      → IsSound w.logs
      → validate (addressed prefix command target text more) ≡ none
      → (w' : World State) × (handle_server_event env
            (some (addressed prefix command target text more))
            w
          ≡ some (tt, w'))
        × ((is_for_client env target w ≡ true)
              × IsWritten env laws (addressed prefix command target text more) w w'
            ⊎ (IsLogged env laws (addressed prefix command target text more) target w w'
                × IsMissed env (addressed prefix command target text more) target w w'))
  unfolding handle_server_event handle_message track_server tracked_as ◌>>=◌
  handle_server_event-spoken w c h st sound valid =
      let m = addressed prefix c target text more in
      let (s, e) =
        session_taken m w.server.session (spoken-IsIndexable prefix target text more c h) in
      let w1 = record w { server = record (w.server) { session = s } } in
      tracked-Heard s w c
        (ground (arith, valid, e, dispatch_spoken prefix target text more env w1 c h))
        (handle_spoken w1 c h st sound)
