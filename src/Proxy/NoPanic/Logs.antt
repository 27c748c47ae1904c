-- ===== src/Proxy/NoPanic/Logs.antt =====
-- `replayLog` and `logMessage`, by the rules of Completes.
use irc_idler.Prelude.{ℕ, zero, suc, ◌≤◌, Bytes, true, Option, none, some, ◌≡◌, arith, length, refl}
use irc_idler.Irc.Message.{Message}
use irc_idler.State.Session.Total.{IsIndexable}
use irc_idler.Storage.{Fetched, entry, end, broken}
use irc_idler.Storage.Laws.{StoreLaws}
use irc_idler.Storage.Holds.{
  Gives, get_channel-Holds, replay-Holds, clear-Holds, log_message-Holds, replay-Gives, entry-Gives,
}
use irc_idler.Proxy.World.{Env, Proc, ◌>>=◌}
use irc_idler.Proxy.World.Completes.{
  Completes, Completes-bind, Completes-pure, Completes-either, Completes-if, Completes-param,
}
use irc_idler.Proxy.Log.{
  store_op, replay_round, replay_loop, replay_from, replay_log, log_msg, is_logged,
}
use irc_idler.Proxy.NoPanic.Steps.{IsFine, send_client-Completes, store_op-Completes}

module _ (env : Env) (laws : StoreLaws env.store) where
  open env.store use {State, Cursor, get_channel, log_message, replay, clear, get, next, size}
  open laws use {contents, left, IsSound, IsSoundCursor, Storable}

  abbrev CanGoOn : Cursor → Type 0
  CanGoOn = Gives laws IsIndexable

  round-Completes :
      (name : Bytes) (c : Cursor) (rest : Proc State Unit) (x : Fetched)
      → get c ≡ x
      → CanGoOn c
      → ((m : Message) → get c ≡ entry m → CanGoOn (next c) → Completes (IsFine env laws) rest)
      → Completes (IsFine env laws) (replay_round env name rest x)
  unfolding replay_round
  round-Completes name c rest (entry m) e ok kr =
      let (first, on) = entry-Gives laws IsIndexable c ok e in
      Completes-bind _ _ (send_client-Completes env laws m first)
        (λ sent. Completes-either sent _ _ (kr m e on) (Completes-pure tt))
  round-Completes name c rest end e ok kr =
      Completes-bind _ _
        (store_op-Completes env laws (clear name) (clear-Holds laws IsIndexable name))
        (λ failed. Completes-pure tt)
  round-Completes name c rest broken e ok kr = Completes-pure tt

  loop-Completes :
      (fuel : ℕ) (name : Bytes) (c : Cursor)
      → CanGoOn c
      → Completes (IsFine env laws) (replay_loop env fuel name c)
  unfolding replay_loop
  loop-Completes zero name c ok = Completes-pure tt
  loop-Completes (suc fuel) name c ok =
      round-Completes name c (replay_loop env fuel name (next c)) (get c) refl ok
        (λ m e on. loop-Completes fuel name (next c) on)

  from-Completes :
      (name : Bytes) (o : Option Cursor)
      → ((c : Cursor) → o ≡ some c → CanGoOn c)
      → Completes (IsFine env laws) (replay_from env name o)
  unfolding replay_from
  from-Completes name none ok = Completes-pure tt
  from-Completes name (some c) ok = loop-Completes (suc (size c)) name c (ok c refl)

  opened-Completes :
      (name : Bytes)
      → Completes
          (IsFine env laws)
          (store_op env (replay name) >>= λ cursor. replay_from env name cursor)
  unfolding store_op ◌>>=◌
  opened-Completes name = record {
    at = λ w h.
        (from-Completes name (replay name w.logs).0
            (λ c e. replay-Gives laws IsIndexable name w.logs h e)).at
          (record w { logs = (replay name w.logs).1 })
          (replay-Holds laws IsIndexable name w.logs h);
  }

  pub replay_log-Completes : (name : Bytes) → Completes (IsFine env laws) (replay_log env name)
  unfolding replay_log
  replay_log-Completes name =
      Completes-bind _ _
        (store_op-Completes env laws (get_channel name) (get_channel-Holds laws IsIndexable name))
        (λ failed. Completes-either failed _ _ (Completes-pure tt) (opened-Completes name))

  -- A message that the store takes, with a target if its command is logged.
  pub log_msg-Completes :
      (m : Message)
      → IsIndexable m
      → Storable m
      → (is_logged env m.command ≡ true → 1 ≤ length m.params)
      → Completes (IsFine env laws) (log_msg env m)
  unfolding log_msg
  log_msg-Completes m ok fits long = Completes-either _ _ _ (Completes-pure tt) (
      Completes-if (is_logged env m.command) _ _
        (λ logged. Completes-bind _ _ (Completes-param m 0 (omega (arith, long logged))) (λ name.
          Completes-bind _ _
            (store_op-Completes env laws (get_channel name)
              (get_channel-Holds laws IsIndexable name))
            (λ failed. Completes-either failed _ _ (Completes-pure tt) (
              Completes-bind _ _
                (store_op-Completes env laws (log_message name m)
                  (λ s. log_message-Holds laws IsIndexable name m s ok fits))
                (λ failed'. Completes-pure tt)))))
        (λ unlogged. Completes-pure tt))
