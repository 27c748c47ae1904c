-- ===== src/Proxy/Handlers/Kinds.antt =====
-- `replayLog` and `logMessage` keep a property under which all messages of the logs are of one
-- kind, if it is kept by sending such messages and by storing such logs.
use irc_idler.Prelude.{ℕ, zero, suc, Bytes, true, Option, none, some, ◌≡◌, refl}
use irc_idler.Irc.Message.{Message}
use irc_idler.Storage.{Fetched, entry, end, broken}
use irc_idler.Storage.Laws.{StoreLaws}
use irc_idler.Storage.Holds.{
  Holds, Gives, get_channel-Holds, replay-Holds, clear-Holds, log_message-Holds, replay-Gives,
  entry-Gives,
}
use irc_idler.Proxy.World.{Env, World, Proc, ◌>>=◌}
use irc_idler.Proxy.World.Keeps.{Keeps, Keeps-bind, Keeps-pure, Keeps-if, Keeps-when, Keeps-param}
use irc_idler.Proxy.Link.{send_client}
use irc_idler.Proxy.Log.{
  store_op, replay_round, replay_loop, replay_from, replay_log, log_msg, is_logged,
}

module _ {ℓ} (env : Env) (laws : StoreLaws env.store) (Q : Message → Type 0)
    {P : World env.store.State → Type ℓ} (sends : (m : Message) → Q m → Keeps P (send_client env m))
    (holds : (w : World env.store.State) → P w → Holds laws Q w.logs)
    (stores : (s : env.store.State) (w : World env.store.State)
      → Holds laws Q s
      → P w
      → P (record w { logs = s })) where
  open env.store use {State, Cursor, get_channel, log_message, replay, clear, get, next, size}

  store_op-Keeps :
      {A : Type 0} (f : State → A × State)
      → ((s : State) → Holds laws Q s → Holds laws Q (f s).1)
      → Keeps P (store_op env f)
  unfolding store_op
  store_op-Keeps f kf = record { at = λ w p. stores (f w.logs).1 w (kf w.logs (holds w p)) p }

  round-Keeps :
      (name : Bytes) (c : Cursor) (rest : Proc State Unit) (x : Fetched)
      → get c ≡ x
      → Gives laws Q c
      → (Gives laws Q (next c) → Keeps P rest)
      → Keeps P (replay_round env name rest x)
  unfolding replay_round
  round-Keeps name c rest (entry m) e ok kr =
      let (first, on) = entry-Gives laws Q c ok e in
      Keeps-bind _ _ (sends m first) (λ sent. Keeps-if sent _ _ (kr on) (Keeps-pure tt))
  round-Keeps name c rest end e ok kr =
      Keeps-bind _ _ (store_op-Keeps (clear name) (clear-Holds laws Q name))
        (λ failed. Keeps-pure tt)
  round-Keeps name c rest broken e ok kr = Keeps-pure tt

  loop-Keeps :
      (fuel : ℕ) (name : Bytes) (c : Cursor)
      → Gives laws Q c
      → Keeps P (replay_loop env fuel name c)
  unfolding replay_loop
  loop-Keeps zero name c ok = Keeps-pure tt
  loop-Keeps (suc fuel) name c ok =
      round-Keeps name c (replay_loop env fuel name (next c)) (get c) refl ok
        (λ on. loop-Keeps fuel name (next c) on)

  from-Keeps :
      (name : Bytes) (o : Option Cursor)
      → ((c : Cursor) → o ≡ some c → Gives laws Q c)
      → Keeps P (replay_from env name o)
  unfolding replay_from
  from-Keeps name none ok = Keeps-pure tt
  from-Keeps name (some c) ok = loop-Keeps (suc (size c)) name c (ok c refl)

  opened-Keeps :
      (name : Bytes)
      → Keeps P (store_op env (replay name) >>= λ cursor. replay_from env name cursor)
  unfolding store_op ◌>>=◌
  opened-Keeps name = record {
    at = λ w p.
        let h = holds w p in
        (from-Keeps name (replay name w.logs).0 (λ c e. replay-Gives laws Q name w.logs h e)).at
          (record w { logs = (replay name w.logs).1 })
          (stores (replay name w.logs).1 w (replay-Holds laws Q name w.logs h) p);
  }

  pub replay_log-Keeps : (name : Bytes) → Keeps P (replay_log env name)
  unfolding replay_log
  replay_log-Keeps name =
      Keeps-bind _ _ (store_op-Keeps (get_channel name) (get_channel-Holds laws Q name))
        (λ failed. Keeps-if failed _ _ (Keeps-pure tt) (opened-Keeps name))

  -- Of the kind need only be what is logged.
  pub log_msg-Keeps :
      (m : Message)
      → laws.Storable m
      → (is_logged env m.command ≡ true → Q m)
      → Keeps P (log_msg env m)
  unfolding log_msg
  log_msg-Keeps m fits ok = Keeps-if _ _ _ (Keeps-pure tt) (
      Keeps-when (is_logged env m.command) _ _
        (λ logged. Keeps-bind _ _ (Keeps-param m 0) (λ name.
          Keeps-bind _ _ (store_op-Keeps (get_channel name) (get_channel-Holds laws Q name))
            (λ failed. Keeps-if failed _ _ (Keeps-pure tt) (
              Keeps-bind _ _
                (store_op-Keeps (log_message name m)
                  (λ s. log_message-Holds laws Q name m s (ok logged) fits))
                (λ failed'. Keeps-pure tt)))))
        (Keeps-pure tt))
