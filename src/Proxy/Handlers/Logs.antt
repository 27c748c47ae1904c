-- ===== src/Proxy/Handlers/Logs.antt =====
-- The operations on the logs keep what their steps keep, whatever stands in the logs.
use irc_idler.Prelude.{ℕ, zero, suc, Bytes, Option, none, some}
use irc_idler.Irc.Message.{Message}
use irc_idler.Storage.{Fetched, entry, end, broken}
use irc_idler.Proxy.World.{Env, World, Proc}
use irc_idler.Proxy.World.Keeps.{Keeps, Keeps-pure, keeps_rules}
use irc_idler.Proxy.Link.{send_client}
use irc_idler.Proxy.Log.{store_op, replay_round, replay_loop, replay_from, replay_log, log_msg}

module _ {ℓ} (env : Env) {P : World env.store.State → Type ℓ}
    (sends : (m : Message) → Keeps P (send_client env m))
    (stores : (s : env.store.State) (w : World env.store.State)
      → P w
      → P (record w { logs = s })) where
  open env.store use {State, Cursor, get, next, clear, size}

  store_op-Keeps : {A : Type 0} (f : State → A × State) → Keeps P (store_op env f)
  unfolding store_op
  store_op-Keeps f = record { at = λ w p. let (a, s) = f w.logs in stores s w p }

  replay_round-Keeps :
      (name : Bytes) (rest : Proc State Unit) (x : Fetched)
      → Keeps P rest
      → Keeps P (replay_round env name rest x)
  unfolding replay_round
  replay_round-Keeps name rest (entry m) kr = search (keeps_rules, sends)
  replay_round-Keeps name rest end kr = search (keeps_rules, store_op-Keeps)
  replay_round-Keeps name rest broken kr = search keeps_rules

  replay_loop-Keeps : (fuel : ℕ) (name : Bytes) (c : Cursor) → Keeps P (replay_loop env fuel name c)
  unfolding replay_loop
  replay_loop-Keeps zero name c = Keeps-pure tt
  replay_loop-Keeps (suc fuel) name c =
      replay_round-Keeps name (replay_loop env fuel name (next c)) (get c)
        (replay_loop-Keeps fuel name (next c))

  replay_from-Keeps : (name : Bytes) (o : Option Cursor) → Keeps P (replay_from env name o)
  unfolding replay_from
  replay_from-Keeps name none = Keeps-pure tt
  replay_from-Keeps name (some c) = replay_loop-Keeps (suc (size c)) name c

  pub replay_log-Keeps : (name : Bytes) → Keeps P (replay_log env name)
  unfolding replay_log
  replay_log-Keeps name = search (keeps_rules, store_op-Keeps, replay_from-Keeps) depth 12

  pub log_msg-Keeps : (m : Message) → Keeps P (log_msg env m)
  unfolding log_msg
  log_msg-Keeps m = search (keeps_rules, store_op-Keeps) depth 12
