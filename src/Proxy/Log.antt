-- ===== src/Proxy/Log.antt =====
-- `replayLog` and `logMessage`.
use irc_idler.Prelude.{
  ℕ, zero, suc, [], ◌∷◌, Bytes, bytes_eq, one_of, Bool, Option, none, some, if◌then◌else◌,
}
use irc_idler.Irc.Message.{Message}
use irc_idler.Irc.Codes.{cmd_quit, cmd_privmsg, cmd_notice, cmd_join, cmd_kick, cmd_part, cmd_nick}
use irc_idler.Storage.{Fetched, entry, end, broken}
use irc_idler.Proxy.World.{Env, Proc, ◌>>=◌, pure, param}
use irc_idler.Proxy.Link.{send_client}

module _ (env : Env) where
  open env.store use {State, Cursor, get_channel, log_message, replay, clear, get, next, size}

  -- An operation of the store.
  unfoldable pub store_op : {A : Type 0} → (State → A × State) → Proc State A
  store_op f w = let (a, s) = f w.logs in some (a, record w { logs = s })

  -- A round of the loop over the cursor, with the rounds behind it.
  unfoldable pub replay_round : Bytes → Proc State Unit → Fetched → Proc State Unit
  replay_round name rest (entry m) = do sent ← send_client env m; if sent then rest else pure tt
  replay_round name rest end = do failed ← store_op (clear name); pure tt
  replay_round name rest broken = pure tt

  -- Each round takes one message, so the cursor's size is fuel enough.
  unfoldable pub replay_loop : ℕ → Bytes → Cursor → Proc State Unit
  replay_loop zero name c = pure tt
  replay_loop (suc fuel) name c = replay_round name (replay_loop fuel name (next c)) (get c)

  unfoldable pub replay_from : Bytes → Option Cursor → Proc State Unit
  replay_from name none = pure tt
  replay_from name (some c) = replay_loop (suc (size c)) name c

  unfoldable pub replay_log : Bytes → Proc State Unit
  unfolding store_op replay_round replay_loop replay_from
  replay_log name = do
    failed ← store_op (get_channel name)
    if failed then pure tt else do cursor ← store_op (replay name); replay_from name cursor

  -- The commands that are worth logging.
  unfoldable pub is_logged : Bytes → Bool
  is_logged c = one_of c (cmd_privmsg ∷ cmd_notice ∷ cmd_join ∷ cmd_kick ∷ cmd_part ∷ cmd_nick ∷ [])

  unfoldable pub log_msg : Message → Proc State Unit
  unfolding store_op is_logged
  log_msg m =
      if bytes_eq m.command cmd_quit
      then pure tt
      else if is_logged m.command
      then (do
        name ← param m 0
        failed ← store_op (get_channel name)
        if failed then pure tt else do failed' ← store_op (log_message name m); pure tt)
      else pure tt
