-- ===== src/Proxy/Replay/Stuck.antt =====
-- `replayLog` with the SQL store, on a log with a text that cannot be read back.
use mathlib.Core.Path.{subst}
use irc_idler.Prelude.{
  ℕ, zero, suc, Bytes, List, [], ◌∷◌, ◌++◌, Bool, Option, none, some, ◌≡◌, refl, sym, ◌∙◌, arith,
  Bool-cases, inl, inr,
}
use irc_idler.Irc.Message.{Message}
use irc_idler.Storage.{Fetched, entry, end, broken}
use irc_idler.Storage.Sql.{
  Database, SqlStore, SqlCursor, sql_store, get_channel, replay, next, get, size,
}
use irc_idler.Storage.Sql.Rows.{DatabaseLaws, Table, texts}
use irc_idler.Storage.Sql.Meets.{get_channel-table}
use irc_idler.Storage.Sql.Refused.{
  IsBlocked, NeverEnds, moved-NeverEnds, replay-NeverEnds, replay-table,
}
use irc_idler.Proxy.World.{Output, write_failed, Env, World, Proc, ◌>>=◌}
use irc_idler.Proxy.World.Keeps.{After, Keeps, Keeps-bind, Keeps-pure, Keeps-if}
use irc_idler.Proxy.Link.{send_client, client_write, delivered, not_delivered, drop_client_world}
use irc_idler.Proxy.Log.{store_op, replay_round, replay_loop, replay_from, replay_log}

-- A send to the client leaves the logs as they are.
module _ (env : Env) (Q : env.store.State → Type 0) where
  abbrev OfLogs : World env.store.State → Type 0
  OfLogs w = Q w.logs

  delivered-OfLogs :
      (m : Message) (id : ℕ) (w : World env.store.State)
      → OfLogs w
      → After OfLogs (delivered env m id w)
  unfolding delivered
  delivered-OfLogs m id w h = ground (arith, h)

  dropped-OfLogs : (w : World env.store.State) → OfLogs w → OfLogs (drop_client_world w)
  unfolding drop_client_world
  dropped-OfLogs w h = subst Q (ground arith) h

  write-OfLogs :
      (m : Message) (o : Option ℕ) (w : World env.store.State)
      → OfLogs w
      → After OfLogs (client_write env m o w)
  unfolding client_write
  write-OfLogs m none w h = h
  write-OfLogs m (some id) w h = elim (Bool-cases (env.writes w.out id m)) [
    | inl ok ↦ rw ok (delivered-OfLogs m id w h)
    | inr failed ↦ rw failed (
        unfold not_delivered in
        dropped-OfLogs (record w { out = w.out ++ write_failed id m ∷ [] }) h)
  ]

  send-OfLogs : (m : Message) → Keeps OfLogs (send_client env m)
  unfolding send_client
  send-OfLogs m = record { at = λ w. write-OfLogs m w.client.rwc w }

-- A daemon on the SQL store, with the outcome of its writes and the order of its maps.
abbrev pub sql_env :
    (D : Database)
    → (List Output → ℕ → Message → Bool)
    → (List Output → List Bytes → List Bytes)
    → Env
sql_env D writes order = record { store = sql_store D; writes = writes; order = order }

module _ (D : Database) (laws : DatabaseLaws D) (writes : List Output → ℕ → Message → Bool)
    (order : List Output → List Bytes → List Bytes) where
  open laws use {table}

  abbrev HasTable : Table → World (SqlStore D) → Type 0
  HasTable T w = table w.logs.db ≡ T

  round-HasTable :
      (T : Table) (name : Bytes) (c : SqlCursor D) (rest : Proc (SqlStore D) Unit) (x : Fetched)
      → get D c ≡ x
      → NeverEnds D laws c
      → ((m : Message) → get D c ≡ entry m → Keeps (HasTable T) rest)
      → Keeps (HasTable T) (replay_round (sql_env D writes order) name rest x)
  unfolding replay_round
  round-HasTable T name c rest (entry m) e h kr =
      Keeps-bind _ _ (send-OfLogs (sql_env D writes order) (λ s. table s.db ≡ T) m)
        (λ sent. Keeps-if sent _ _ (kr m e) (Keeps-pure tt))
  round-HasTable T name c rest end e (inl b) kr = absurd (cc (e, b))
  round-HasTable T name c rest end e (inr (m, f, _)) kr = absurd (cc (e, f))
  round-HasTable T name c rest broken e h kr = Keeps-pure tt

  next-NeverEnds :
      (c : SqlCursor D) (m : Message)
      → get D c ≡ entry m
      → NeverEnds D laws c
      → NeverEnds D laws (next D c)
  next-NeverEnds c m e (inl b) = absurd (cc (e, b))
  next-NeverEnds c m e (inr (n, f, h)) = unfold next in moved-NeverEnds D laws c.rows c.msg _ refl h

  loop-HasTable :
      (T : Table) (fuel : ℕ) (name : Bytes) (c : SqlCursor D)
      → NeverEnds D laws c
      → Keeps (HasTable T) (replay_loop (sql_env D writes order) fuel name c)
  unfolding replay_loop
  loop-HasTable T zero name c h = Keeps-pure tt
  loop-HasTable T (suc fuel) name c h =
      round-HasTable T name c (replay_loop (sql_env D writes order) fuel name (next D c)) (get D c)
        refl h (λ m e. loop-HasTable T fuel name (next D c) (next-NeverEnds c m e h))

  from-HasTable :
      (T : Table) (name : Bytes) (o : Option (SqlCursor D))
      → ((c : SqlCursor D) → o ≡ some c → NeverEnds D laws c)
      → Keeps (HasTable T) (replay_from (sql_env D writes order) name o)
  unfolding replay_from
  from-HasTable T name none h = Keeps-pure tt
  from-HasTable T name (some c) h = loop-HasTable T (suc (size D c)) name c (h c refl)

  opened-HasTable :
      (T : Table) (name : Bytes)
      → IsBlocked (texts name T)
      → Keeps (HasTable T) (
          store_op (sql_env D writes order) (replay D name) >>= λ cursor.
          replay_from (sql_env D writes order) name cursor)
  unfolding store_op ◌>>=◌
  opened-HasTable T name h = record {
    at = λ w same.
        (from-HasTable T name (replay D name w.logs).0 (λ c e.
            replay-NeverEnds D laws name w.logs
              (subst (λ (t : Table). IsBlocked (texts name t)) (sym same) h) e)).at
          (record w { logs = (replay D name w.logs).1 }) (replay-table D laws name w.logs ∙ same);
  }

  channel-HasTable :
      (T : Table) (name : Bytes)
      → Keeps (HasTable T) (store_op (sql_env D writes order) (get_channel D name))
  unfolding store_op
  channel-HasTable T name = record { at = λ w same. get_channel-table D laws name w.logs ∙ same }

  log-HasTable :
      (T : Table) (name : Bytes)
      → IsBlocked (texts name T)
      → Keeps (HasTable T) (replay_log (sql_env D writes order) name)
  unfolding replay_log
  log-HasTable T name h =
      Keeps-bind _ _ (channel-HasTable T name)
        (λ failed. Keeps-if failed _ _ (Keeps-pure tt) (opened-HasTable T name h))

  -- With the SQL store over a database that keeps its laws, a run of replayLog on a channel one
  -- of whose texts ParseMessage refuses, where none before that text reads as the end, leaves the
  -- whole table as it is, whatever the writes do: the log is not cleared.
  pub replay_log-refused :
      (name : Bytes) (w : World (SqlStore D)) {w' : World (SqlStore D)}
      → IsBlocked (texts name (table w.logs.db))
      → replay_log (sql_env D writes order) name w ≡ some (tt, w')
      → table w'.logs.db ≡ table w.logs.db
  replay_log-refused name w {w'} h runs =
      let behind = (log-HasTable (table w.logs.db) name h).at w refl in rw runs at behind
