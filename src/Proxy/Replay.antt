-- ===== src/Proxy/Replay.antt =====
-- `replayLog` writes a channel's whole log, in order, before it clears it.
pub mod Ends
pub mod Rounds
pub mod Stuck
use irc_idler.Prelude.{
  ℕ, zero, suc, ◌+◌, ◌<◌, List, [], ◌∷◌, ◌++◌, map, append_assoc, append-nil, All, Bytes, bytes_eq,
  bytes_eq_iff, Bool, true, false, Option, none, some, ◌≡◌, ◌≢◌, refl, sym, ap, ◌∙◌, arith,
  Option-cases, Bool-cases, inl, inr, is_some, ◌⊎◌, if◌then◌else◌,
}
use mathlib.Core.Path.{subst}
use irc_idler.Irc.Message.{Message}
use irc_idler.State.Session.Total.{IsIndexable}
use irc_idler.Storage.{Fetched, entry, end, broken}
use irc_idler.Storage.Laws.{StoreLaws, IsReliable}
use irc_idler.Proxy.World.{Output, wrote, Env, World, Proc, ◌>>=◌, pure}
use irc_idler.Proxy.World.Runs.{bind_runs}
use irc_idler.Proxy.Link.{send_client}
use irc_idler.Proxy.Log.{store_op, replay_round, replay_loop, replay_from, replay_log}
use irc_idler.Proxy.Sends.{IsOpen, IsSent, IsDropped, send_client-cases}
use irc_idler.Proxy.Replay.Ends.{IsReplayed, IsKept, store_failed, Outcome, same-Outcome}
use irc_idler.Proxy.Replay.Rounds.{rest-Outcome}

module _ (env : Env) (laws : StoreLaws env.store) where
  open env.store use {State, Cursor, get_channel, replay, clear, get, next, size}
  open laws use {contents, left, IsSound, IsSoundCursor}

  -- The operations before the loop leave the logs as they are.
  moved-Outcome :
      (id : ℕ) (name : Bytes) (ms : List Message) (w : World State) (s : State)
      {r : Option (Unit {0} × World State)}
      → ((j : Bytes) → contents s j ≡ contents w.logs j)
      → Outcome env laws id name ms (record w { logs = s }) r
      → Outcome env laws id name ms w r
  moved-Outcome id name ms w s same (w', runs, inl done) = (
    w',
    runs,
    inl (record {
      written = done.written;
      log_empty = done.log_empty;
      others_same = λ j other. done.others_same j other ∙ same j;
      sound = done.sound;
      still_open = done.still_open;
    }),
  )
  moved-Outcome id name ms w s same (w', runs, inr kept) = (
    w',
    runs,
    inr (record {
      stopped = record {
        sent = kept.stopped.sent;
        unsent = kept.stopped.unsent;
        split = kept.stopped.split;
        ending = kept.stopped.ending;
      };
      logs_same = λ j. kept.logs_same j ∙ same j;
      sound = kept.sound;
      client_gone = kept.client_gone;
    }),
  )

  cursor-Outcome :
      (id : ℕ) (name : Bytes) (ms : List Message) (o : Option Cursor) (w : World State)
      → IsSound w.logs
      → IsOpen id w
      → All IsIndexable ms
      → ((c : Cursor) → o ≡ some c → IsSoundCursor c × ((left c ≡ ms) ⊎ (get c ≡ broken)))
      → (IsReliable env.store laws → o ≢ none)
      → Outcome env laws id name ms w (replay_from env name o w)
  unfolding replay_from pure
  cursor-Outcome id name ms none w sound is_open ok same works = (
    w,
    refl,
    inr (record {
      stopped = store_failed env laws id ms w w refl (λ r. works r refl);
      logs_same = λ j. refl;
      sound = sound;
      client_gone = λ r. absurd (works r refl);
    }),
  )
  cursor-Outcome id name ms (some c) w sound is_open ok same works =
      rest-Outcome env laws (suc (size c)) id name ms c w (omega arith) (same c refl).0 sound
        is_open (same c refl).1 ok

  -- The run behind a `GetChannel` that works.
  opened-Outcome :
      (id : ℕ) (name : Bytes) (ms : List Message) (w : World State)
      → IsSound w.logs
      → IsOpen id w
      → All IsIndexable ms
      → contents w.logs name ≡ ms
      → Outcome env laws id name ms w
          ((store_op env (replay name) >>= λ cursor. replay_from env name cursor) w)
  unfolding store_op ◌>>=◌
  opened-Outcome id name ms w sound is_open ok same =
      moved-Outcome id name ms w (replay name w.logs).1 (λ j. laws.replay-contents name j w.logs)
        (cursor-Outcome id name ms (replay name w.logs).0
          (record w { logs = (replay name w.logs).1 }) (laws.replay-IsSound name w.logs sound)
          is_open ok
          (λ c e. (
            laws.replay-IsSoundCursor name w.logs sound e,
            elim (laws.replay-left name w.logs sound e) [
              | inl at ↦ inl (at ∙ same)
              | inr b ↦ inr b
            ],
          ))
          (λ r. r.replay_works name w.logs))

  -- Replaying a channel's log to a connected client ends, with any store that keeps the laws and
  -- any outcome of the writes, in a sound state of the store, if the session can take in the
  -- messages of the log. The state of the store behind it is sound again. Either all of them were
  -- written in order, the log is empty, no other log has changed and the client is still
  -- connected, or no log has changed and, if the store did not fail, the client is dropped: then
  -- some were written, in order, and the store failed, or the write of the next one did and the
  -- client's connection was closed.
  pub replay_log_lem :
      (id : ℕ) (name : Bytes) (w : World State)
      → IsSound w.logs
      → IsOpen id w
      → All IsIndexable (contents w.logs name)
      → (w' : World State) × (replay_log env name w ≡ some (tt, w'))
        × (IsReplayed env laws id name (contents w.logs name) w w'
            ⊎ IsKept env laws id (contents w.logs name) w w')
  unfolding replay_log store_op ◌>>=◌ pure
  replay_log_lem id name w sound is_open ok =
      let ms = contents w.logs name in
      let w1 = record w { logs = (get_channel name w.logs).1 } in
      let same = λ (j : Bytes). laws.get_channel-contents name j w.logs in
      elim (Bool-cases (get_channel name w.logs).0) [
        | inl failed ↦ (
          w1,
          ground (arith, failed),
          inr (record {
            stopped =
                store_failed env laws id ms w w1 refl
                  (λ r. cc (failed, r.get_channel_works name w.logs));
            logs_same = same;
            sound = laws.get_channel-IsSound name w.logs sound;
            client_gone = λ r. absurd (cc (failed, r.get_channel_works name w.logs));
          }),
        )
        | inr works ↦ moved-Outcome id name ms w (get_channel name w.logs).1 same (
            same-Outcome env laws id name ms ms w1 refl (ground (arith, works)) (
              opened-Outcome id name ms w1 (laws.get_channel-IsSound name w.logs sound) is_open ok
                (same name)))
      ]
