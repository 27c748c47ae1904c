-- ===== src/Proxy/Replay/Rounds.antt =====
-- The rounds of `replayLog`, from a cursor on: each message is written before the log is cleared.
use irc_idler.Prelude.{
  ℕ, zero, suc, ◌<◌, List, [], ◌∷◌, ◌++◌, append-nil, All, Bytes, bytes_eq_iff, Bool, ◌≡◌, refl,
  sym, ap, ◌∙◌, arith, Bool-cases, inl, inr, ◌⊎◌, if◌then◌else◌,
}
use mathlib.Core.Path.{subst}
use irc_idler.Irc.Message.{Message}
use irc_idler.State.Session.Total.{IsIndexable}
use irc_idler.Storage.{Fetched, entry, end, broken}
use irc_idler.Storage.Laws.{StoreLaws}
use irc_idler.Proxy.World.{Output, write_failed, closed, Env, World, Proc, ◌>>=◌, pure}
use irc_idler.Proxy.World.Runs.{bind_runs}
use irc_idler.Proxy.Link.{send_client}
use irc_idler.Proxy.Log.{store_op, replay_round, replay_loop}
use irc_idler.Proxy.Sends.{IsOpen, send_client-cases}
use irc_idler.Proxy.Replay.Ends.{Outcome, same-Outcome, store_failed, sent_first}

module _ (env : Env) (laws : StoreLaws env.store) where
  open env.store use {State, Cursor, get_channel, replay, clear, get, next, size}
  open laws use {contents, left, IsSound, IsSoundCursor}

  clear-Outcome :
      (id : ℕ) (name : Bytes) (w : World State)
      → IsSound w.logs
      → IsOpen id w
      → Outcome env laws id name [] w ((store_op env (clear name) >>= λ failed. pure tt) w)
  unfolding store_op ◌>>=◌ pure
  clear-Outcome id name w sound is_open = elim (Bool-cases (clear name w.logs).0) [
    | inl failed ↦ (
      record w { logs = (clear name w.logs).1 },
      refl,
      inr (record {
        stopped =
            store_failed env laws id [] w _ refl (λ r. cc (failed, r.clear_works name w.logs));
        logs_same = λ j. ground (arith, laws.clear-contents name j w.logs, failed);
        sound = laws.clear-IsSound name w.logs sound;
        client_gone = λ r. absurd (cc (failed, r.clear_works name w.logs));
      }),
    )
    | inr ok ↦ (
      record w { logs = (clear name w.logs).1 },
      refl,
      inl (record {
        written = sym (append-nil w.out);
        log_empty =
            ground (arith, laws.clear-contents name name w.logs, ok, bytes_eq_iff name name);
        others_same = λ j other. ground (arith, laws.clear-contents name j w.logs, ok, other);
        sound = laws.clear-IsSound name w.logs sound;
        still_open = is_open;
      }),
    )
  ]

  entry-Outcome :
      (id : ℕ) (name : Bytes) (m : Message) (ms : List Message) (rest : Proc State Unit)
      (w : World State)
      → IsOpen id w
      → IsSound w.logs
      → IsIndexable m
      → ((w1 : World State)
          → IsSound w1.logs
          → IsOpen id w1
          → Outcome env laws id name ms w1 (rest w1))
      → Outcome env laws id name (m ∷ ms) w (replay_round env name rest (entry m) w)
  unfolding replay_round pure
  entry-Outcome id name m ms rest w is_open sound ok more =
      let f = λ (sent : Bool). if sent then rest else pure tt in
      elim (send_client-cases env id m w ok is_open) [
        | inl s ↦
            same-Outcome env laws id name (m ∷ ms) (m ∷ ms) w refl
              (bind_runs (send_client env m) f w s.runs refl)
              (sent_first env laws id name m ms w s.after (rest s.after) s.written s.same_logs
                (more s.after (subst IsSound (sym s.same_logs) sound) s.still_open))
        | inr d ↦ (
          d.after,
          bind_runs (send_client env m) f w d.runs refl,
          inr (record {
            stopped = record {
              sent = [];
              unsent = m ∷ ms;
              split = refl;
              ending = inr (
                m,
                ms,
                d.closings,
                refl,
                d.written
                    ∙ ap (λ (o : List Output). o ++ write_failed id m ∷ closed id ∷ d.closings)
                        (sym (append-nil w.out)),
              );
            };
            logs_same = λ j. ap (λ (s : State). contents s j) d.same_logs;
            sound = subst IsSound (sym d.same_logs) sound;
            client_gone = λ r. d.gone;
          }),
        )
      ]

  -- One round, on what the cursor gives.
  round-Outcome :
      (id : ℕ) (name : Bytes) (c : Cursor) (rest : Proc State Unit) (w : World State) (x : Fetched)
      → get c ≡ x
      → IsSoundCursor c
      → IsSound w.logs
      → IsOpen id w
      → All IsIndexable (left c)
      → ((m : Message) (ms : List Message)
          → get c ≡ entry m
          → (left (next c) ≡ ms) ⊎ (get (next c) ≡ broken)
          → All IsIndexable ms
          → (w1 : World State) → IsSound w1.logs
          → IsOpen id w1
          → Outcome env laws id name ms w1 (rest w1))
      → Outcome env laws id name (left c) w (replay_round env name rest x w)
  unfolding replay_round pure
  round-Outcome id name c rest w (entry m) e sc sound is_open ok more =
      let (ms, same, behind) = laws.get_entry c e in
      let (first, others) = subst (All IsIndexable) same ok in
      same-Outcome env laws id name (m ∷ ms) (left c) w same refl
        (entry-Outcome id name m ms rest w is_open sound first (more m ms e behind others))
  round-Outcome id name c rest w end e sc sound is_open ok more =
      same-Outcome env laws id name [] (left c) w (laws.get_end c sc e) refl
        (clear-Outcome id name w sound is_open)
  round-Outcome id name c rest w broken e sc sound is_open ok more = (
    w,
    refl,
    inr (record {
      stopped = store_failed env laws id (left c) w w refl (λ r. r.get_works c sc e);
      logs_same = λ j. refl;
      sound = sound;
      client_gone = λ r. absurd (r.get_works c sc e);
    }),
  )

  -- A cursor that has failed ends the loop, whatever it had still to give.
  broken-Outcome :
      (fuel id : ℕ) (name : Bytes) (ms : List Message) (c : Cursor) (w : World State)
      → IsSoundCursor c
      → IsSound w.logs
      → get c ≡ broken
      → Outcome env laws id name ms w (replay_loop env (suc fuel) name c w)
  unfolding replay_loop replay_round pure
  broken-Outcome fuel id name ms c w sc sound e = (
    w,
    ap (λ (x : Fetched). replay_round env name (replay_loop env fuel name (next c)) x w) e,
    inr (record {
      stopped = store_failed env laws id ms w w refl (λ r. r.get_works c sc e);
      logs_same = λ j. refl;
      sound = sound;
      client_gone = λ r. absurd (r.get_works c sc e);
    }),
  )

  -- The rounds from a cursor on, on fuel that suffices, at the log's rest.
  pub rest-Outcome :
      (fuel id : ℕ) (name : Bytes) (ms : List Message) (c : Cursor) (w : World State)
      → size c < fuel
      → IsSoundCursor c
      → IsSound w.logs
      → IsOpen id w
      → (left c ≡ ms) ⊎ (get c ≡ broken)
      → All IsIndexable ms
      → Outcome env laws id name ms w (replay_loop env fuel name c w)
  unfolding replay_loop
  rest-Outcome zero id name ms c w enough sc sound is_open at ok = absurd (omega arith)
  rest-Outcome (suc fuel) id name ms c w enough sc sound is_open (inr e) ok =
      broken-Outcome fuel id name ms c w sc sound e
  rest-Outcome (suc fuel) id name ms c w enough sc sound is_open (inl at) ok =
      same-Outcome env laws id name (left c) ms w (sym at) refl (
        round-Outcome id name c (replay_loop env fuel name (next c)) w (get c) refl sc sound is_open
          (subst (All IsIndexable) (sym at) ok)
          (λ m ms e behind others w1 sound1 opened.
            rest-Outcome fuel id name ms (next c) w1 (omega (arith, enough, laws.size_falls c e))
              (laws.next-IsSoundCursor c sc e) sound1 opened behind others))
