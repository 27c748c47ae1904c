-- ===== src/Proxy/Replay/Ends.antt =====
-- How a replay of a log can end: the log written and cleared, or a store or a write that failed.
use irc_idler.Prelude.{
  ℕ, List, [], ◌∷◌, ◌++◌, map, append_assoc, append-nil, Bytes, bytes_eq, false, Option, none, some,
  ◌≡◌, refl, sym, ap, ◌∙◌, inl, inr, ◌⊎◌,
}
use mathlib.Core.Path.{subst}
use irc_idler.Irc.Message.{Message}
use irc_idler.Storage.Laws.{StoreLaws, IsReliable}
use irc_idler.Proxy.World.{Output, wrote, write_failed, closed, Env, World}
use irc_idler.Proxy.Sends.{IsOpen}

module _ (env : Env) (laws : StoreLaws env.store) where
  open env.store use {State, Cursor, get_channel, replay, clear, get, next, size}
  open laws use {contents, left, IsSound, IsSoundCursor}

  -- All of `ms` was written, in order, and the channel's log is empty.
  pub record IsReplayed (id : ℕ) (name : Bytes) (ms : List Message) (w w' : World State)
      : Type 0 where
    pub written : w'.out ≡ w.out ++ map (wrote id) ms
    pub log_empty : contents w'.logs name ≡ []
    pub others_same : (j : Bytes) → bytes_eq name j ≡ false → contents w'.logs j ≡ contents w.logs j
    pub sound : IsSound w'.logs
    pub still_open : IsOpen id w'

  -- Some of `ms` were written, in order, and then the store failed, or the write of the next one
  -- did, and the client's connection was closed.
  pub record IsStopped (id : ℕ) (ms : List Message) (w w' : World State) : Type 0 where
    pub sent : List Message
    pub unsent : List Message
    pub split : ms ≡ sent ++ unsent
    pub ending :
        ((w'.out ≡ w.out ++ map (wrote id) sent) × ¬ IsReliable env.store laws)
        ⊎ ((m : Message) × (more : List Message) × (closings : List Output) × (unsent ≡ m ∷ more)
            × (w'.out ≡ (w.out ++ map (wrote id) sent) ++ write_failed id m ∷ closed id ∷ closings))

  -- No log has changed; if it was not the store that failed, the client is gone.
  pub record IsKept (id : ℕ) (ms : List Message) (w w' : World State) : Type 0 where
    pub stopped : IsStopped id ms w w'
    pub logs_same : (j : Bytes) → contents w'.logs j ≡ contents w.logs j
    pub sound : IsSound w'.logs
    pub client_gone : IsReliable env.store laws → w'.client.rwc ≡ none

  abbrev pub Outcome :
      ℕ → Bytes → List Message → World State → Option (Unit {0} × World State) → Type 0
  Outcome id name ms w r =
      (w' : World State) × (r ≡ some (tt, w')) × (IsReplayed id name ms w w' ⊎ IsKept id ms w w')

  -- Nothing was done to a connection, as the store failed.
  pub store_failed :
      (id : ℕ) (ms : List Message) (w w' : World State)
      → w'.out ≡ w.out
      → ¬ IsReliable env.store laws
      → IsStopped id ms w w'
  store_failed id ms w w' same fails = record {
    sent = [];
    unsent = ms;
    split = refl;
    ending = inl (same ∙ sym (append-nil w.out), fails);
  }

  stopped_behind :
      (id : ℕ) (m : Message) (ms : List Message) (w w1 w' : World State)
      → w1.out ≡ w.out ++ wrote id m ∷ []
      → IsStopped id ms w1 w'
      → IsStopped id (m ∷ ms) w w'
  stopped_behind id m ms w w1 w' written s =
      let behind : w1.out ++ map (wrote id) s.sent ≡ w.out ++ map (wrote id) (m ∷ s.sent) =
        ap (λ (o : List Output). o ++ map (wrote id) s.sent) written
        ∙ append_assoc w.out (wrote id m ∷ []) (map (wrote id) s.sent) in
      record {
        sent = m ∷ s.sent;
        unsent = s.unsent;
        split = ap (λ (l : List Message). m ∷ l) s.split;
        ending = elim s.ending [
          | inl (out, fails) ↦ inl (out ∙ behind, fails)
          | inr (n, more, closings, next_one, out) ↦ inr (
            n,
            more,
            closings,
            next_one,
            out ∙ ap (λ (o : List Output). o ++ write_failed id n ∷ closed id ∷ closings) behind,
          )
        ];
      }

  -- What was replayed behind a message that was sent.
  pub sent_first :
      (id : ℕ) (name : Bytes) (m : Message) (ms : List Message) (w w1 : World State)
      (r : Option (Unit {0} × World State))
      → w1.out ≡ w.out ++ wrote id m ∷ []
      → w1.logs ≡ w.logs
      → Outcome id name ms w1 r
      → Outcome id name (m ∷ ms) w r
  sent_first id name m ms w w1 r written same (w', runs, inl done) = (
    w',
    runs,
    inl (record {
      written =
          done.written
          ∙ ap (λ (o : List Output). o ++ map (wrote id) ms) written
          ∙ append_assoc w.out (wrote id m ∷ []) (map (wrote id) ms);
      log_empty = done.log_empty;
      others_same = λ j other. done.others_same j other ∙ ap (λ (s : State). contents s j) same;
      sound = done.sound;
      still_open = done.still_open;
    }),
  )
  sent_first id name m ms w w1 r written same (w', runs, inr kept) = (
    w',
    runs,
    inr (record {
      stopped = stopped_behind id m ms w w1 w' written kept.stopped;
      logs_same = λ j. kept.logs_same j ∙ ap (λ (s : State). contents s j) same;
      sound = kept.sound;
      client_gone = kept.client_gone;
    }),
  )

  pub same-Outcome :
      (id : ℕ) (name : Bytes) (ms ms' : List Message) (w : World State)
      {r r' : Option (Unit {0} × World State)}
      → ms' ≡ ms
      → r' ≡ r
      → Outcome id name ms w r
      → Outcome id name ms' w r'
  same-Outcome id name ms ms' w {r} {r'} same e (w', runs, out) =
      subst (λ (l : List Message). Outcome id name l w r') (sym same) (w', e ∙ runs, out)
