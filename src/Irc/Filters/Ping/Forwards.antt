-- ===== src/Irc/Filters/Ping/Forwards.antt =====
-- What `AutoPing` sends on: the messages that it receives, without the PONGs.
use irc_idler.Prelude.{
  ℕ, List, [], ◌∷◌, ◌++◌, some, ◌≡◌, refl, sym, ap, ◌∙◌, append-nil, append_assoc, length, ◌≤◌,
  arith, inl, inr, Option, none, ◌⊎◌, bytes_eq, if◌then◌else◌, true, false,
}
use irc_idler.Prelude.Machine.{run, run-cons}
use irc_idler.Irc.Message.{Message}
use irc_idler.Irc.Codes.{cmd_pong}
use irc_idler.Irc.Filters.Pong.{Dest, forward, reply}
use irc_idler.Irc.Filters.Ping.{
  running, fired, spent, Signal, cancelled, arrive, in_closed, taken, expires, tick, Pinger,
  listening, forwarding, pinging, returned, disconnected, blocked, panicked, on_message, ping_step,
  pinger, auto_ping,
}
use irc_idler.Irc.Filters.Ping.Quiet.{Fits, quiet, ping_step-Fits}

-- The messages that arrive and are no PONG.
unfoldable pub spoken : List Signal → List Message
spoken [] = []
spoken (cancelled ∷ xs) = spoken xs
spoken (arrive m ∷ xs) =
    let rest = spoken xs in if bytes_eq m.command cmd_pong then rest else m ∷ rest
spoken (in_closed ∷ xs) = spoken xs
spoken (taken ∷ xs) = spoken xs
spoken (expires ∷ xs) = spoken xs
spoken (tick ∷ xs) = spoken xs

-- What is sent to `forward`.
unfoldable pub forwarded : List (Dest × Message) → List Message
forwarded [] = []
forwarded ((forward, m) ∷ l) = m ∷ forwarded l
forwarded ((reply, m) ∷ l) = forwarded l

forwarded-append : (l r : List (Dest × Message)) → forwarded (l ++ r) ≡ forwarded l ++ forwarded r
unfolding forwarded
forwarded-append [] r = refl
forwarded-append ((forward, m) ∷ l) r = ap (λ (t : List Message). m ∷ t) (forwarded-append l r)
forwarded-append ((reply, m) ∷ l) r = forwarded-append l r

-- What a state has received and not sent.
held : Pinger → List Message
held (listening sent t) = []
held (forwarding m t) = m ∷ []
held pinging = []
held returned = []
held disconnected = []
held blocked = []
held panicked = []

few_held : (s : Pinger) → length (held s) ≤ 1
unfolding held
few_held (listening sent t) = omega arith
few_held (forwarding m t) = omega arith
few_held pinging = omega arith
few_held returned = omega arith
few_held disconnected = omega arith
few_held blocked = omega arith
few_held panicked = omega arith

data Stopped : Pinger → Type 0 where
  by_return : Stopped returned
  by_disconnect : Stopped disconnected
  by_panic : Stopped panicked

run-Stopped :
    {s s' : Pinger} (xs : List Signal) {sent : List (Dest × Message)}
    → Stopped s
    → run ping_step s xs ≡ some (s', sent)
    → (xs ≡ []) × (sent ≡ [])
unfolding run ping_step
run-Stopped [] h e = ground arith
run-Stopped (x ∷ xs) by_return e = ground arith
run-Stopped (x ∷ xs) by_disconnect e = ground arith
run-Stopped (x ∷ xs) by_panic e = ground arith

held-on_message :
    (m : Message) (xs : List Signal) → held (on_message m) ++ spoken xs ≡ spoken (arrive m ∷ xs)
unfolding held on_message spoken
held-on_message m xs = ground arith

-- What is due from a state on.
abbrev due : Pinger → List Signal → List Message
due s xs = held s ++ spoken xs

abbrev StepSends : Pinger → Signal → List Signal → Option (Pinger × List (Dest × Message)) → Type 0
StepSends s x xs none = Unit
StepSends s x xs (some (s1, sent)) =
    (forwarded sent ++ due s1 xs ≡ due s (x ∷ xs))
    ⊎ (Stopped s1 × (sent ≡ []) × (spoken (x ∷ xs) ≡ spoken xs))

-- A step that goes on keeps what is due; another loses what is held.
step_lem :
    (s : Pinger) (x : Signal) (xs : List Signal) (n : ℕ)
    → Fits s n
    → StepSends s x xs (ping_step s x)
unfolding Fits ping_step held spoken forwarded
step_lem (listening true running) cancelled xs n ok = inr (by_return, refl, refl)
step_lem (listening true running) (arrive m') xs n ok = inl (held-on_message m' xs)
step_lem (listening true running) in_closed xs n ok = inr (by_panic, refl, refl)
step_lem (listening true running) taken xs n ok = tt
step_lem (listening true running) expires xs n ok = inl refl
step_lem (listening true running) tick xs n ok = tt
step_lem (listening true fired) cancelled xs n ok = inr (by_return, refl, refl)
step_lem (listening true fired) (arrive m') xs n ok = inl (held-on_message m' xs)
step_lem (listening true fired) in_closed xs n ok = inr (by_panic, refl, refl)
step_lem (listening true fired) taken xs n ok = tt
step_lem (listening true fired) expires xs n ok = tt
step_lem (listening true fired) tick xs n ok = inr (by_disconnect, refl, refl)
step_lem (listening true spent) cancelled xs n ok = absurd ok
step_lem (listening true spent) (arrive m') xs n ok = absurd ok
step_lem (listening true spent) in_closed xs n ok = absurd ok
step_lem (listening true spent) taken xs n ok = absurd ok
step_lem (listening true spent) expires xs n ok = absurd ok
step_lem (listening true spent) tick xs n ok = absurd ok
step_lem (listening false running) cancelled xs n ok = inr (by_return, refl, refl)
step_lem (listening false running) (arrive m') xs n ok = inl (held-on_message m' xs)
step_lem (listening false running) in_closed xs n ok = inr (by_panic, refl, refl)
step_lem (listening false running) taken xs n ok = tt
step_lem (listening false running) expires xs n ok = inl refl
step_lem (listening false running) tick xs n ok = tt
step_lem (listening false fired) cancelled xs n ok = inr (by_return, refl, refl)
step_lem (listening false fired) (arrive m') xs n ok = inl (held-on_message m' xs)
step_lem (listening false fired) in_closed xs n ok = inr (by_panic, refl, refl)
step_lem (listening false fired) taken xs n ok = tt
step_lem (listening false fired) expires xs n ok = tt
step_lem (listening false fired) tick xs n ok = inl refl
step_lem (listening false spent) cancelled xs n ok = absurd ok
step_lem (listening false spent) (arrive m') xs n ok = absurd ok
step_lem (listening false spent) in_closed xs n ok = absurd ok
step_lem (listening false spent) taken xs n ok = absurd ok
step_lem (listening false spent) expires xs n ok = absurd ok
step_lem (listening false spent) tick xs n ok = absurd ok
step_lem (forwarding m running) cancelled xs n ok = inr (by_return, refl, refl)
step_lem (forwarding m running) (arrive m') xs n ok = tt
step_lem (forwarding m running) in_closed xs n ok = tt
step_lem (forwarding m running) taken xs n ok = inl refl
step_lem (forwarding m running) expires xs n ok = inl refl
step_lem (forwarding m running) tick xs n ok = tt
step_lem (forwarding m fired) cancelled xs n ok = inr (by_return, refl, refl)
step_lem (forwarding m fired) (arrive m') xs n ok = tt
step_lem (forwarding m fired) in_closed xs n ok = tt
step_lem (forwarding m fired) taken xs n ok = inl refl
step_lem (forwarding m fired) expires xs n ok = tt
step_lem (forwarding m fired) tick xs n ok = tt
step_lem (forwarding m spent) cancelled xs n ok = absurd ok
step_lem (forwarding m spent) (arrive m') xs n ok = absurd ok
step_lem (forwarding m spent) in_closed xs n ok = absurd ok
step_lem (forwarding m spent) taken xs n ok = absurd ok
step_lem (forwarding m spent) expires xs n ok = absurd ok
step_lem (forwarding m spent) tick xs n ok = absurd ok
step_lem pinging cancelled xs n ok = inr (by_return, refl, refl)
step_lem pinging (arrive m') xs n ok = tt
step_lem pinging in_closed xs n ok = tt
step_lem pinging taken xs n ok = inl refl
step_lem pinging expires xs n ok = tt
step_lem pinging tick xs n ok = tt
step_lem returned x xs n ok = tt
step_lem disconnected x xs n ok = tt
step_lem panicked x xs n ok = tt
step_lem blocked x xs n ok = absurd ok

-- What was sent to `forward` is what was due, but for one message at most at the end.
Forwards : Pinger → List Signal → List (Dest × Message) → Type 0
Forwards s xs sent = (lost : List Message) × (length lost ≤ 1) × (forwarded sent ++ lost ≡ due s xs)

run-Forwards :
    (s : Pinger) (xs : List Signal) (n : ℕ) {s' : Pinger} {sent : List (Dest × Message)}
    → Fits s n
    → run ping_step s xs ≡ some (s', sent)
    → Forwards s xs sent
unfolding run Forwards
run-Forwards s [] n {s'} {sent} ok e =
    let none_sent : sent ≡ [] = cc e in
    (held s, few_held s, rw none_sent (unfold spoken forwarded in sym (append-nil (held s))))
run-Forwards s (x ∷ xs) n {s'} {sent} ok e =
    let (s1, sent1, more, e1, e3, whole) = run-cons ping_step s x xs e in
    let all : forwarded sent ≡ forwarded sent1 ++ forwarded more =
      ap forwarded whole ∙ forwarded-append sent1 more in
    let step : StepSends s x xs (some (s1, sent1)) = rw e1 at (step_lem s x xs n ok) in
    elim step [
      | inl keeps ↦
          let (lost, few, rest) =
            run-Forwards s1 xs (quiet n (x ∷ [])) (ping_step-Fits s x n ok e1) e3 in
          (
            lost,
            few,
            ap (λ (l : List Message). l ++ lost) all
                ∙ append_assoc (forwarded sent1) (forwarded more) lost
                ∙ ap (λ (l : List Message). forwarded sent1 ++ l) rest
                ∙ keeps,
          )
      | inr (stopped, none_sent, same) ↦
          let (no_more, nothing) = run-Stopped xs stopped e3 in
          let empty : forwarded sent ≡ [] = all ∙ unfold forwarded in cc (none_sent, nothing) in
          (
            held s,
            few_held s,
            ap (λ (l : List Message). l ++ held s) empty
                ∙ sym (append-nil (held s))
                ∙ ap (λ (l : List Message). held s ++ l) (unfold spoken in cc (same, no_more)),
          )
    ]

-- What AutoPing sends to forward is what it received and is no PONG, in order, but for one
-- message at most at the end.
pub auto_ping-forwarded :
    (xs : List Signal) {s : Pinger} {sent : List (Dest × Message)}
    → auto_ping xs ≡ some (s, sent)
    → (lost : List Message) × (length lost ≤ 1) × (forwarded sent ++ lost ≡ spoken xs)
unfolding auto_ping Forwards held Fits
auto_ping-forwarded xs e = run-Forwards pinger xs 0 (omega arith) e
