-- ===== src/Irc/Filters/Pong/Replies.antt =====
-- Where `AutoPong` sends the messages that it receives.
use irc_idler.Prelude.{
  List, [], ◌∷◌, ◌++◌, map, some, ◌≡◌, refl, ap, ◌∙◌, append-nil, append_assoc, length, ◌≤◌, arith,
  inl, inr, sym, ◌⊎◌,
}
use irc_idler.Prelude.Machine.{run-cons}
use irc_idler.Irc.Message.{Message}
use irc_idler.Irc.Codes.{cmd_ping, cmd_pong}
use irc_idler.Prelude.{◌≢◌, bytes_eq, bytes_eq_iff, Bool-cases}
use irc_idler.Irc.Filters.Pong.{
  forward, reply, Dest, Exchange, cancelled, arrive, in_closed, taken, Ponger, listening, offering,
  returned, panicked, answered, pong_step, auto_pong,
}

unfoldable pub arrivals : List Exchange → List Message
arrivals [] = []
arrivals (cancelled ∷ xs) = arrivals xs
arrivals (arrive m ∷ xs) = m ∷ arrivals xs
arrivals (in_closed ∷ xs) = arrivals xs
arrivals (taken ∷ xs) = arrivals xs

-- What a state has received and not sent.
unfoldable pub pending : Ponger → List (Dest × Message)
pending listening = []
pending (offering d m) = (d, m) ∷ []
pending returned = []
pending panicked = []

few_pending : (s : Ponger) → length (pending s) ≤ 1
unfolding pending
few_pending listening = omega arith
few_pending (offering d m) = omega arith
few_pending returned = omega arith
few_pending panicked = omega arith

-- What is due from a state on: what it holds, and what arrives.
abbrev due : Ponger → List Exchange → List (Dest × Message)
due s xs = pending s ++ map answered (arrivals xs)

abbrev SendsDue : Ponger → List Exchange → List (Dest × Message) → Type 0
SendsDue s xs sent = (lost : List (Dest × Message)) × (length lost ≤ 1) × (sent ++ lost ≡ due s xs)

-- The answers to messages, in order: a PONG to reply for each PING, with what else it said, and
-- each other message to forward as it is.
pub data Answers : List Message → List (Dest × Message) → Type 0 where
  none_left : Answers [] []
  pinged :
      (m : Message) {ms : List Message} {out : List (Dest × Message)}
      → m.command ≡ cmd_ping
      → Answers ms out
      → Answers (m ∷ ms) ((reply, record m { command = cmd_pong }) ∷ out)
  spoken :
      (m : Message) {ms : List Message} {out : List (Dest × Message)}
      → m.command ≢ cmd_ping
      → Answers ms out
      → Answers (m ∷ ms) ((forward, m) ∷ out)

answered-Answers : (ms : List Message) → Answers ms (map answered ms)
unfolding answered
answered-Answers [] = none_left
answered-Answers (m ∷ ms) = elim (Bool-cases (bytes_eq m.command cmd_ping)) [
  | inl ping ↦
      let e : m.command ≡ cmd_ping = (bytes_eq_iff m.command cmd_ping).0 ping in
      rw ping (pinged m e (answered-Answers ms))
  | inr other ↦
      rw other
        (spoken m (λ e. cc (other, (bytes_eq_iff m.command cmd_ping).1 e)) (answered-Answers ms))
]

-- What the state holds and then the answers to what arrives were sent in order, but for one message
-- at most at the end.
abbrev pub Sends : Ponger → List Exchange → List (Dest × Message) → Type 0
Sends s xs sent =
    (lost : List (Dest × Message)) × (answers : List (Dest × Message)) × (length lost ≤ 1)
    × Answers (arrivals xs) answers
    × (sent ++ lost ≡ pending s ++ answers)

run_stopped :
    (s : Ponger) (xs : List Exchange) {s' : Ponger} {sent : List (Dest × Message)}
    → (s ≡ returned) ⊎ (s ≡ panicked)
    → auto_pong s xs ≡ some (s', sent)
    → (xs ≡ []) × (sent ≡ [])
unfolding auto_pong
run_stopped s [] h e = ground arith
run_stopped listening (x ∷ xs) h e = ground arith
run_stopped (offering d m) (x ∷ xs) h e = ground arith
run_stopped returned (x ∷ xs) h e = ground arith
run_stopped panicked (x ∷ xs) h e = ground arith

-- A step that goes on keeps what is due; another loses what is pending.
pong_step_lem :
    (s : Ponger) (x : Exchange) (xs : List Exchange) {s1 : Ponger} {sent : List (Dest × Message)}
    → pong_step s x ≡ some (s1, sent)
    → (sent ++ due s1 xs ≡ due s (x ∷ xs))
      ⊎ (((s1 ≡ returned) ⊎ (s1 ≡ panicked)) × (sent ≡ []) × (arrivals (x ∷ xs) ≡ arrivals xs))
unfolding pong_step pending arrivals
pong_step_lem listening cancelled xs e = ground arith
pong_step_lem listening (arrive m) xs e = ground arith
pong_step_lem listening in_closed xs e = ground arith
pong_step_lem listening taken xs e = ground arith
pong_step_lem (offering d m) cancelled xs e = ground arith
pong_step_lem (offering d m) (arrive m') xs e = ground arith
pong_step_lem (offering d m) in_closed xs e = ground arith
pong_step_lem (offering d m) taken xs e = ground arith
pong_step_lem returned x xs e = ground arith
pong_step_lem panicked x xs e = ground arith

-- AutoPong sends what is due, but for one message at most.
sends_due :
    (s : Ponger) (xs : List Exchange) {s' : Ponger} {sent : List (Dest × Message)}
    → auto_pong s xs ≡ some (s', sent)
    → SendsDue s xs sent
unfolding auto_pong
sends_due s [] e = (pending s, few_pending s, unfold arrivals in simp (append-nil) (ground arith))
sends_due s (x ∷ xs) {s'} {sent} e =
    let (s1, sent1, more, e1, e3, whole) = run-cons pong_step s x xs e in
    elim (pong_step_lem s x xs e1) [
      | inl keeps ↦
          let (lost, few, rest) = sends_due s1 xs e3 in
          (
            lost,
            few,
            ap (λ (l : List (Dest × Message)). l ++ lost) whole
                ∙ append_assoc sent1 more lost
                ∙ ap (λ (l : List (Dest × Message)). sent1 ++ l) rest
                ∙ keeps,
          )
      | inr (stopped, none_sent, same) ↦
          let (no_more, nothing) = run_stopped s1 xs stopped e3 in
          let none_at_all : sent ≡ [] = whole ∙ rw (none_sent, nothing) refl in
          let no_arrivals : [] ≡ arrivals (x ∷ xs) = unfold arrivals in cc (same, no_more) in
          (
            pending s,
            few_pending s,
            ap (λ (l : List (Dest × Message)). l ++ pending s) none_at_all
                ∙ sym (append-nil (pending s))
                ∙ ap (λ (l : List Message). pending s ++ map answered l) no_arrivals,
          )
    ]

-- AutoPong sends on all that it received in order, but for one message at most at the end: each
-- PING to reply as a PONG, and each other message to forward.
pub auto_pong_lem :
    (s : Ponger) (xs : List Exchange) {s' : Ponger} {sent : List (Dest × Message)}
    → auto_pong s xs ≡ some (s', sent)
    → Sends s xs sent
auto_pong_lem s xs e =
    let (lost, few, whole) = sends_due s xs e in
    (lost, map answered (arrivals xs), few, answered-Answers (arrivals xs), whole)
