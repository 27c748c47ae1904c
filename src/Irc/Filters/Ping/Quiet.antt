-- ===== src/Irc/Filters/Ping/Quiet.antt =====
-- How long a peer may be silent before `AutoPing` pings it and before it disconnects.
use irc_idler.Prelude.{
  ℕ, suc, ◌+◌, ◌≤◌, List, [], ◌∷◌, Bool, true, false, some, none, Option, ◌≡◌, arith, refl, sym,
}
use irc_idler.Prelude.Machine.{run, run-cons}
use irc_idler.Irc.Message.{Message}
use irc_idler.Irc.Filters.Pong.{Dest}
use irc_idler.Irc.Filters.Ping.{
  Timer, running, fired, spent, Signal, cancelled, arrive, in_closed, taken, expires, tick, Pinger,
  listening, forwarding, pinging, returned, disconnected, blocked, panicked, ping_step, on_message,
  pinger, auto_ping,
}

-- The expiries of the timer since a message was last received, from `n` of them on.
unfoldable pub quiet : ℕ → List Signal → ℕ
quiet n [] = n
quiet n (cancelled ∷ xs) = quiet n xs
quiet n (arrive m ∷ xs) = quiet 0 xs
quiet n (in_closed ∷ xs) = quiet n xs
quiet n (taken ∷ xs) = quiet n xs
quiet n (expires ∷ xs) = quiet (suc n) xs
quiet n (tick ∷ xs) = quiet n xs

-- The expiries that a state stands for: the one that was answered by a ping, and the one that
-- lies in the timer's channel.
pub answered_by : Bool → ℕ
answered_by true = 1
answered_by false = 0

-- The states that `AutoPing` is in behind `n` quiet expiries.
unfoldable pub FitsTimer : Timer → ℕ → ℕ → Type 0
FitsTimer running k n = n ≡ k
FitsTimer fired k n = n ≡ k + 1
FitsTimer spent k n = ⊥

unfoldable pub Fits : Pinger → ℕ → Type 0
unfolding FitsTimer answered_by
Fits (listening sent t) n = FitsTimer t (answered_by sent) n
Fits (forwarding m t) n = FitsTimer t 0 n
Fits pinging n = n ≡ 1
Fits returned n = n ≤ 2
Fits disconnected n = n ≡ 2
Fits blocked n = ⊥
Fits panicked n = n ≤ 2

FitsResult : Option (Pinger × List (Dest × Message)) → ℕ → Type 0
FitsResult none n = Unit
FitsResult (some (s, sent)) n = Fits s n

-- A message gives the timer a new start.
on_message-Fits : (m : Message) → Fits (on_message m) 0
unfolding Fits on_message
on_message-Fits m = ground arith

step-Fits :
    (s : Pinger) (x : Signal) (n : ℕ) → Fits s n → FitsResult (ping_step s x) (quiet n (x ∷ []))
unfolding Fits FitsResult ping_step quiet
step-Fits (listening true running) cancelled n ok = omega arith
step-Fits (listening true running) (arrive m') n ok = on_message-Fits m'
step-Fits (listening true running) in_closed n ok = omega arith
step-Fits (listening true running) taken n ok = omega arith
step-Fits (listening true running) expires n ok = omega arith
step-Fits (listening true running) tick n ok = omega arith
step-Fits (listening true fired) cancelled n ok = omega arith
step-Fits (listening true fired) (arrive m') n ok = on_message-Fits m'
step-Fits (listening true fired) in_closed n ok = omega arith
step-Fits (listening true fired) taken n ok = omega arith
step-Fits (listening true fired) expires n ok = omega arith
step-Fits (listening true fired) tick n ok = omega arith
step-Fits (listening true spent) cancelled n ok = absurd ok
step-Fits (listening true spent) (arrive m') n ok = absurd ok
step-Fits (listening true spent) in_closed n ok = absurd ok
step-Fits (listening true spent) taken n ok = absurd ok
step-Fits (listening true spent) expires n ok = absurd ok
step-Fits (listening true spent) tick n ok = absurd ok
step-Fits (listening false running) cancelled n ok = omega arith
step-Fits (listening false running) (arrive m') n ok = on_message-Fits m'
step-Fits (listening false running) in_closed n ok = omega arith
step-Fits (listening false running) taken n ok = omega arith
step-Fits (listening false running) expires n ok = omega arith
step-Fits (listening false running) tick n ok = omega arith
step-Fits (listening false fired) cancelled n ok = omega arith
step-Fits (listening false fired) (arrive m') n ok = on_message-Fits m'
step-Fits (listening false fired) in_closed n ok = omega arith
step-Fits (listening false fired) taken n ok = omega arith
step-Fits (listening false fired) expires n ok = omega arith
step-Fits (listening false fired) tick n ok = omega arith
step-Fits (listening false spent) cancelled n ok = absurd ok
step-Fits (listening false spent) (arrive m') n ok = absurd ok
step-Fits (listening false spent) in_closed n ok = absurd ok
step-Fits (listening false spent) taken n ok = absurd ok
step-Fits (listening false spent) expires n ok = absurd ok
step-Fits (listening false spent) tick n ok = absurd ok
step-Fits (forwarding m running) cancelled n ok = omega arith
step-Fits (forwarding m running) (arrive m') n ok = omega arith
step-Fits (forwarding m running) in_closed n ok = omega arith
step-Fits (forwarding m running) taken n ok = omega arith
step-Fits (forwarding m running) expires n ok = omega arith
step-Fits (forwarding m running) tick n ok = omega arith
step-Fits (forwarding m fired) cancelled n ok = omega arith
step-Fits (forwarding m fired) (arrive m') n ok = omega arith
step-Fits (forwarding m fired) in_closed n ok = omega arith
step-Fits (forwarding m fired) taken n ok = omega arith
step-Fits (forwarding m fired) expires n ok = omega arith
step-Fits (forwarding m fired) tick n ok = omega arith
step-Fits (forwarding m spent) cancelled n ok = absurd ok
step-Fits (forwarding m spent) (arrive m') n ok = absurd ok
step-Fits (forwarding m spent) in_closed n ok = absurd ok
step-Fits (forwarding m spent) taken n ok = absurd ok
step-Fits (forwarding m spent) expires n ok = absurd ok
step-Fits (forwarding m spent) tick n ok = absurd ok
step-Fits pinging cancelled n ok = omega arith
step-Fits pinging (arrive m') n ok = omega arith
step-Fits pinging in_closed n ok = omega arith
step-Fits pinging taken n ok = omega arith
step-Fits pinging expires n ok = omega arith
step-Fits pinging tick n ok = omega arith
step-Fits returned x n ok = tt
step-Fits disconnected x n ok = tt
step-Fits panicked x n ok = tt
step-Fits blocked x n ok = absurd ok

pub ping_step-Fits :
    (s : Pinger) (x : Signal) (n : ℕ) {s' : Pinger} {sent : List (Dest × Message)}
    → Fits s n
    → ping_step s x ≡ some (s', sent)
    → Fits s' (quiet n (x ∷ []))
unfolding FitsResult
ping_step-Fits s x n ok e = rw e at (step-Fits s x n ok)

quiet-cons :
    (n : ℕ) (x : Signal) (xs : List Signal) → quiet n (x ∷ xs) ≡ quiet (quiet n (x ∷ [])) xs
unfolding quiet
quiet-cons n cancelled xs = refl
quiet-cons n (arrive m) xs = refl
quiet-cons n in_closed xs = refl
quiet-cons n taken xs = refl
quiet-cons n expires xs = refl
quiet-cons n tick xs = refl

run-Fits :
    (s : Pinger) (xs : List Signal) (n : ℕ) {s' : Pinger} {sent : List (Dest × Message)}
    → Fits s n
    → run ping_step s xs ≡ some (s', sent)
    → Fits s' (quiet n xs)
unfolding run
run-Fits s [] n {s'} ok e = unfold quiet in let same : s ≡ s' = cc e in rw (sym same) ok
run-Fits s (x ∷ xs) n ok e =
    let (s1, sent1, more, e1, e3, whole) = run-cons ping_step s x xs e in
    rw (quiet-cons n x xs) (run-Fits s1 xs (quiet n (x ∷ [])) (ping_step-Fits s x n ok e1) e3)

-- Behind any run, the expiries of AutoPing's timer since the last message are at most two, and as
-- many as its state shows: waiting, one for a ping that was sent and one for an expiry not yet
-- received; sending its ping, one; behind disconnect, two. It never waits for ever in the receive
-- that follows a failed Stop.
pub auto_ping-Fits :
    (xs : List Signal) {s : Pinger} {sent : List (Dest × Message)}
    → auto_ping xs ≡ some (s, sent)
    → Fits s (quiet 0 xs)
unfolding auto_ping Fits
auto_ping-Fits xs e = run-Fits pinger xs 0 (omega arith) e
