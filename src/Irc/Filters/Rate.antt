-- ===== src/Irc/Filters/Rate.antt =====
-- The rate that `RateLimit` keeps to.
use irc_idler.Prelude.{
  ℕ, suc, ◌+◌, ◌-◌, ◌≤◌, List, [], ◌∷◌, ◌++◌, map, some, length, length-append, ◌≡◌, refl, arith,
  ap, ◌∙◌,
}
use irc_idler.Irc.Message.{Message}
use irc_idler.Prelude.Machine.{run-cons}
use irc_idler.Irc.Filters.{
  Receive, refresh, arrive, source_closed, Limiter, selecting, waiting, returned, max_quota, capped,
  spend, receive, limiter, rate_limit,
}

unfoldable pub ticks : List Receive → ℕ
ticks [] = 0
ticks (refresh ∷ rs) = suc (ticks rs)
ticks (arrive m ∷ rs) = ticks rs
ticks (source_closed ∷ rs) = ticks rs

unfoldable pub arrivals : List Receive → List Message
arrivals [] = []
arrivals (refresh ∷ rs) = arrivals rs
arrivals (arrive m ∷ rs) = m ∷ arrivals rs
arrivals (source_closed ∷ rs) = arrivals rs

-- What a state may still send before it has to wait for a tick.
allowance : Limiter → ℕ
allowance (selecting left) = left
allowance waiting = 0
allowance returned = 0

-- A state that a run comes through: the quota is not used up before the `select`.
IsSound : Limiter → Type 0
IsSound (selecting left) = 1 ≤ left
IsSound waiting = Unit
IsSound returned = Unit

module _ (spare : ℕ) where
  receive_lem :
      (s : Limiter) (r : Receive) {s' : Limiter} {sent : List Message}
      → IsSound s
      → receive spare s r ≡ some (s', sent)
      → IsSound s'
        × (length sent + allowance s' ≤ allowance s + ticks (r ∷ []))
        × (sent ≡ arrivals (r ∷ []))
  unfolding receive capped spend IsSound allowance ticks arrivals
  receive_lem (selecting left) refresh ok e = ground arith
  receive_lem (selecting left) (arrive m) ok e = ground arith
  receive_lem (selecting left) source_closed ok e = ground arith
  receive_lem waiting refresh ok e = ground arith
  receive_lem waiting (arrive m) ok e = ground arith
  receive_lem waiting source_closed ok e = ground arith
  receive_lem returned r ok e = ground arith

  ticks-append : (r : Receive) (rs : List Receive) → ticks (r ∷ []) + ticks rs ≡ ticks (r ∷ rs)
  unfolding ticks
  ticks-append refresh rs = omega arith
  ticks-append (arrive m) rs = omega arith
  ticks-append source_closed rs = omega arith

  arrivals-append :
      (r : Receive) (rs : List Receive) → arrivals (r ∷ []) ++ arrivals rs ≡ arrivals (r ∷ rs)
  unfolding arrivals
  arrivals-append refresh rs = refl
  arrivals-append (arrive m) rs = refl
  arrivals-append source_closed rs = refl

  joined :
      (sent more out : List Message) (a a1 t1 t2 : ℕ)
      → out ≡ sent ++ more
      → length more ≤ a1 + t2
      → length sent + a1 ≤ a + t1
      → length out ≤ a + (t1 + t2)
  joined sent more out a a1 t1 t2 same few first =
      omega (arith, ap (λ (l : List Message). length l) same, length-append sent more, few, first)

  run_lem :
      (s : Limiter) (rs : List Receive) {s' : Limiter} {out : List Message}
      → IsSound s
      → rate_limit spare s rs ≡ some (s', out)
      → (out ≡ arrivals rs) × (length out ≤ allowance s + ticks rs)
  unfolding rate_limit
  run_lem s [] ok e = unfold ticks arrivals in ground arith
  run_lem s (r ∷ rs) {s'} {out} ok e =
      let (s1, sent, more, e1, e3, whole) = run-cons (receive spare) s r rs e in
      let (ok1, few, same) = receive_lem s r ok e1 in
      let (all, bound) = run_lem s1 rs ok1 e3 in
      let total =
        joined sent more out (allowance s) (allowance s1) (ticks (r ∷ [])) (ticks rs) whole bound
          few in
      (
        whole
            ∙ ap (λ (l : List Message). l ++ more) same
            ∙ ap (λ (l : List Message). arrivals (r ∷ []) ++ l) all
            ∙ arrivals-append r rs,
        omega (arith, total, ticks-append r rs),
      )

  -- Whatever `RateLimit` receives, it has sent just the messages that arrived, in order, and no
  -- more of them than the maximal quota and one for each tick.
  pub rate_limit_lem :
      (rs : List Receive) {s' : Limiter} {out : List Message}
      → rate_limit spare (limiter spare) rs ≡ some (s', out)
      → (out ≡ arrivals rs) × (length out ≤ max_quota spare + ticks rs)
  unfolding IsSound allowance
  rate_limit_lem rs e = run_lem (limiter spare) rs (omega arith) e

  -- With quota to spare a message goes through and costs one.
  spend_lem :
      (left : ℕ)
      → left ≤ max_quota spare
      → 2 ≤ left
      → spend spare (capped spare left) ≡ selecting (left - 1)
  unfolding spend capped
  spend_lem left ok enough = ground arith

  rate_limit_step :
      (s : Limiter) (r : Receive) (rs : List Receive) {s1 s' : Limiter} {sent out : List Message}
      → receive spare s r ≡ some (s1, sent)
      → rate_limit spare s1 rs ≡ some (s', out)
      → rate_limit spare s (r ∷ rs) ≡ some (s', sent ++ out)
  unfolding rate_limit
  rate_limit_step s r rs e runs = ground (arith, e, runs)

  -- From a quota up to the maximum a burst of as many messages goes through, with no tick.
  burst_lem :
      (left : ℕ) (ms : List Message)
      → left ≤ max_quota spare
      → 1 ≤ left
      → length ms ≤ left
      → (s' : Limiter) × (rate_limit spare (selecting left) (map arrive ms) ≡ some (s', ms))
  unfolding receive
  burst_lem left [] ok some_left fits = (selecting left, unfold rate_limit in refl)
  burst_lem left (m ∷ []) ok some_left fits =
      (spend spare (capped spare left), unfold rate_limit receive in refl)
  burst_lem left (m ∷ n ∷ ms) ok some_left fits =
      let (s', runs) = burst_lem (left - 1) (n ∷ ms) (omega arith) (omega arith) (omega arith) in
      (
        s',
        rate_limit_step (selecting left) (arrive m) (map arrive (n ∷ ms))
            {s1 = selecting (left - 1)} {s' = s'} {sent = m ∷ []} {out = n ∷ ms}
            (cc (spend_lem left ok (omega arith))) runs,
      )

  -- A burst of messages up to the maximal quota is sent from the start with no tick.
  rate_limit_burst :
      (ms : List Message)
      → length ms ≤ max_quota spare
      → (s' : Limiter) × (rate_limit spare (limiter spare) (map arrive ms) ≡ some (s', ms))
  rate_limit_burst ms fits = burst_lem (max_quota spare) ms (omega arith) (omega arith) fits
