-- ===== src/Irc/Filters.antt =====
-- irc/filters/filters.go: `RateLimit` for a positive maximum, one more than `spare`, as a machine
-- that takes one receive at a time. The quota is then never negative.
pub mod Rate
pub mod Pong
pub mod Ping
mod Tests
use irc_idler.Prelude.{
  ℕ, zero, suc, ◌+◌, ◌-◌, List, [], ◌∷◌, ◌++◌, Bool, true, false, Option, none, some, ltb, ◌==◌,
  if◌then◌else◌,
}
use irc_idler.Irc.Message.{Message}
use irc_idler.Prelude.Machine.{run}

-- A receive: of the ticker, of a message, or of the end of the source.
pub data Receive : Type 0 where
  refresh : Receive
  arrive : Message → Receive
  source_closed : Receive

-- Before the `select` with a quota, in the wait for a tick once the quota is used up, or returned.
pub data Limiter : Type 0 where
  selecting : ℕ → Limiter
  waiting : Limiter
  returned : Limiter

module _ (spare : ℕ) where
  abbrev pub max_quota : ℕ
  max_quota = suc spare

  -- `if left > maxQuota { left = maxQuota }`.
  unfoldable pub capped : ℕ → ℕ
  capped left = if ltb max_quota left then max_quota else left

  -- Behind the send of a message.
  unfoldable pub spend : ℕ → Limiter
  spend left = if left - 1 == 0 then waiting else selecting (left - 1)

  -- The next state and what is sent to `dst`; `none` where the code does not receive that.
  unfoldable pub receive : Limiter → Receive → Option (Limiter × List Message)
  unfolding capped spend
  receive (selecting left) refresh = some (selecting (capped left + 1), [])
  receive (selecting left) (arrive m) = some (spend (capped left), m ∷ [])
  receive (selecting left) source_closed = some (returned, [])
  receive waiting refresh = some (selecting 1, [])
  receive waiting (arrive m) = none
  receive waiting source_closed = none
  receive returned r = none

  -- The start: the code begins with the maximum.
  abbrev pub limiter : Limiter
  limiter = selecting max_quota

  -- A run through a sequence of receives, with all that was sent.
  unfoldable pub rate_limit : Limiter → List Receive → Option (Limiter × List Message)
  unfolding receive run
  rate_limit s rs = run receive s rs
