-- ===== src/Irc/Filters/Pong.antt =====
-- irc/filters/filters.go: `AutoPong`, as a machine that takes one communication at a time. The
-- `select` at its head and the one around the send are the states `listening` and `offering`.
pub mod Replies
use irc_idler.Prelude.{
  List, [], ◌∷◌, ◌++◌, Bool, true, false, bytes_eq, Option, none, some, if◌then◌else◌,
}
use irc_idler.Prelude.Machine.{run}
use irc_idler.Irc.Message.{Message}
use irc_idler.Irc.Codes.{cmd_ping, cmd_pong}

-- The channels that a filter sends on.
pub data Dest : Type 0 where
  forward reply : Dest

-- The end of the context, a message on `in`, the end of `in`, or the peer's receive of what is
-- offered to it.
pub data Exchange : Type 0 where
  cancelled : Exchange
  arrive : Message → Exchange
  in_closed : Exchange
  taken : Exchange

-- A receive from the closed `in` gives a nil pointer, whose command the code reads: `panicked`.
pub data Ponger : Type 0 where
  listening : Ponger
  offering : Dest → Message → Ponger
  returned : Ponger
  panicked : Ponger

-- The choice of `dest`, and the new command.
unfoldable pub answered : Message → Dest × Message
answered m =
    if bytes_eq m.command cmd_ping then (reply, record m { command = cmd_pong }) else (forward, m)

-- The next state, and what was sent; `none` where the code does not take part in that.
unfoldable pub pong_step : Ponger → Exchange → Option (Ponger × List (Dest × Message))
unfolding answered
pong_step listening cancelled = some (returned, [])
pong_step listening (arrive m) = let (d, m') = answered m in some (offering d m', [])
pong_step listening in_closed = some (panicked, [])
pong_step listening taken = none
pong_step (offering d m) cancelled = some (returned, [])
pong_step (offering d m) (arrive m') = none
pong_step (offering d m) in_closed = none
pong_step (offering d m) taken = some (listening, (d, m) ∷ [])
pong_step returned x = none
pong_step panicked x = none

-- A run through a sequence of communications, with all that was sent.
unfoldable pub auto_pong : Ponger → List Exchange → Option (Ponger × List (Dest × Message))
unfolding pong_step run
auto_pong s xs = run pong_step s xs
