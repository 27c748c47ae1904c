-- ===== src/Irc/Filters/Ping.antt =====
-- irc/filters/filters.go: `AutoPing`, as a machine that takes one communication at a time. A timer
-- is a `time.Timer` with its channel; `disconnected` has called `disconnect` and returned.
pub mod Quiet
pub mod Forwards
use irc_idler.Prelude.{
  List, [], ◌∷◌, Bool, true, false, bytes, bytes_eq, Option, none, some, if◌then◌else◌,
}
use irc_idler.Prelude.Machine.{run}
use irc_idler.Irc.Message.{Message}
use irc_idler.Irc.Codes.{cmd_ping, cmd_pong}
use irc_idler.Irc.Filters.Pong.{Dest, forward, reply}

-- Still to expire, expired with the time in the channel, or with neither.
pub data Timer : Type 0 where
  running fired spent : Timer

-- The end of the context, a message on `in`, the end of `in`, the peer's receive of what is offered
-- to it, the expiry of the timer, and the receive of the time from its channel.
pub data Signal : Type 0 where
  cancelled : Signal
  arrive : Message → Signal
  in_closed : Signal
  taken : Signal
  expires : Signal
  tick : Signal

-- At the head of the loop with `pingSent`, at the send of a message or of a ping, behind a return,
-- or for ever in the receive from an empty timer channel.
pub data Pinger : Type 0 where
  listening : Bool → Timer → Pinger
  forwarding : Message → Timer → Pinger
  pinging : Pinger
  returned : Pinger
  disconnected : Pinger
  blocked : Pinger
  panicked : Pinger

pub ping_message : Message
ping_message = record { prefix = []; command = cmd_ping; params = bytes "ping" ∷ [] }

-- `if !timer.Stop() { <-timer.C }`, and what follows.
drained : Timer → Pinger → Pinger
drained running s = s
drained fired s = s
drained spent s = blocked

-- Behind the reset of the timer.
unfoldable pub on_message : Message → Pinger
on_message m = if bytes_eq m.command cmd_pong then listening false running else forwarding m running

expired : Timer → Option Timer
expired running = some fired
expired fired = none
expired spent = none

-- The receive of the time.
ticked : Bool → Timer → Option Pinger
ticked true fired = some disconnected
ticked false fired = some pinging
ticked sent running = none
ticked sent spent = none

still : Option Pinger → Option (Pinger × List (Dest × Message))
still none = none
still (some s) = some (s, [])

with_timer : (Timer → Pinger) → Option Timer → Option (Pinger × List (Dest × Message))
with_timer s none = none
with_timer s (some t) = some (s t, [])

-- The next state, and what was sent; `none` where the code does not take part in that.
unfoldable pub ping_step : Pinger → Signal → Option (Pinger × List (Dest × Message))
unfolding drained on_message expired ticked still with_timer
ping_step (listening sent t) cancelled = some (returned, [])
ping_step (listening sent t) (arrive m) = some (drained t (on_message m), [])
ping_step (listening sent t) in_closed = some (drained t panicked, [])
ping_step (listening sent t) taken = none
ping_step (listening sent t) expires = with_timer (listening sent) (expired t)
ping_step (listening sent t) tick = still (ticked sent t)
ping_step (forwarding m t) cancelled = some (returned, [])
ping_step (forwarding m t) (arrive m') = none
ping_step (forwarding m t) in_closed = none
ping_step (forwarding m t) taken = some (listening false t, (forward, m) ∷ [])
ping_step (forwarding m t) expires = with_timer (forwarding m) (expired t)
ping_step (forwarding m t) tick = none
ping_step pinging cancelled = some (returned, [])
ping_step pinging (arrive m) = none
ping_step pinging in_closed = none
ping_step pinging taken = some (listening true running, (reply, ping_message) ∷ [])
ping_step pinging expires = none
ping_step pinging tick = none
ping_step returned x = none
ping_step disconnected x = none
ping_step blocked x = none
ping_step panicked x = none

-- The start: a new timer.
abbrev pub pinger : Pinger
pinger = listening false running

unfoldable pub auto_ping : List Signal → Option (Pinger × List (Dest × Message))
unfolding ping_step run
auto_ping xs = run ping_step pinger xs
