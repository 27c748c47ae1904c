-- ===== src/Irc/Filters/Tests.antt =====
-- Concrete runs of the filters that answer and send pings.
use irc_idler.Prelude.{List, [], ◌∷◌, ◌++◌, bytes, bytes_eq, String, some, ◌≡◌, refl, length, ◌≤◌}
use irc_idler.Irc.Message.{Message}
use irc_idler.Irc.Filters.Pong
use irc_idler.Irc.Filters.Pong.{Dest, forward, reply, Ponger, Exchange, auto_pong}
use irc_idler.Irc.Filters.Pong.Replies.{Sends, auto_pong_lem}
use irc_idler.Irc.Filters.Ping
use irc_idler.Irc.Filters.Ping.{Signal, Pinger, ping_message, auto_ping}
use irc_idler.Irc.Filters.Ping.Quiet.{Fits, quiet, auto_ping-Fits}
use irc_idler.Irc.Filters.Ping.Forwards.{spoken, forwarded, auto_ping-forwarded}

abbrev said : String → Message
said c = record { prefix = []; command = bytes c; params = [] }

abbrev pinged : List Exchange
pinged =
    Pong.arrive (said "PING")
    ∷ Pong.taken
    ∷ Pong.arrive (said "JOIN")
    ∷ Pong.taken
    ∷ Pong.arrive (said "PING")
    ∷ Pong.cancelled
    ∷ []

abbrev answers : List (Dest × Message)
answers = (reply, said "PONG") ∷ (forward, said "JOIN") ∷ []

pinged_run : auto_pong Pong.listening pinged ≡ some (Pong.returned, answers)
unfolding auto_pong bytes bytes_eq
pinged_run = refl

auto_pong_lem_example : Sends Pong.listening pinged answers
auto_pong_lem_example = auto_pong_lem Pong.listening pinged pinged_run

-- A message, a quiet time, a ping, its answer, a quiet time, a ping, and no answer.
abbrev silence : List Signal
silence =
    Ping.arrive (said "JOIN")
    ∷ Ping.taken
    ∷ Ping.expires
    ∷ Ping.tick
    ∷ Ping.taken
    ∷ Ping.arrive (said "PONG")
    ∷ Ping.expires
    ∷ Ping.tick
    ∷ Ping.taken
    ∷ Ping.expires
    ∷ Ping.tick
    ∷ []

abbrev heard : List (Dest × Message)
heard = (forward, said "JOIN") ∷ (reply, ping_message) ∷ (reply, ping_message) ∷ []

silence_run : auto_ping silence ≡ some (Ping.disconnected, heard)
unfolding auto_ping bytes bytes_eq
silence_run = refl

auto_ping-Fits_example : Fits Ping.disconnected (quiet 0 silence)
auto_ping-Fits_example = auto_ping-Fits silence silence_run

auto_ping-forwarded_example :
    (lost : List Message) × (length lost ≤ 1) × (forwarded heard ++ lost ≡ spoken silence)
auto_ping-forwarded_example = auto_ping-forwarded silence silence_run
