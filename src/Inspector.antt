-- ===== src/Inspector.antt =====
-- misc/pingpong-inspector/main.go: a tool that answers the pings of a peer, shows its other messages
-- and sends it what is typed. Whether `WriteMessage` fails is a parameter; an error ends the tool.
pub mod Shown
use irc_idler.Prelude.{
  ℕ, List, [], ◌∷◌, ◌++◌, Bytes, bytes_eq, Bool, Option, none, some, if◌then◌else◌,
}
use irc_idler.Irc.Message.{Message}
use irc_idler.Irc.Codes.{cmd_ping, cmd_pong}

-- A message to the peer, or to the standard output.
pub data Write : Type 0 where
  to_peer : Message → Write
  to_stdout : Message → Write

-- What `pingPong` does with a message of the peer.
unfoldable pub answer : Message → Write
answer m =
    if bytes_eq m.command cmd_ping then to_peer (record m { command = cmd_pong }) else to_stdout m

module _ (fails : List Write → Write → Bool) where
  -- The loops of `pingPong` and `dumbCopy`: what each has written behind `done`, in order, when
  -- `checkFatal` ends it, where the reader gives these messages and then an error.
  unfoldable pub copy_all : (Message → Write) → List Message → List Write → List Write
  copy_all f [] done = done
  copy_all f (m ∷ ms) done =
      let rest = copy_all f ms (done ++ f m ∷ []) in if fails done (f m) then done else rest

  unfoldable pub ping_pong : List Message → List Write → List Write
  unfolding copy_all
  ping_pong = copy_all answer

  unfoldable pub dumb_copy : List Message → List Write → List Write
  unfolding copy_all
  dumb_copy = copy_all to_peer

-- What `main` starts.
pub data Mode : Type 0 where
  client : Bytes → Mode
  server : Bytes → Mode

-- `none` where the tool exits, as not exactly one address is given.
unfoldable pub choose_mode : Bytes → Bytes → Option Mode
choose_mode [] [] = none
choose_mode (c ∷ cs) [] = some (client (c ∷ cs))
choose_mode [] (c ∷ cs) = some (server (c ∷ cs))
choose_mode (c ∷ cs) (d ∷ ds) = none
