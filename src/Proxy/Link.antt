-- ===== src/Proxy/Link.antt =====
-- Connections: opening, closing, and sending.
use irc_idler.Prelude.{
  ℕ, ◌+◌, List, [], ◌∷◌, ◌++◌, Bool, true, false, Option, none, some, is_some, ◌||◌, not,
  if◌then◌else◌,
}
use irc_idler.Irc.Message.{Message}
use irc_idler.State.Handshake.{done}
use irc_idler.State.Session.{new_session, update_from_client, update_from_server}
use irc_idler.Proxy.World.{
  Output, wrote, write_failed, closed, Env, Connection, empty_connection, World, Proc, modify,
}

-- Thirty seconds, in nanoseconds.
abbrev pub ping_time : ℕ
ping_time = 30000000000

unfoldable pub is_closed : Connection → Bool
is_closed c = not (is_some c.rwc) || not (is_some c.chan)

unfoldable pub update_deadlines : ℕ → Connection → Connection
update_deadlines now c = record c { ping_deadline = now + ping_time; ping_sent = false }

-- `setup`: the connection `id`, and the channel of its messages.
unfoldable pub setup : ℕ → ℕ → Connection → Connection
unfolding update_deadlines
setup id now c =
    update_deadlines now (record c { rwc = some id; chan = some id; session = new_session })

-- The calls of `Close` that `shutdown` makes. What it then takes out of the channel is dropped.
closing : Option ℕ → List Output
closing none = []
closing (some id) = closed id ∷ []

unfoldable pub shutdown : Connection → Connection × List Output
unfolding is_closed closing
shutdown c = if is_closed c then (c, []) else (empty_connection, closing c.rwc)

module _ {L : Type 0} where
  shutdown_client : World L → World L
  shutdown_client w =
      let (c, acts) = shutdown w.client in record w { client = c; out = w.out ++ acts }

  shutdown_server : World L → World L
  shutdown_server w =
      let (c, acts) = shutdown w.server in record w { server = c; out = w.out ++ acts }

  unfoldable pub drop_client_world : World L → World L
  unfolding shutdown_client shutdown_server shutdown
  drop_client_world w =
      let w' = shutdown_client w in
      if done w'.server.session.handshake then w' else shutdown_server w'

  unfoldable pub reset_world : World L → World L
  unfolding shutdown_client shutdown_server shutdown
  reset_world w = shutdown_server (shutdown_client w)

  unfoldable pub drop_client : Proc L Unit
  unfolding drop_client_world modify
  drop_client = modify drop_client_world

  unfoldable pub reset : Proc L Unit
  unfolding reset_world modify
  reset = modify reset_world

-- The result of a send is `true` where the code returns a nil error.
module _ (env : Env) where
  -- A message that the client got is a change of its session, and of the one before the logs.
  unfoldable pub delivered : Message → ℕ → Proc env.store.State Bool
  delivered m id w = elim (update_from_server m w.client.session) [
    | none ↦ none
    | some session ↦ elim (update_from_server m w.pre_log) [
      | none ↦ none
      | some pre_log ↦ some (
        true,
        record w {
          client = record (w.client) { session = session };
          pre_log = pre_log;
          out = w.out ++ wrote id m ∷ [];
        },
      )
    ]
  ]

  unfoldable pub not_delivered : Message → ℕ → Proc env.store.State Bool
  unfolding drop_client_world
  not_delivered m id w =
      some (false, drop_client_world (record w { out = w.out ++ write_failed id m ∷ [] }))

  unfoldable pub client_write : Message → Option ℕ → Proc env.store.State Bool
  client_write m none w = some (false, w)
  client_write m (some id) w =
      if env.writes w.out id m then delivered m id w else not_delivered m id w

  unfoldable pub send_client : Message → Proc env.store.State Bool
  unfolding client_write delivered not_delivered
  send_client m w = client_write m w.client.rwc w

  unfoldable pub server_wrote : Message → ℕ → World env.store.State → World env.store.State
  server_wrote m id w = record w {
    server = record (w.server) { session = update_from_client m w.server.session };
    out = w.out ++ wrote id m ∷ [];
  }

  unfoldable pub server_failed : Message → ℕ → World env.store.State → World env.store.State
  unfolding reset_world
  server_failed m id w = reset_world (record w { out = w.out ++ write_failed id m ∷ [] })

  unfoldable pub server_write : Message → Option ℕ → Proc env.store.State Bool
  unfolding server_wrote server_failed
  server_write m none w = some (false, w)
  server_write m (some id) w =
      if env.writes w.out id m
      then some (true, server_wrote m id w)
      else some (false, server_failed m id w)

  unfoldable pub send_server : Message → Proc env.store.State Bool
  unfolding server_write
  send_server m w = server_write m w.server.rwc w
