-- ===== src/Proxy/Run.antt =====
-- `Run`, `checkTimeout` and `NewProxy`.
use irc_idler.Prelude.{
  ℕ, ◌+◌, List, [], ◌∷◌, bytes, true, false, Option, none, some, not, ltb, ◌≡◌, if◌then◌else◌, ◌&&◌,
}
use irc_idler.Irc.Message.{Message}
use irc_idler.Irc.Codes.{cmd_ping}
use irc_idler.State.Session.{new_session}
use irc_idler.Proxy.World.{
  Env, Connection, empty_connection, World, Proc, ◌>>=◌, ◌>>◌, pure, gets, modify,
}
use irc_idler.Proxy.Link.{
  ping_time, is_closed, update_deadlines, setup, send_client, send_server, drop_client, reset,
}
use irc_idler.Proxy.Client.{message, handle_client_event}
use irc_idler.Proxy.Server.{handle_server_event}

-- What the `select` of `Run` can receive, with the clock readings that its case makes, and for a
-- new client the connection that `Connect` returns, if it is called and succeeds.
pub data Event : Type 0 where
  stop : Event
  from_client : Option Message → ℕ → Event
  from_server : Option Message → ℕ → Event
  tick : ℕ → ℕ → Event
  client_conn : ℕ → ℕ → Option ℕ → ℕ → Event

-- `NewProxy`.
unfoldable pub new_proxy : {L : Type 0} → L → World L
new_proxy logs = record {
  client = empty_connection;
  server = empty_connection;
  logs = logs;
  pre_log = new_session;
  have_msg_cache = false;
  yourhost = [];
  created = [];
  myinfo = [];
  server_prefix = [];
  out = [];
}

-- What `checkTimeout` decides to do.
pub data Verdict : Type 0 where
  nothing drop_it ping_it : Verdict

unfoldable pub judge : ℕ → Connection → Verdict
judge now c =
    if is_closed c
    then nothing
    else if c.ping_sent && ltb c.drop_deadline now
    then drop_it
    else if not c.ping_sent && ltb c.ping_deadline now
    then ping_it
    else nothing

unfoldable pub mark_pinged : ℕ → Connection → Connection
mark_pinged now c = record c { ping_sent = true; drop_deadline = now + ping_time }

module _ {L : Type 0} where
  unfoldable pub set_client : (Connection → Connection) → World L → World L
  set_client f w = record w { client = f w.client }

  unfoldable pub set_server : (Connection → Connection) → World L → World L
  set_server f w = record w { server = f w.server }

abbrev pub ping : Message
ping = message [] cmd_ping (bytes "irc-idler" ∷ [])

module _ (env : Env) where
  open env.store use {State}

  unfoldable pub check_client : ℕ → Verdict → Proc State Unit
  unfolding set_client mark_pinged
  check_client now nothing = pure tt
  check_client now drop_it = drop_client
  check_client now ping_it = do sent ← send_client env ping; modify (set_client (mark_pinged now))

  unfoldable pub check_server : ℕ → Verdict → Proc State Unit
  unfolding set_server mark_pinged
  check_server now nothing = pure tt
  check_server now drop_it = reset
  check_server now ping_it = do sent ← send_server env ping; modify (set_server (mark_pinged now))

  unfoldable pub client_timeout : ℕ → Proc State Unit
  unfolding check_client judge
  client_timeout now = do w ← gets (λ w. w); check_client now (judge now w.client)

  unfoldable pub server_timeout : ℕ → Proc State Unit
  unfolding check_server judge
  server_timeout now = do w ← gets (λ w. w); check_server now (judge now w.server)

  -- `Connect` returned a connection or an error.
  unfoldable pub connected : Option ℕ → ℕ → Proc State Unit
  connected none now = drop_client
  connected (some id) now = modify (set_server (setup id now))

  unfoldable pub accept_client : ℕ → ℕ → Option ℕ → ℕ → Proc State Unit
  unfolding connected
  accept_client id now dialled later = do
    drop_client
    modify (set_client (setup id now))
    w ← gets (λ w. w)
    if is_closed w.server then connected dialled later else pure tt

  -- One round of the loop in `Run`; after `stop` the daemon returns.
  unfoldable pub handle_event : Event → Proc State Unit
  unfolding client_timeout server_timeout accept_client
  handle_event stop = reset
  handle_event (from_client m now) = do
    modify (set_client (update_deadlines now))
    handle_client_event env m
  handle_event (from_server m now) = do
    modify (set_server (update_deadlines now))
    handle_server_event env m
  handle_event (tick now later) = do client_timeout now; server_timeout later
  handle_event (client_conn id now dialled later) = accept_client id now dialled later

  -- `stop` ends the loop, whatever else may come.
  unfoldable pub next_round : Event → Proc State Unit → Proc State Unit
  next_round stop rest = handle_event stop
  next_round (from_client m now) rest = do handle_event (from_client m now); rest
  next_round (from_server m now) rest = do handle_event (from_server m now); rest
  next_round (tick now later) rest = do handle_event (tick now later); rest
  next_round (client_conn id now dialled later) rest = do
    handle_event (client_conn id now dialled later)
    rest

  -- `Run`, with the events that its `select` receives.
  unfoldable pub run : List Event → Proc State Unit
  unfolding next_round
  run [] = pure tt
  run (e ∷ es) = next_round e (run es)

  -- The cases of the `select` that can be chosen: a nil channel is never ready.
  abbrev pub IsReady : Event → World State → Type 0
  IsReady (from_client m now) w = (id : ℕ) × (w.client.chan ≡ some id)
  IsReady (from_server m now) w = (id : ℕ) × (w.server.chan ≡ some id)
  IsReady _ w = Unit

  -- What a daemon can reach before it stops.
  pub data Reachable (logs : State) : World State → Type 0 where
    start : Reachable logs (new_proxy logs)
    step :
        {w w' : World State} (e : Event)
        → Reachable logs w
        → IsReady e w
        → handle_event e w ≡ some (tt, w')
        → Reachable logs w'
