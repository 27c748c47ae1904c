-- ===== src/Proxy/Threads.antt =====
-- The goroutines around the loop of `Run`: `ReadAll` for each connection (irc/helpers.go),
-- `AcceptLoop`, and the loop of `shutdown` that empties a channel (proxy/proxy.go). They meet on
-- unbuffered channels, so a send and its receive are one step.
pub mod Daemon
pub mod Leaks
pub mod Draining
pub mod Careful
mod Tests
use irc_idler.Prelude.{
  ℕ, suc, ◌==◌, List, [], ◌∷◌, ◌++◌, Bool, true, false, Option, none, some, ◌≡◌, if◌then◌else◌,
}
use irc_idler.Irc.Message.{Message}
use irc_idler.Proxy.World.{Env, World}
use irc_idler.Proxy.Run.{stop, from_client, from_server, tick, client_conn, new_proxy, handle_event}
use irc_idler.Proxy.Held.{names, was_closed}

-- A connection with its goroutine and the messages that it can still read: before `ReadAll`, in
-- `ReadMessage`, at the send to the channel, and behind the close of the channel.
pub data ReadLoop : Type 0 where
  idle : List Message → ReadLoop
  reading : List Message → ReadLoop
  sending : Message → List Message → ReadLoop
  ended : ReadLoop

-- The peer's next message.
unfoldable pub arrived : Message → ReadLoop → ReadLoop
arrived m (idle ms) = idle (ms ++ m ∷ [])
arrived m (reading ms) = reading (ms ++ m ∷ [])
arrived m (sending n ms) = sending n (ms ++ m ∷ [])
arrived m ended = ended

-- `ReadAll` starts the goroutine.
unfoldable pub begun : ReadLoop → ReadLoop
begun (idle ms) = reading ms
begun (reading ms) = reading ms
begun (sending m ms) = sending m ms
begun ended = ended

abbrev pub update : (ℕ → ReadLoop) → ℕ → ReadLoop → ℕ → ReadLoop
update loops i l j = if i == j then l else loops j

abbrev pub start_loop : (ℕ → ReadLoop) → ℕ → ℕ → ReadLoop
start_loop loops i = update loops i (begun (loops i))

-- A dialled connection is set up if the server had none: it is then the server's.
abbrev pub start_if : Bool → (ℕ → ReadLoop) → ℕ → ℕ → ReadLoop
start_if b loops k = if b then start_loop loops k else loops

-- `accepted` is the connection that `AcceptLoop` sends to the daemon.
pub record System (L : Type 0) : Type 0 where
  pub daemon : World L
  pub loops : ℕ → ReadLoop
  pub next_id : ℕ
  pub accepted : Option ℕ
  pub running : Bool

unfoldable pub boot : {L : Type 0} → L → System L
boot logs = record {
  daemon = new_proxy logs;
  loops = λ i. idle [];
  next_id = 0;
  accepted = none;
  running = true;
}

-- `AcceptLoop` has a connection from `Accept`, and is at the send to its channel. Where `Accept`
-- fails, it sleeps and goes on as before.
abbrev pub accept_one : {L : Type 0} → System L → System L
accept_one s = record s { accepted = some s.next_id; next_id = suc s.next_id }

-- The goroutine of `ReadAll` with the message that it has read, and behind the close of its channel.
abbrev pub read_one : {L : Type 0} → ℕ → Message → List Message → System L → System L
read_one i m ms s = record s { loops = update s.loops i (sending m ms) }

abbrev pub read_failed : {L : Type 0} → ℕ → System L → System L
read_failed i s = record s { loops = update s.loops i ended }

-- The loop in `shutdown` has received the message that the goroutine was sending, and drops it.
abbrev pub discard_one : {L : Type 0} → ℕ → List Message → System L → System L
discard_one i ms s = record s { loops = update s.loops i (reading ms) }

-- `shutdown` returns when the channel has been closed, so at its `select` the daemon has emptied
-- the channels of all connections that it closed.
abbrev pub IsDrained : {L : Type 0} → System L → Type 0
IsDrained s = (j : ℕ) → was_closed j s.daemon.out ≡ true → s.loops j ≡ ended

abbrev pub IsSelecting : {L : Type 0} → System L → Type 0
IsSelecting s = (s.running ≡ true) × IsDrained s

module _ (env : Env) where
  open env.store use {State}

  pub data Step (s : System State) : System State → Type 0 where
    -- A peer, and the network.
    arrives :
        (i : ℕ) (m : Message)
        → was_closed i s.daemon.out ≡ false
        → Step s (record s { loops = update s.loops i (arrived m (s.loops i)) })
    -- `ReadMessage` returns a message, or an error, as it does in the end on a closed connection.
    reads :
        (i : ℕ) (m : Message) (ms : List Message)
        → s.loops i ≡ reading (m ∷ ms)
        → Step s (read_one i m ms s)
    fails : (i : ℕ) (ms : List Message) → s.loops i ≡ reading ms → Step s (read_failed i s)
    -- `Accept` returns a connection.
    accepts : s.accepted ≡ none → Step s (accept_one s)
    -- The receives in `shutdown`.
    discards :
        (i : ℕ) (m : Message) (ms : List Message)
        → was_closed i s.daemon.out ≡ true
        → s.loops i ≡ sending m ms
        → Step s (discard_one i ms s)
    -- The cases of the `select` in `Run`.
    stops :
        {w : World State}
        → IsSelecting s
        → handle_event env stop s.daemon ≡ some (tt, w)
        → Step s (record s { daemon = w; running = false })
    hears_client :
        (i : ℕ) (m : Message) (ms : List Message) (now : ℕ) {w : World State}
        → IsSelecting s
        → s.daemon.client.chan ≡ some i
        → s.loops i ≡ sending m ms
        → handle_event env (from_client (some m) now) s.daemon ≡ some (tt, w)
        → Step s (record s { daemon = w; loops = update s.loops i (reading ms) })
    client_ends :
        (i now : ℕ) {w : World State}
        → IsSelecting s
        → s.daemon.client.chan ≡ some i
        → s.loops i ≡ ended
        → handle_event env (from_client none now) s.daemon ≡ some (tt, w)
        → Step s (record s { daemon = w })
    hears_server :
        (i : ℕ) (m : Message) (ms : List Message) (now : ℕ) {w : World State}
        → IsSelecting s
        → s.daemon.server.chan ≡ some i
        → s.loops i ≡ sending m ms
        → handle_event env (from_server (some m) now) s.daemon ≡ some (tt, w)
        → Step s (record s { daemon = w; loops = update s.loops i (reading ms) })
    server_ends :
        (i now : ℕ) {w : World State}
        → IsSelecting s
        → s.daemon.server.chan ≡ some i
        → s.loops i ≡ ended
        → handle_event env (from_server none now) s.daemon ≡ some (tt, w)
        → Step s (record s { daemon = w })
    ticks :
        (now later : ℕ) {w : World State}
        → IsSelecting s
        → handle_event env (tick now later) s.daemon ≡ some (tt, w)
        → Step s (record s { daemon = w })
    -- A new client, where `Connect` fails or is not called, and where it returns a connection.
    takes :
        (id now later : ℕ) {w : World State}
        → IsSelecting s
        → s.accepted ≡ some id
        → handle_event env (client_conn id now none later) s.daemon ≡ some (tt, w)
        → Step s (record s { daemon = w; loops = start_loop s.loops id; accepted = none })
    dials :
        (id now later : ℕ) {w : World State}
        → IsSelecting s
        → s.accepted ≡ some id
        → handle_event env (client_conn id now (some s.next_id) later) s.daemon ≡ some (tt, w)
        → Step s (record s {
          daemon = w;
          loops = start_if (names s.next_id w.server.chan) (start_loop s.loops id) s.next_id;
          next_id = suc s.next_id;
          accepted = none;
        })

  -- The states of the system from one state on, under any schedule.
  pub data Runs (s : System State) : System State → Type 0 where
    here : Runs s s
    next : {t u : System State} → Runs s t → Step t u → Runs s u

  abbrev pub Reached : State → System State → Type 0
  Reached logs = Runs (boot logs)
