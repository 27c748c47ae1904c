-- ===== src/Proxy/Threads/Daemon.antt =====
-- The daemon's state under the schedules of Threads, as a state of its loop alone.
use irc_idler.Prelude.{none, some}
use irc_idler.Proxy.World.{Env}
use irc_idler.Proxy.Run
use irc_idler.Proxy.Run.{stop, from_client, from_server, tick, client_conn, Reachable}
use irc_idler.Proxy.Threads.{
  System, boot, Step, arrives, reads, fails, accepts, discards, stops, hears_client, client_ends,
  hears_server, server_ends, ticks, takes, dials, here, next, Reached,
}

module _ (env : Env) where
  open env.store use {State}

  Step-Reachable :
      {logs : State} {s t : System State}
      → Step env s t
      → Reachable env logs s.daemon
      → Reachable env logs t.daemon
  Step-Reachable (arrives i m e) r = r
  Step-Reachable (reads i m ms e) r = r
  Step-Reachable (fails i ms e) r = r
  Step-Reachable (accepts e) r = r
  Step-Reachable (discards i m ms c e) r = r
  Step-Reachable (stops sel runs) r = Run.step stop r tt runs
  Step-Reachable (hears_client i m ms now sel c e runs) r =
      Run.step (from_client (some m) now) r (i, c) runs
  Step-Reachable (client_ends i now sel c e runs) r = Run.step (from_client none now) r (i, c) runs
  Step-Reachable (hears_server i m ms now sel c e runs) r =
      Run.step (from_server (some m) now) r (i, c) runs
  Step-Reachable (server_ends i now sel c e runs) r = Run.step (from_server none now) r (i, c) runs
  Step-Reachable (ticks now later sel runs) r = Run.step (tick now later) r tt runs
  Step-Reachable (takes id now later sel a runs) r =
      Run.step (client_conn id now none later) r tt runs
  Step-Reachable {s = s} (dials id now later sel a runs) r =
      Run.step (client_conn id now (some s.next_id) later) r tt runs

  pub Reached-Reachable :
      {logs : State} {s : System State} → Reached env logs s → Reachable env logs s.daemon
  unfolding boot
  Reached-Reachable here = Run.start
  Reached-Reachable (next r st) = Step-Reachable st (Reached-Reachable r)
