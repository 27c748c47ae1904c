-- ===== src/Proxy/Threads/Leaks.antt =====
-- What the running goroutines of `ReadAll` read for.
use irc_idler.Prelude.{
  ℕ, ◌==◌, Bool, true, false, ◌&&◌, Option, none, some, ◌≡◌, ◌⊎◌, inl, inr, refl, arith, Bool-cases,
}
use irc_idler.Irc.Message.{Message}
use irc_idler.Proxy.World.{Env, World}
use irc_idler.Proxy.Run.{stop, from_client, from_server, tick, client_conn, handle_event}
use irc_idler.Proxy.Link.{reset}
use irc_idler.Proxy.Wired.{Reachable-IsWired}
use irc_idler.Proxy.Held.{names, held, IsPaired}
use irc_idler.Proxy.Held.Events.{event_held, accepted_held}
use irc_idler.Proxy.Threads.{
  ReadLoop, idle, reading, sending, ended, arrived, System, boot, IsDrained, Step, arrives, reads,
  fails, accepts, discards, stops, hears_client, client_ends, hears_server, server_ends, ticks,
  takes, dials, here, next, Reached,
}
use irc_idler.Proxy.Threads.Daemon.{Reached-Reachable}

-- The goroutine runs.
unfoldable pub live : ReadLoop → Bool
live (idle ms) = false
live (reading ms) = true
live (sending m ms) = true
live ended = false

live-arrived : (m : Message) (l : ReadLoop) → live (arrived m l) ≡ live l
unfolding live arrived
live-arrived m (idle ms) = refl
live-arrived m (reading ms) = refl
live-arrived m (sending n ms) = refl
live-arrived m ended = refl

-- A goroutine that runs belongs to a connection that the daemon has, or has closed.
abbrev Accounted : {L : Type 0} → System L → Type 0
Accounted s = (i : ℕ) → live (s.loops i) ≡ true → held i s.daemon ≡ true

module _ (env : Env) where
  open env.store use {State}

  Step-Accounted :
      {s t : System State} → Step env s t → IsPaired s.daemon → Accounted s → Accounted t
  unfolding live
  Step-Accounted {s} (arrives i m e) p h j l = ground (arith, live-arrived m (s.loops i), h j)
  Step-Accounted {s} (reads i m ms e) p h j l = ground (arith, h j)
  Step-Accounted {s} (fails i ms e) p h j l = ground (arith, h j)
  Step-Accounted {s} (accepts e) p h j l = h j l
  Step-Accounted {s} (discards i m ms c e) p h j l = ground (arith, h j)
  Step-Accounted {s} (stops sel runs) p h j l = event_held env j stop s.daemon p runs (h j l)
  Step-Accounted {s} (hears_client i m ms now sel c e runs) p h j l =
      event_held env j (from_client (some m) now) s.daemon p runs (ground (arith, h j))
  Step-Accounted {s} (client_ends i now sel c e runs) p h j l =
      event_held env j (from_client none now) s.daemon p runs (h j l)
  Step-Accounted {s} (hears_server i m ms now sel c e runs) p h j l =
      event_held env j (from_server (some m) now) s.daemon p runs (ground (arith, h j))
  Step-Accounted {s} (server_ends i now sel c e runs) p h j l =
      event_held env j (from_server none now) s.daemon p runs (h j l)
  Step-Accounted {s} (ticks now later sel runs) p h j l =
      event_held env j (tick now later) s.daemon p runs (h j l)
  Step-Accounted {s} (takes id now later sel a runs) p h j l = elim (Bool-cases (id == j)) [
    | inl same ↦ ground (arith, accepted_held env id now none later s.daemon p runs)
    | inr other ↦
        event_held env j (client_conn id now none later) s.daemon p runs (h j (ground arith))
  ]
  Step-Accounted {s} (dials id now later {w} sel a runs) p h j l = elim (Bool-cases (id == j)) [
    | inl same ↦ ground (arith, accepted_held env id now (some s.next_id) later s.daemon p runs)
    | inr other ↦ elim (Bool-cases (names s.next_id w.server.chan && s.next_id == j)) [
      | inl dialled ↦ ground arith
      | inr old ↦
          event_held env j (client_conn id now (some s.next_id) later) s.daemon p runs
            (h j (ground arith))
    ]
  ]

  -- Behind the stop the daemon has no connection.
  abbrev Stopped : System State → Type 0
  Stopped s = s.running ≡ false → (s.daemon.client.chan ≡ none) × (s.daemon.server.chan ≡ none)

  stop_closes :
      (w : World State) {w' : World State}
      → IsPaired w
      → handle_event env stop w ≡ some (tt, w')
      → (w'.client.chan ≡ none) × (w'.server.chan ≡ none)
  unfolding handle_event reset
  stop_closes w p runs = ground arith

  Step-Stopped : {s t : System State} → Step env s t → IsPaired s.daemon → Stopped s → Stopped t
  Step-Stopped (arrives i m e) p h d = h d
  Step-Stopped (reads i m ms e) p h d = h d
  Step-Stopped (fails i ms e) p h d = h d
  Step-Stopped (accepts e) p h d = h d
  Step-Stopped (discards i m ms c e) p h d = h d
  Step-Stopped {s} (stops sel runs) p h d = stop_closes s.daemon p runs
  Step-Stopped (hears_client i m ms now sel c e runs) p h d = absurd (cc (sel.0, d))
  Step-Stopped (client_ends i now sel c e runs) p h d = absurd (cc (sel.0, d))
  Step-Stopped (hears_server i m ms now sel c e runs) p h d = absurd (cc (sel.0, d))
  Step-Stopped (server_ends i now sel c e runs) p h d = absurd (cc (sel.0, d))
  Step-Stopped (ticks now later sel runs) p h d = absurd (cc (sel.0, d))
  Step-Stopped (takes id now later sel a runs) p h d = absurd (cc (sel.0, d))
  Step-Stopped (dials id now later sel a runs) p h d = absurd (cc (sel.0, d))

  Reached-IsPaired : (logs : State) {s : System State} → Reached env logs s → IsPaired s.daemon
  Reached-IsPaired logs r =
      let wired = Reachable-IsWired env (Reached-Reachable env r) in
      (wired.client_paired, wired.server_paired)

  Reached-tidy : (logs : State) {s : System State} → Reached env logs s → Accounted s × Stopped s
  unfolding boot live
  Reached-tidy logs here = (λ i l. absurd (cc l), λ d. absurd (cc d))
  Reached-tidy logs (next r st) =
      let (a, b) = Reached-tidy logs r in
      (Step-Accounted st (Reached-IsPaired logs r) a, Step-Stopped st (Reached-IsPaired logs r) b)

  chan_of : (i : ℕ) (o : Option ℕ) → names i o ≡ true → o ≡ some i
  chan_of i none e = absurd (cc e)
  chan_of i (some j) e = ground arith

  -- Under any schedule of the readers' goroutines, AcceptLoop and the daemon, with any store, any
  -- outcome of the writes and any map order: when the channels of the closed connections are
  -- emptied, a goroutine of ReadAll that runs reads for the daemon's client or server connection,
  -- and the daemon has not been stopped.
  pub no_leak :
      (logs : State) {s : System State} (i : ℕ)
      → Reached env logs s
      → IsDrained s
      → live (s.loops i) ≡ true
      → (s.running ≡ true) × ((s.daemon.client.chan ≡ some i) ⊎ (s.daemon.server.chan ≡ some i))
  unfolding live
  no_leak logs {s = s} i r drained l =
      let (accounted, stopped) = Reached-tidy logs r in
      let has : (s.daemon.client.chan ≡ some i) ⊎ (s.daemon.server.chan ≡ some i) =
        elim (Bool-cases (names i s.daemon.client.chan)) [
          | inl c ↦ inl (chan_of i s.daemon.client.chan c)
          | inr c ↦ elim (Bool-cases (names i s.daemon.server.chan)) [
            | inl d ↦ inr (chan_of i s.daemon.server.chan d)
            | inr d ↦ absurd (ground (arith, accounted i, drained i))
          ]
        ] in
      let up : s.running ≡ true = elim (Bool-cases s.running) [
        | inl on ↦ on
        | inr off ↦
            let (c, d) = stopped off in
            elim has [ inl h ↦ absurd (cc (c, h)) | inr h ↦ absurd (cc (d, h)) ]
      ] in
      (up, has)
