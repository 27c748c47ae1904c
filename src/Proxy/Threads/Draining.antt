-- ===== src/Proxy/Threads/Draining.antt =====
-- The end of the loop of `shutdown` that empties a channel.
use irc_idler.Prelude.{
  ℕ, zero, suc, ◌+◌, ◌*◌, ◌<◌, ◌≤◌, ◌==◌, [], ◌∷◌, true, length, ◌≡◌, refl, arith, ◌⊎◌, inl, inr,
  Bool-cases, ◌∙◌,
}
use irc_idler.Proxy.World.{Env}
use irc_idler.Proxy.Held.{was_closed}
use irc_idler.Proxy.Threads.{
  ReadLoop, idle, reading, sending, ended, update, System, Step, arrives, reads, fails, accepts,
  discards, stops, hears_client, client_ends, hears_server, server_ends, ticks, takes, dials, Runs,
  here, next,
}
use irc_idler.Proxy.Threads.Leaks.{live}

-- The steps that a goroutine can take at most before it ends, if no more messages come.
unfoldable pub effort : ReadLoop → ℕ
effort (idle ms) = 2 * length ms + 2
effort (reading ms) = 2 * length ms + 1
effort (sending m ms) = 2 * length ms + 2
effort ended = 0

module _ (env : Env) where
  open env.store use {State}

  abbrev Waiting : ℕ → System State → Type 0
  Waiting i s = (was_closed i s.daemon.out ≡ true) × (live (s.loops i) ≡ true)

  -- A step of a goroutine brings it nearer to its end.
  abbrev Nearer : ℕ → System State → System State → Type 0
  Nearer i s t = (t.loops i ≡ s.loops i) ⊎ (effort (t.loops i) < effort (s.loops i))

  moved :
      (i j : ℕ) (s : System State) (l : ReadLoop)
      → effort l < effort (s.loops j)
      → Nearer i s (record s { loops = update s.loops j l })
  moved i j s l h = elim (Bool-cases (j == i)) [
    | inl same ↦ inr (ground arith)
    | inr other ↦ inl (ground arith)
  ]

  -- While the daemon waits for a goroutine to end, no step is the daemon's, and each leaves the
  -- goroutine as it is or brings it nearer to its end.
  waits :
      (i : ℕ) {s t : System State}
      → Waiting i s
      → Step env s t
      → (t.daemon ≡ s.daemon) × Nearer i s t
  unfolding effort live
  waits i {s} (c, l) (arrives j m e) = (refl, inl (ground arith))
  waits i {s} (c, l) (reads j m ms e) = (refl, moved i j s (sending m ms) (ground arith))
  waits i {s} (c, l) (fails j ms e) = (refl, moved i j s ended (ground arith))
  waits i {s} (c, l) (accepts e) = (refl, inl refl)
  waits i {s} (c, l) (discards j m ms d e) = (refl, moved i j s (reading ms) (ground arith))
  waits i {s} (c, l) (stops sel runs) = absurd (ground (arith, sel.1 i c))
  waits i {s} (c, l) (hears_client j m ms now sel d e runs) = absurd (ground (arith, sel.1 i c))
  waits i {s} (c, l) (client_ends j now sel d e runs) = absurd (ground (arith, sel.1 i c))
  waits i {s} (c, l) (hears_server j m ms now sel d e runs) = absurd (ground (arith, sel.1 i c))
  waits i {s} (c, l) (server_ends j now sel d e runs) = absurd (ground (arith, sel.1 i c))
  waits i {s} (c, l) (ticks now later sel runs) = absurd (ground (arith, sel.1 i c))
  waits i {s} (c, l) (takes id now later sel a runs) = absurd (ground (arith, sel.1 i c))
  waits i {s} (c, l) (dials id now later sel a runs) = absurd (ground (arith, sel.1 i c))

  -- There is always such a step, to a state in which it still waits or has what it waits for.
  abbrev GoesOn : ℕ → System State → Type 0
  GoesOn i s =
      (t : System State) × Step env s t
      × (t.daemon ≡ s.daemon)
      × (effort (t.loops i) < effort (s.loops i))
      × ((live (t.loops i) ≡ true) ⊎ (t.loops i ≡ ended))

  GoesOn-from : (i : ℕ) (s : System State) (l : ReadLoop) → Waiting i s → s.loops i ≡ l → GoesOn i s
  unfolding effort live
  GoesOn-from i s (idle ms) (c, h) e = absurd (cc (h, e))
  GoesOn-from i s (reading []) (c, h) e = (_, fails i [] e, refl, ground arith, inr (ground arith))
  GoesOn-from i s (reading (m ∷ ms)) (c, h) e =
      (_, reads i m ms e, refl, ground arith, inl (ground arith))
  GoesOn-from i s (sending m ms) (c, h) e =
      (_, discards i m ms c e, refl, ground arith, inl (ground arith))
  GoesOn-from i s ended (c, h) e = absurd (cc (h, e))

  abbrev ComesBack : ℕ → System State → Type 0
  ComesBack i s = (t : System State) × Runs env s t × (t.daemon ≡ s.daemon) × (t.loops i ≡ ended)

  comes_back :
      (fuel i : ℕ) (s t : System State)
      → Runs env s t
      → t.daemon ≡ s.daemon
      → effort (t.loops i) ≤ fuel
      → Waiting i t
      → ComesBack i s
  comes_back zero i s t r same f w =
      let (u, st, e, less, on) = GoesOn-from i t (t.loops i) w refl in absurd (omega arith)
  comes_back (suc fuel) i s t r same f w =
      let (u, st, e, less, on) = GoesOn-from i t (t.loops i) w refl in
      elim on [
        | inl l ↦ comes_back fuel i s u (next r st) (e ∙ same) (omega arith) (rw e w.0, l)
        | inr l ↦ (u, next r st, e ∙ same, l)
      ]

  -- While a goroutine of ReadAll runs for a connection that the daemon has closed, each step of
  -- the system leaves the daemon as it is, and either leaves that goroutine as it is or brings it
  -- nearer to its end, and there are steps to a state in which it has ended and the daemon is as
  -- it was.
  pub shutdown_returns :
      (i : ℕ) (s : System State)
      → was_closed i s.daemon.out ≡ true
      → live (s.loops i) ≡ true
      → ((t : System State) → Step env s t → (t.daemon ≡ s.daemon) × Nearer i s t) × ComesBack i s
  shutdown_returns i s c l = (
    λ t st. waits i (c, l) st,
    comes_back (effort (s.loops i)) i s s here refl (omega arith) (c, l),
  )
