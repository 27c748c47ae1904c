-- ===== src/Proxy/Timeouts.antt =====
-- `checkTimeout`: a connection on which nothing comes in is pinged, and then closed.
use irc_idler.Prelude.{
  ℕ, ◌+◌, ◌≤◌, ◌<◌, List, [], ◌∷◌, ◌++◌, bytes, bytes_eq, one_of, true, false, none, some, ◌≡◌,
  refl, arith, inl, inr, ◌⊎◌,
}
use irc_idler.State.Session.Total.{IsIndexable}
use irc_idler.Proxy.World.{Output, wrote, closed, Env, World, ◌>>=◌, modify, gets, pure}
use irc_idler.Proxy.Link.{ping_time, drop_client, drop_client_world, is_closed}
use irc_idler.Proxy.Run.{judge, check_client, client_timeout, ping, set_client, mark_pinged}
use irc_idler.Proxy.Sends.{IsOpen, drop_out, send_client-cases}
use irc_idler.Proxy.Sends.Each.{IsCut, dropped-IsCut}

ping-IsIndexable : IsIndexable ping
unfolding one_of bytes bytes_eq
ping-IsIndexable = record { first = λ e. cc e; topic = λ e. cc e; names = λ e. cc e }

module _ (env : Env) where
  open env.store use {State}

  -- The client was pinged, and has until `drop_deadline` to say something.
  pub record IsPinged (id now : ℕ) (w w' : World State) : Type 0 where
    pub written : w'.out ≡ w.out ++ wrote id ping ∷ []
    pub waiting : w'.client.ping_sent ≡ true
    pub deadline : w'.client.drop_deadline ≡ now + ping_time
    pub still_open : IsOpen id w'

  -- Until the ping's deadline a tick does nothing to a client that was not pinged.
  tick_early :
      (now id : ℕ) (w : World State)
      → IsOpen id w
      → w.client.ping_sent ≡ false
      → now ≤ w.client.ping_deadline
      → client_timeout env now w ≡ some (tt, w)
  unfolding client_timeout check_client judge is_closed ◌>>=◌ gets pure
  tick_early now id w (rwc, chan) unsent early = ground (arith, rwc, chan, unsent, early)

  -- The ping, once its deadline is over.
  tick_late :
      (now id : ℕ) (w : World State)
      → IsOpen id w
      → w.client.ping_sent ≡ false
      → w.client.ping_deadline < now
      → (w' : World State) × (client_timeout env now w ≡ some (tt, w'))
        × (IsPinged id now w w' ⊎ IsCut env id (ping ∷ []) w w')
  unfolding client_timeout check_client judge is_closed ◌>>=◌ gets pure modify set_client
      mark_pinged
  tick_late now id w (rwc, chan) unsent late =
      elim (send_client-cases env id ping w ping-IsIndexable (rwc, chan)) [
        | inl s ↦ (
          set_client (mark_pinged now) s.after,
          ground (arith, rwc, chan, unsent, late, s.runs),
          inl (record {
            written = s.written;
            waiting = refl;
            deadline = refl;
            still_open = s.still_open;
          }),
        )
        | inr d ↦ (
          set_client (mark_pinged now) d.after,
          ground (arith, rwc, chan, unsent, late, d.runs),
          inr (
              let c = dropped-IsCut env id ping [] w d in
              record {
                sent = c.sent;
                missed = c.missed;
                unsent = c.unsent;
                split = c.split;
                closings = c.closings;
                written = c.written;
                gone = c.gone;
                same_logs = c.same_logs;
              }),
        )
      ]

  -- A tick after the ping.
  tick_pinged :
      (t id : ℕ) (w : World State)
      → IsOpen id w
      → w.client.ping_sent ≡ true
      → (t ≤ w.client.drop_deadline → client_timeout env t w ≡ some (tt, w))
        × (w.client.drop_deadline < t → client_timeout env t w ≡ some (tt, drop_client_world w))
  unfolding client_timeout check_client judge is_closed ◌>>=◌ gets pure modify drop_client
  tick_pinged t id w (rwc, chan) sent = (
    λ early. ground (arith, rwc, chan, sent, early),
    λ late. ground (arith, rwc, chan, sent, late),
  )

  drop_gone : (id : ℕ) (w : World State) → IsOpen id w → (drop_client_world w).client.rwc ≡ none
  unfolding drop_client_world
  drop_gone id w (rwc, chan) = ground (arith, rwc, chan)

  -- From its ping on, a client that says nothing is left alone until its time is over, and closed
  -- by any tick that comes then.
  pub record IsDoomed (id now : ℕ) (w' : World State) : Type 0 where
    pub waits : (t : ℕ) → t ≤ now + ping_time → client_timeout env t w' ≡ some (tt, w')
    pub falls :
        (t : ℕ)
        → now + ping_time < t
        → (w'' : World State) × (client_timeout env t w' ≡ some (tt, w''))
          × (w''.client.rwc ≡ none)
          × ((closings : List Output) × (w''.out ≡ w'.out ++ closed id ∷ closings))

  pinged-IsDoomed : (id now : ℕ) (w w' : World State) → IsPinged id now w w' → IsDoomed id now w'
  pinged-IsDoomed id now w w' p = record {
    waits = λ t early. (tick_pinged t id w' p.still_open p.waiting).0 (omega (arith, p.deadline));
    falls = λ t late. (
      drop_client_world w',
      (tick_pinged t id w' p.still_open p.waiting).1 (omega (arith, p.deadline)),
      drop_gone id w' p.still_open,
      drop_out env id w' p.still_open,
    );
  }

  pub silent_client :
      (now id : ℕ) (w : World State)
      → IsOpen id w
      → w.client.ping_sent ≡ false
      → (now ≤ w.client.ping_deadline → client_timeout env now w ≡ some (tt, w))
        × (w.client.ping_deadline < now
            → (w' : World State) × (client_timeout env now w ≡ some (tt, w'))
              × ((IsPinged id now w w' × IsDoomed id now w') ⊎ IsCut env id (ping ∷ []) w w'))
  silent_client now id w is_open unsent = (
    tick_early now id w is_open unsent,
    λ late.
        let (w', runs, p) = tick_late now id w is_open unsent late in
        elim p [
          | inl p ↦ (w', runs, inl (p, pinged-IsDoomed id now w w' p))
          | inr gone ↦ (w', runs, inr gone)
        ],
  )
