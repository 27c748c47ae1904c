-- ===== src/Proxy/NoPanic/Steps.antt =====
-- The steps of the handlers, by the rules of Completes.
use mathlib.Core.Path.{subst}
use irc_idler.Prelude.{ℕ, Option, none, some, ◌≡◌, sym, Bool-cases, inl, inr, arith}
use irc_idler.Irc.Message.{Message}
use irc_idler.State.Session.Total.{IsIndexable}
use irc_idler.Storage.Laws.{StoreLaws}
use irc_idler.Storage.Holds.{Holds}
use irc_idler.Proxy.World.{Env, World}
use irc_idler.Proxy.World.Completes.{Ends, Completes, Completes-modify}
use irc_idler.Proxy.Link.{
  send_client, send_server, server_write, drop_client, drop_client_world, reset, reset_world,
}
use irc_idler.Proxy.Log.{store_op}
use irc_idler.Proxy.Sends.{attempt}

module _ (env : Env) (laws : StoreLaws env.store) where
  open env.store use {State}

  -- The logs are sound, and a session can take in each message in them.
  abbrev pub CanReplay : State → Type 0
  CanReplay = Holds laws IsIndexable

  abbrev pub IsFine : World State → Type 0
  IsFine w = CanReplay w.logs

  same_logs-IsFine : (w w' : World State) → w'.logs ≡ w.logs → IsFine w → IsFine w'
  same_logs-IsFine w w' e h = subst CanReplay (sym e) h

  drop_client-IsFine : (w : World State) → IsFine w → IsFine (drop_client_world w)
  unfolding drop_client_world
  drop_client-IsFine w = same_logs-IsFine w (drop_client_world w) (ground arith)

  reset-IsFine : (w : World State) → IsFine w → IsFine (reset_world w)
  unfolding reset_world
  reset-IsFine w h = h

  pub drop_client-Completes : Completes IsFine (drop_client {L = State})
  unfolding drop_client
  drop_client-Completes = Completes-modify _ drop_client-IsFine

  pub reset-Completes : Completes IsFine (reset {L = State})
  unfolding reset
  reset-Completes = Completes-modify _ reset-IsFine

  pub send_client-Completes : (m : Message) → IsIndexable m → Completes IsFine (send_client env m)
  send_client-Completes m ok = record {
    at = λ w h.
        let a = attempt env m w ok in
        subst (Ends IsFine) (sym a.runs) (same_logs-IsFine w a.after a.same_logs h);
  }

  server_write-Ends :
      (m : Message) (o : Option ℕ) (w : World State)
      → IsFine w
      → Ends IsFine (server_write env m o w)
  unfolding server_write
  server_write-Ends m none w h = h
  server_write-Ends m (some id) w h = elim (Bool-cases (env.writes w.out id m)) [
    | inl ok ↦ rw ok h
    | inr failed ↦ rw failed h
  ]

  pub send_server-Completes : (m : Message) → Completes IsFine (send_server env m)
  unfolding send_server
  send_server-Completes m = record { at = λ w. server_write-Ends m w.server.rwc w }

  pub store_op-Completes :
      {A : Type 0} (f : State → A × State)
      → ((s : State) → CanReplay s → CanReplay (f s).1)
      → Completes IsFine (store_op env f)
  unfolding store_op
  store_op-Completes f kf = record { at = λ w h. kf w.logs h }
