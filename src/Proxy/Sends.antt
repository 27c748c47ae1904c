-- ===== src/Proxy/Sends.antt =====
-- A message sent to a client that is connected: it is written, or the client is dropped.
pub mod Each
use irc_idler.Prelude.{
  ℕ, List, [], ◌∷◌, ◌++◌, Bytes, Bool, true, false, Option, none, some, ◌≡◌, ◌∙◌, append_assoc,
  refl, arith, Option-cases, Bool-cases, inl, inr, is_some, ◌⊎◌,
}
use irc_idler.Irc.Message.{Message}
use irc_idler.State.Handshake.{done}
use irc_idler.State.Session.{Session, update_from_server}
use irc_idler.State.Session.Total.{IsIndexable, update_from_server_total}
use irc_idler.Proxy.World.{Output, wrote, write_failed, closed, Env, World, Connection, Proc}
use irc_idler.Proxy.Link.{
  delivered, not_delivered, client_write, send_client, drop_client_world, reset_world, shutdown,
}

-- The client is connected, by the connection `id`.
abbrev pub IsOpen : {L : Type 0} → ℕ → World L → Type 0
IsOpen id w = (w.client.rwc ≡ some id) × (w.client.chan ≡ some id)

pub session_taken :
    (m : Message) (s : Session)
    → IsIndexable m
    → (s' : Session) × (update_from_server m s ≡ some s')
session_taken m s h = elim (Option-cases (update_from_server m s)) [
  | inl e ↦ absurd (cc (e, update_from_server_total m s h))
  | inr (s', e) ↦ (s', e)
]

module _ (env : Env) where
  open env.store use {State}

  -- The message was written to the client, which is still there.
  pub record IsSent (id : ℕ) (m : Message) (w : World State) : Type 0 where
    pub after : World State
    pub runs : send_client env m w ≡ some (true, after)
    pub written : after.out ≡ w.out ++ wrote id m ∷ []
    pub session_taken : update_from_server m w.client.session ≡ some after.client.session
    pub pre_log_taken : update_from_server m w.pre_log ≡ some after.pre_log
    pub same_logs : after.logs ≡ w.logs
    pub same_server : after.server ≡ w.server
    pub same_prefix : after.server_prefix ≡ w.server_prefix
    pub still_open : IsOpen id after

  -- The write failed, and the client is dropped.
  pub record IsDropped (id : ℕ) (m : Message) (w : World State) : Type 0 where
    pub after : World State
    pub runs : send_client env m w ≡ some (false, after)
    pub closings : List Output
    pub written : after.out ≡ w.out ++ write_failed id m ∷ closed id ∷ closings
    pub same_logs : after.logs ≡ w.logs
    pub gone : after.client.rwc ≡ none

  send_works :
      (id : ℕ) (m : Message) (w : World State)
      → IsIndexable m
      → IsOpen id w
      → env.writes w.out id m ≡ true
      → IsSent id m w
  unfolding send_client client_write delivered
  send_works id m w h (rwc, chan) ok =
      let (s, es) = session_taken m w.client.session h in
      let (t, et) = session_taken m w.pre_log h in
      record {
        after = record w {
          client = record (w.client) { session = s };
          pre_log = t;
          out = w.out ++ wrote id m ∷ [];
        };
        runs = ground (arith, es, et, ok, rwc);
        written = refl;
        session_taken = es;
        pre_log_taken = et;
        same_logs = refl;
        same_server = refl;
        same_prefix = refl;
        still_open = (rwc, chan);
      }

  pub drop_out :
      (id : ℕ) (w : World State)
      → IsOpen id w
      → (closings : List Output) × ((drop_client_world w).out ≡ w.out ++ closed id ∷ closings)
  unfolding drop_client_world shutdown
  drop_out id w (rwc, chan) = elim (Bool-cases (done w.server.session.handshake)) [
    | inl d ↦ ([], ground (arith, rwc, chan, d))
    | inr d ↦ (
      (shutdown w.server).1,
      ground (arith, rwc, chan, d, append_assoc w.out (closed id ∷ []) (shutdown w.server).1),
    )
  ]

  pub reset_out :
      (id : ℕ) (w : World State)
      → IsOpen id w
      → (closings : List Output) × ((reset_world w).out ≡ w.out ++ closed id ∷ closings)
  unfolding reset_world shutdown
  reset_out id w (rwc, chan) = (
    (shutdown w.server).1,
    ground (arith, rwc, chan, append_assoc w.out (closed id ∷ []) (shutdown w.server).1),
  )

  dropped_out :
      (w : World State) → (closings : List Output) × ((drop_client_world w).out ≡ w.out ++ closings)
  unfolding drop_client_world shutdown
  dropped_out w =
      let first = (shutdown w.client).1 in
      let second = (shutdown w.server).1 in
      elim (Bool-cases (done w.server.session.handshake)) [
        | inl d ↦ (first, ground (arith, d))
        | inr d ↦ (first ++ second, ground (arith, d, append_assoc w.out first second))
      ]

  send_fails :
      (id : ℕ) (m : Message) (w : World State)
      → IsOpen id w
      → env.writes w.out id m ≡ false
      → IsDropped id m w
  unfolding send_client client_write not_delivered drop_client_world
  send_fails id m w (rwc, chan) failed =
      let w1 = record w { out = w.out ++ write_failed id m ∷ [] } in
      let (closings, dropped) = drop_out id w1 (rwc, chan) in
      record {
        after = drop_client_world w1;
        closings = closings;
        written = dropped ∙ append_assoc w.out (write_failed id m ∷ []) (closed id ∷ closings);
        runs = ground (arith, failed, rwc);
        same_logs = ground arith;
        gone = ground (arith, rwc, chan);
      }

  pub send_client-cases :
      (id : ℕ) (m : Message) (w : World State)
      → IsIndexable m
      → IsOpen id w
      → IsSent id m w ⊎ IsDropped id m w
  send_client-cases id m w h is_open = elim (Bool-cases (env.writes w.out id m)) [
    | inl ok ↦ inl (send_works id m w h is_open ok)
    | inr failed ↦ inr (send_fails id m w is_open failed)
  ]

  -- There is no client, or the write to it failed.
  abbrev pub IsUnwritten : Message → World State → World State → Type 0
  IsUnwritten m w after =
      ((w.client.rwc ≡ none) × (after.out ≡ w.out))
      ⊎ ((id : ℕ) × (closings : List Output) × (w.client.rwc ≡ some id)
          × (after.out ≡ w.out ++ write_failed id m ∷ closings))

  -- What `sendClient` does to the outputs and the logs, whether there is a client or not.
  pub record Attempt (m : Message) (w : World State) : Type 0 where
    pub sent : Bool
    pub after : World State
    pub runs : send_client env m w ≡ some (sent, after)
    pub same_logs : after.logs ≡ w.logs
    pub written :
        sent ≡ true → (id : ℕ) × (w.client.rwc ≡ some id) × (after.out ≡ w.out ++ wrote id m ∷ [])
    pub unwritten : sent ≡ false → IsUnwritten m w after

  Attempt-to :
      (m : Message) (o : Option ℕ) (w : World State)
      → IsIndexable m
      → w.client.rwc ≡ o
      → Attempt m w
  unfolding send_client client_write delivered not_delivered drop_client_world
  Attempt-to m none w h e = record {
    sent = false;
    after = w;
    runs = ground (arith, e);
    same_logs = refl;
    written = λ f. cc;
    unwritten = λ f. inl (e, refl);
  }
  Attempt-to m (some id) w h e =
      let (s, es) = session_taken m w.client.session h in
      let (t, et) = session_taken m w.pre_log h in
      elim (Bool-cases (env.writes w.out id m)) [
        | inl ok ↦ record {
          sent = true;
          after = record w {
            client = record (w.client) { session = s };
            pre_log = t;
            out = w.out ++ wrote id m ∷ [];
          };
          runs = ground (arith, es, et, ok, e);
          same_logs = refl;
          written = λ f. (id, e, refl);
          unwritten = λ f. absurd (cc f);
        }
        | inr failed ↦ record {
          sent = false;
          after = drop_client_world (record w { out = w.out ++ write_failed id m ∷ [] });
          runs = ground (arith, failed, e);
          same_logs = ground arith;
          written = λ f. cc;
          unwritten = λ f.
              let w1 = record w { out = w.out ++ write_failed id m ∷ [] } in
              let (closings, dropped) = dropped_out w1 in
              inr (id, closings, e, dropped ∙ append_assoc w.out (write_failed id m ∷ []) closings);
        }
      ]

  pub attempt : (m : Message) (w : World State) → IsIndexable m → Attempt m w
  attempt m w h = Attempt-to m w.client.rwc w h refl
