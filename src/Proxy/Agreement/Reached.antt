-- ===== src/Proxy/Agreement/Reached.antt =====
-- Client and server agree on the handshake in every state that the daemon reaches.
use mathlib.Core.Path.{subst}
use irc_idler.Prelude.{
  ℕ, one_of, true, Option, none, some, ◌≡◌, refl, arith, Bool-cases, inl, inr, ◌⊎◌,
}
use irc_idler.Irc.Message.{Message}
use irc_idler.Irc.Validate.{validate}
use irc_idler.State.Handshake.{done}
use irc_idler.State.Session.{Session, update_from_server}
use irc_idler.Storage.Laws.{StoreLaws}
use irc_idler.Storage.Holds.{Holds}
use irc_idler.Proxy.World.{Env, World, ◌>>=◌, modify}
use irc_idler.Proxy.World.Keeps.{After, After-and, After-bind, Keeps-bind, Keeps-gets, Keeps-pure}
use irc_idler.Proxy.World.SameLogs.{send_client-OfLogs, send_server-OfLogs}
use irc_idler.Proxy.Link.{send_client, send_server, update_deadlines}
use irc_idler.Proxy.Client
use irc_idler.Proxy.Server
use irc_idler.Proxy.Stable.{IsStable}
use irc_idler.Proxy.Run.{
  Event, Reachable, start, step, stop, from_client, from_server, tick, client_conn, IsReady,
  new_proxy, handle_event, set_client, set_server,
}
use irc_idler.Proxy.Handlers.{handle_event-Keeps}
use irc_idler.Proxy.Handlers.ClientSide.{welcome_if_wanted-Keeps}
use irc_idler.Proxy.Agreement.{IsAgreed, IsQuiet, refusals, endings}
use irc_idler.Proxy.Agreement.Steady.{steady, InStep, InStep-IsStable, complaint-IsQuiet}
use irc_idler.Proxy.Agreement.Turns.{
  speakers, spoken, replied, speaker_asked, server_write-spoken, spoken-IsAgreed,
  client_write-replied, dispatch-refusal, dispatch-ending,
}

-- Each event of a run is of some kind.
abbrev pub Took :
    {env : Env} {logs : env.store.State} {w : World env.store.State} (K : Event → Type 0)
    → Reachable env logs w
    → Type 0
Took K start = Unit
Took K (step e r ready runs) = K e × Took K r

module _ (env : Env) (laws : StoreLaws env.store) where
  open env.store use {State}

  abbrev Here : World State → Type 0
  Here = InStep env laws

  stable : IsStable env (steady env laws) Here
  stable = InStep-IsStable env laws

  abbrev Quiet : State → Type 0
  Quiet = Holds laws IsQuiet

  -- A NICK or USER.
  speaker_sent :
      (m : Message) (w : World State) (id : ℕ)
      → Here w
      → w.client.chan ≡ some id
      → After Here (send_server env m (spoken env m w))
  unfolding Client.set_client_session
  speaker_sent m w id (a, h) ready =
      After-and _ _ _
        (unfold send_server in server_write-spoken env m w.server.rwc w refl a id ready)
        ((send_server-OfLogs env Quiet m).at (spoken env m w)
          (unfold Client.set_client_session in h))

  speaker_valid :
      (m : Message) (w : World State) (id : ℕ)
      → one_of m.command speakers ≡ true
      → Here w
      → w.client.chan ≡ some id
      → After Here (Client.handle_valid env m w)
  speaker_valid m w id e (a, h) ready =
      let w' = spoken env m w in
      let sent =
        After-bind (send_server env m) _ w' (speaker_sent m w id (a, h) ready)
          (λ sent. Keeps-pure tt) in
      rw (speaker_asked env m w e) (elim (Bool-cases (done w'.client.session.handshake)) [
        | inl x ↦ rw x sent
        | inr x ↦ elim (Bool-cases (done w'.server.session.handshake)) [
          | inl y ↦
              rw (x, y)
                ((welcome_if_wanted-Keeps env (steady env laws) stable w').at w'
                  (spoken-IsAgreed env m w a id ready y, unfold Client.set_client_session in h))
          | inr y ↦ rw (x, y) sent
        ]
      ])

  -- A reply that ends or undoes a part of the handshake.
  reply_sent :
      (m : Message) (w : World State) (k : ℕ) {s : Session}
      → Here w
      → w.server.chan ≡ some k
      → update_from_server m w.server.session ≡ some s
      → After Here (send_client env m (replied env s w))
  reply_sent m w k {s} (a, h) ready e =
      After-and _ _ _
        (unfold send_client in client_write-replied env m w.client.rwc w k a refl ready e)
        ((send_client-OfLogs env Quiet m).at (replied env s w) h)

  forward-replied :
      (m : Message) (w : World State) (k : ℕ) {s : Session}
      → Here w
      → w.server.chan ≡ some k
      → update_from_server m w.server.session ≡ some s
      → After Here (Server.forward env m (replied env s w))
  unfolding Server.forward
  forward-replied m w k {s} h ready e =
      After-bind _ _ (replied env s w) (reply_sent m w k h ready e) (λ sent. Keeps-pure tt)

  endofmotd_replied :
      (m : Message) (w : World State) (k : ℕ) {s : Session}
      → Here w
      → w.server.chan ≡ some k
      → update_from_server m w.server.session ≡ some s
      → After Here (Server.handle_endofmotd env m (replied env s w))
  unfolding Server.handle_endofmotd
  endofmotd_replied m w k {s} h ready e =
      After-bind _ _ (replied env s w) (forward-replied m w k h ready e)
        (λ _. Keeps-bind _ _ (Keeps-gets (λ w. w)) (λ w. stable.replays _))

  abbrev IsReply : Message → Type 0
  IsReply m = (one_of m.command refusals ≡ true) ⊎ (one_of m.command endings ≡ true)

  dispatch-replied :
      (m : Message) (w : World State) (k : ℕ) {s : Session}
      → IsReply m
      → Here w
      → w.server.chan ≡ some k
      → update_from_server m w.server.session ≡ some s
      → After Here (Server.dispatch env m (replied env s w))
  dispatch-replied m w k (inl c) h ready e =
      rw (dispatch-refusal env m c) (forward-replied m w k h ready e)
  dispatch-replied m w k (inr c) h ready e =
      rw (dispatch-ending env m c) (endofmotd_replied m w k h ready e)

  tracked_replied :
      (m : Message) (w : World State) (k : ℕ) (o : Option Session)
      → IsReply m
      → Here w
      → w.server.chan ≡ some k
      → update_from_server m w.server.session ≡ o
      → After Here ((Server.tracked_as o >>= λ _. Server.dispatch env m) w)
  unfolding ◌>>=◌ Server.tracked_as
  tracked_replied m w k none r h ready e = tt
  tracked_replied m w k (some s) r h ready e = dispatch-replied m w k r h ready e

  server_replied :
      (m : Message) (w : World State) (k : ℕ) (o : Option Message)
      → IsReply m
      → Here w
      → w.server.chan ≡ some k
      → After Here (Server.handle_message env m o w)
  unfolding Server.handle_message Server.track_server ◌>>=◌
  server_replied m w k none r h ready =
      tracked_replied m w k (update_from_server m w.server.session) r h ready refl
  server_replied m w k (some complaint) r h ready = stable.resets.at w h

  client_spoke :
      (m : Message) (w : World State) (id : ℕ) (o : Option Message)
      → one_of m.command speakers ≡ true
      → validate m ≡ o
      → Here w
      → w.client.chan ≡ some id
      → After Here (Client.handle_message env m o w)
  unfolding Client.handle_message
  client_spoke m w id none e v h ready = speaker_valid m w id e h ready
  client_spoke m w id (some complaint) e v h ready =
      After-bind _ _ w
        ((stable.sends_client complaint (unfold steady in complaint-IsQuiet m v)).at w h)
        (λ sent. stable.drops_client)

  -- The store can store what the server sends.
  abbrev pub CanStore : Event → Type 0
  CanStore (from_server (some m) now) = laws.Storable m
  CanStore e = Unit

  from_client-InStep :
      (m : Message) (now : ℕ) (w : World State)
      → IsReady env (from_client (some m) now) w
      → Here w
      → After Here (handle_event env (from_client (some m) now) w)
  unfolding update_deadlines
  from_client-InStep m now w (id, ready) h = elim (Bool-cases (one_of m.command speakers)) [
    | inl speaks ↦
        unfold handle_event ◌>>=◌ modify in
        (unfold Client.handle_client_event set_client in
          client_spoke m (set_client (update_deadlines now) w) id (validate m) speaks refl
            (stable.client_timer now w h) ready)
    | inr plain ↦
        (handle_event-Keeps env (steady env laws) stable (from_client (some m) now)
            (unfold steady in plain)).at
          w h
  ]

  from_server-InStep :
      (m : Message) (now : ℕ) (w : World State)
      → laws.Storable m
      → IsReady env (from_server (some m) now) w
      → Here w
      → After Here (handle_event env (from_server (some m) now) w)
  unfolding update_deadlines
  from_server-InStep m now w fits (k, ready) h =
      let turn : IsReply m → After Here (handle_event env (from_server (some m) now) w) = λ r.
        unfold handle_event ◌>>=◌ modify Server.handle_server_event set_server in
        server_replied m (set_server (update_deadlines now) w) k (validate m) r
          (stable.server_timer now w h) ready in
      elim (Bool-cases (one_of m.command refusals)) [
        | inl refused ↦ turn (inl refused)
        | inr a ↦ elim (Bool-cases (one_of m.command endings)) [
          | inl ended ↦ turn (inr ended)
          | inr b ↦
              (handle_event-Keeps env (steady env laws) stable (from_server (some m) now)
                  (unfold steady in ((a, b), fits))).at
                w h
        ]
      ]

  event-InStep :
      (e : Event) (w : World State)
      → IsReady env e w
      → CanStore e
      → Here w
      → After Here (handle_event env e w)
  event-InStep stop w ready fits h =
      (handle_event-Keeps env (steady env laws) stable stop tt).at w h
  event-InStep (from_client none now) w ready fits h =
      (handle_event-Keeps env (steady env laws) stable (from_client none now) tt).at w h
  event-InStep (from_client (some m) now) w ready fits h = from_client-InStep m now w ready h
  event-InStep (from_server none now) w ready fits h =
      (handle_event-Keeps env (steady env laws) stable (from_server none now) tt).at w h
  event-InStep (from_server (some m) now) w ready fits h = from_server-InStep m now w fits ready h
  event-InStep (tick now later) w ready fits h =
      (handle_event-Keeps env (steady env laws) stable (tick now later) tt).at w h
  event-InStep (client_conn id now none later) w ready fits h =
      (handle_event-Keeps env (steady env laws) stable (client_conn id now none later)
          (unfold steady in (tt, tt))).at
        w h
  event-InStep (client_conn id now (some k) later) w ready fits h =
      (handle_event-Keeps env (steady env laws) stable (client_conn id now (some k) later)
          (unfold steady in (tt, tt))).at
        w h

  new_proxy-IsAgreed : (logs : State) → IsAgreed (new_proxy logs)
  unfolding new_proxy
  new_proxy-IsAgreed logs = ground arith

  Reachable-InStep :
      {logs : State} {w : World State} (r : Reachable env logs w)
      → Took CanStore r
      → Holds laws IsQuiet logs
      → Here w
  Reachable-InStep {logs} start took quiet = (new_proxy-IsAgreed logs, unfold new_proxy in quiet)
  Reachable-InStep (step {w = v} e r ready runs) (fits, took) quiet =
      subst (After Here) runs (event-InStep e v ready fits (Reachable-InStep r took quiet))

  -- In every state that the daemon reaches through events whose messages of the server the store
  -- can store, from sound logs without a message that a handshake reads, with any store that
  -- keeps its laws, any outcome of the writes, any map order and any order of events: while the
  -- server's handshake is not done, the client's has come exactly as far, and there is a client
  -- if there is a server; there is none without a server; a closed connection's handshake is
  -- fresh; and a connection has both its transport and its channel or neither.
  pub Reachable-IsAgreed :
      {logs : State} {w : World State} (r : Reachable env logs w)
      → Took CanStore r
      → Holds laws IsQuiet logs
      → IsAgreed w
  Reachable-IsAgreed r took quiet = (Reachable-InStep r took quiet).0
