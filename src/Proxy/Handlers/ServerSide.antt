-- ===== src/Proxy/Handlers/ServerSide.antt =====
-- The server's handlers keep what their steps keep.
use irc_idler.Prelude.{Bytes, List, true, Option, none, some, ◌≡◌, refl}
use irc_idler.Irc.Message.{Message}
use irc_idler.Irc.Validate.{validate}
use irc_idler.Irc.ClientId.{ClientId, Parsed, ok, err}
use irc_idler.Proxy.World.{Env, World, modify}
use irc_idler.Proxy.World.Keeps.{Keeps, Keeps-bind, Keeps-modify, Keeps-pure, Keeps-if, keeps_rules}
use irc_idler.Proxy.Log.{replay_log, log_msg}
use irc_idler.Proxy.Client
use irc_idler.Proxy.Server
use irc_idler.Proxy.Stable.{Talk, IsStable}

module _ {ℓ} (env : Env) (talk : Talk) {P : World env.store.State → Type ℓ}
    (h : IsStable env talk P) where
  open env.store use {State}
  open talk use {Told, Asked, Kept}

  server_id-Keeps :
      (id : ClientId)
      → Keeps P (modify {L = State} (Server.set_server_session (λ s. record s { client_id = id })))
  server_id-Keeps id = Keeps-modify _ (h.server_id id)

  client_id-Keeps :
      (id : ClientId)
      → Keeps P (modify {L = State} (Client.set_client_session (λ s. record s { client_id = id })))
  client_id-Keeps id = Keeps-modify _ (h.client_session _ (λ s. refl))

  prefix-Keeps : (p : Bytes) → Keeps P (modify {L = State} (λ w. record w { server_prefix = p }))
  prefix-Keeps p = Keeps-modify _ (h.prefix p)

  yourhost-Keeps : (t : Bytes) → Keeps P (modify {L = State} (λ w. record w { yourhost = t }))
  yourhost-Keeps t = Keeps-modify _ (h.yourhost t)

  created-Keeps : (t : Bytes) → Keeps P (modify {L = State} (λ w. record w { created = t }))
  created-Keeps t = Keeps-modify _ (h.created t)

  myinfo-Keeps : (ps : List Bytes) → Keeps P (modify {L = State} (λ w. record w { myinfo = ps }))
  myinfo-Keeps ps = Keeps-modify _ (h.myinfo ps)

  cached-Keeps : Keeps P (modify {L = State} (λ w. record w { have_msg_cache = true }))
  cached-Keeps = Keeps-modify _ h.cached

  replays-Keeps : (name : Bytes) → Keeps P (replay_log env name)
  replays-Keeps name = h.replays name

  ruleset server_rules = (
    keeps_rules, server_id-Keeps, client_id-Keeps, prefix-Keeps, yourhost-Keeps, created-Keeps,
    myinfo-Keeps, cached-Keeps, replays-Keeps,
  )

  module _ (m : Message) (told : Told m) (kept : Kept m) where
    forward-Keeps : Keeps P (Server.forward env m)
    unfolding Server.forward
    forward-Keeps = Keeps-bind _ _ (h.sends_client m told) (λ sent. Keeps-pure tt)

    logs-Keeps : Keeps P (log_msg env m)
    logs-Keeps = h.logs m kept

    forward_or_log-Keeps : Keeps P (Server.forward_or_log env m)
    unfolding Server.forward_or_log
    forward_or_log-Keeps =
        Keeps-bind _ _ (h.sends_client m told)
          (λ sent. Keeps-if sent _ _ (Keeps-pure tt) logs-Keeps)

    ruleset message_rules = (server_rules, forward-Keeps, forward_or_log-Keeps, logs-Keeps)

    adopt_welcome-Keeps : (p : Parsed) → Keeps P (Server.adopt_welcome env m p)
    unfolding Server.adopt_welcome
    adopt_welcome-Keeps (err e) = h.resets
    adopt_welcome-Keeps (ok id) = Keeps-bind _ _ (server_id-Keeps id) (λ _.
        Keeps-bind _ _ (h.sends_client m told)
          (λ sent. Keeps-if sent _ _ (client_id-Keeps id) (Keeps-pure tt)))

    handle_welcome-Keeps : Keeps P (Server.handle_welcome env m)
    unfolding Server.handle_welcome
    handle_welcome-Keeps = search (message_rules, adopt_welcome-Keeps) depth 12

    handle_yourhost-Keeps : Keeps P (Server.handle_yourhost env m)
    unfolding Server.handle_yourhost
    handle_yourhost-Keeps = search message_rules depth 12

    handle_created-Keeps : Keeps P (Server.handle_created env m)
    unfolding Server.handle_created
    handle_created-Keeps = search message_rules depth 12

    handle_myinfo-Keeps : Keeps P (Server.handle_myinfo env m)
    unfolding Server.handle_myinfo
    handle_myinfo-Keeps = search message_rules depth 12

    handle_endofmotd-Keeps : Keeps P (Server.handle_endofmotd env m)
    unfolding Server.handle_endofmotd
    handle_endofmotd-Keeps = search message_rules depth 12

    handle_endofnames-Keeps : Keeps P (Server.handle_endofnames env m)
    unfolding Server.handle_endofnames
    handle_endofnames-Keeps = search message_rules depth 12

    handle_privmsg-Keeps : Keeps P (Server.handle_privmsg env m)
    unfolding Server.handle_privmsg
    handle_privmsg-Keeps = search message_rules depth 12

    handle_roster_change-Keeps : Keeps P (Server.handle_roster_change env m)
    unfolding Server.handle_roster_change
    handle_roster_change-Keeps = search message_rules depth 12

    dispatch-Keeps : Keeps P (Server.dispatch env m)
    unfolding Server.dispatch
    dispatch-Keeps =
        search
          (
            message_rules, handle_welcome-Keeps, handle_yourhost-Keeps, handle_created-Keeps,
            handle_myinfo-Keeps, handle_endofmotd-Keeps, handle_endofnames-Keeps,
            handle_privmsg-Keeps, handle_roster_change-Keeps, h.sends_server, talk.ask_pong,
          )
          depth 30

  pub server_message-Keeps :
      (m : Message) (o : Option Message)
      → (o ≡ none → Keeps P (Server.handle_message env m none))
      → Keeps P (Server.handle_message env m o)
  unfolding Server.handle_message
  server_message-Keeps m none valid = valid refl
  server_message-Keeps m (some complaint) valid = h.resets

  valid_message-Keeps : (m : Message) → Told m → Kept m → Keeps P (Server.handle_message env m none)
  unfolding Server.handle_message
  valid_message-Keeps m told kept =
      Keeps-bind _ _ (h.tracks m told) (λ _. dispatch-Keeps m told kept)

  pub handle_server_event-Keeps :
      (m : Message) → Told m → Kept m → Keeps P (Server.handle_server_event env (some m))
  unfolding Server.handle_server_event
  handle_server_event-Keeps m told kept =
      server_message-Keeps m (validate m) (λ _. valid_message-Keeps m told kept)

  pub server_end-Keeps : Keeps P (Server.handle_server_event env none)
  unfolding Server.handle_server_event
  server_end-Keeps = h.resets
