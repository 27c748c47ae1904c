-- ===== src/Proxy/Samples.antt =====
-- A daemon at rest, with a client and a server, and the theorems on its handlers at it.
use mathlib.Core.Path.{subst}
use irc_idler.Prelude.{
  ℕ, ◌≤◌, ◌<◌, [], ◌∷◌, ◌++◌, All, Bytes, bytes, bytes_eq, bytes_eq_refl, one_of, true, false,
  Option, none, some, ◌≡◌, refl, sym, arith, inl, inr, ◌⊎◌,
}
use irc_idler.Irc.Message.{Message}
use irc_idler.Irc.Validate.{validate, min_params}
use irc_idler.Irc.Codes.{cmd_privmsg, cmd_quit, cmd_user}
use irc_idler.State.Handshake
use irc_idler.State.Handshake.{Handshake, done, wants_welcome}
use irc_idler.State.Session.{Session, new_session}
use irc_idler.State.Session.Total.{IsIndexable}
use irc_idler.Storage.Ephemeral.{ephemeral, new_store, log_message, clear}
use irc_idler.Storage.Ephemeral.Meets.{ephemeral_laws, ephemeral_stores, ephemeral-IsReliable}
use irc_idler.Proxy.World.{closed, Env, World, empty_connection}
use irc_idler.Proxy.Log.{replay_log}
use irc_idler.Proxy.Server.{handle_server_event}
use irc_idler.Proxy.Run.{ping, client_timeout, from_client, from_server, client_conn, handle_event}
use irc_idler.Proxy.Wired.{IsWired}
use irc_idler.Proxy.Replay.Ends.{IsReplayed, IsKept}
use irc_idler.Proxy.Replay.{replay_log_lem}
use irc_idler.Proxy.Delivery.Logging.{addressed, IsWritten, IsLogged}
use irc_idler.Proxy.Delivery.{IsMissed, is_for_client, handle_server_event-spoken}
use irc_idler.Proxy.Timeouts.{IsPinged, IsDoomed, silent_client}
use irc_idler.Proxy.Leaving.{quits, HasLeft, client_leaves, HasEnded, server_lost}
use irc_idler.Proxy.Accepting.{IsWelcomed, accept_idle, accept_dials}
use irc_idler.Proxy.Client.{welcome_back}
use irc_idler.Proxy.Sends.Each.{IsCut}
use irc_idler.Proxy.Welcome.{IsBack, IsUnanswered, client_returns}

abbrev calm : Env
calm = record { store = ephemeral; writes = λ done id m. true; order = λ done names. names }

abbrev finished : Session
finished = record new_session {
  handshake = record { have_nick = true; have_user = true; have_motd = true };
}

-- The client's session `s`, and a server whose handshake is done.
abbrev resting : Session → World calm.store.State
resting s = record {
  client = record empty_connection { rwc = some 1; chan = some 1; session = s };
  server = record empty_connection { rwc = some 2; chan = some 2; session = finished };
  logs = new_store;
  pre_log = new_session;
  have_msg_cache = true;
  yourhost = [];
  created = [];
  myinfo = [];
  server_prefix = [];
  out = [];
}

resting-IsWired : (s : Session) → IsWired (resting s)
unfolding done
resting-IsWired s = record {
  client_paired = refl;
  server_paired = refl;
  client_served = λ e. cc e;
  server_wanted = λ d. cc;
}

abbrev chan : Bytes
chan = b'#' ∷ b'c' ∷ []

abbrev hi : Message
hi = addressed [] cmd_privmsg chan (b'h' ∷ []) []

hi-valid : validate hi ≡ none
unfolding validate min_params one_of bytes bytes_eq
hi-valid = refl

handle_server_event-spoken_example :
    (w' : World calm.store.State) × (handle_server_event calm (some hi) (resting finished)
      ≡ some (tt, w'))
    × (((is_for_client calm chan (resting finished) ≡ true)
          × IsWritten calm ephemeral_laws hi (resting finished) w')
        ⊎ (IsLogged calm ephemeral_laws hi chan (resting finished) w'
            × IsMissed calm hi chan (resting finished) w'))
handle_server_event-spoken_example =
    handle_server_event-spoken [] chan (b'h' ∷ []) [] calm ephemeral_laws (resting finished)
      cmd_privmsg (inl refl) (ephemeral_stores.1 hi) (ephemeral_stores.0 new_store) hi-valid

-- A log that holds one message.
abbrev with_log : World calm.store.State
with_log = record (resting finished) { logs = (log_message chan hi (clear chan new_store).1).1 }

logged_one : ephemeral_laws.contents with_log.logs chan ≡ hi ∷ []
logged_one = ground (
  arith,
  ephemeral_laws.log_message-contents chan chan hi (clear chan new_store).1 (ephemeral_stores.1 hi),
  ephemeral_laws.clear-contents chan chan new_store,
  ephemeral-IsReliable.clear_works chan new_store,
  ephemeral-IsReliable.log_message_works chan hi (clear chan new_store).1,
  bytes_eq_refl chan,
)

hi-IsIndexable : IsIndexable hi
unfolding one_of bytes bytes_eq
hi-IsIndexable = record { first = λ e. cc e; topic = λ e. cc e; names = λ e. cc e }

replay_log_lem_example :
    (w' : World calm.store.State) × (replay_log calm chan with_log ≡ some (tt, w'))
    × (IsReplayed calm ephemeral_laws 1 chan
          (ephemeral_laws.contents with_log.logs chan)
          with_log
          w'
        ⊎ IsKept calm ephemeral_laws 1 (ephemeral_laws.contents with_log.logs chan) with_log w')
replay_log_lem_example =
    replay_log_lem calm ephemeral_laws 1 chan with_log (ephemeral_stores.0 with_log.logs)
      (refl, refl) (subst (All IsIndexable) (sym logged_one) (hi-IsIndexable, tt))

silent_client_example :
    (5 ≤ (resting finished).client.ping_deadline
      → client_timeout calm 5 (resting finished) ≡ some (tt, resting finished))
    × ((resting finished).client.ping_deadline < 5
        → (w' : World calm.store.State) × (client_timeout calm 5 (resting finished) ≡ some (tt, w'))
          × ((IsPinged calm 1 5 (resting finished) w' × IsDoomed calm 1 5 w')
              ⊎ IsCut calm 1 (ping ∷ []) (resting finished) w'))
silent_client_example = silent_client calm 5 1 (resting finished) (refl, refl) refl

abbrev bye : Message
bye = record { prefix = []; command = cmd_quit; params = [] }

bye-valid : validate bye ≡ none
unfolding validate min_params one_of bytes bytes_eq
bye-valid = refl

client_leaves_example :
    (w' : World calm.store.State) × (handle_event calm (from_client (some bye) 3) (resting finished)
      ≡ some (tt, w'))
    × HasLeft (resting finished) w'
unfolding done
client_leaves_example =
    client_leaves calm (resting finished) (some bye) 3 (resting-IsWired finished)
      (quits bye refl bye-valid refl)

accept_idle_example :
    (w' : World calm.store.State) × (handle_event calm (client_conn 7 3 none 4) (resting finished)
      ≡ some (tt, w'))
    × IsWelcomed 7 (resting finished) w'
    × (w'.server ≡ (resting finished).server)
    × ((old : ℕ)
        → (resting finished).client.rwc ≡ some old
        → w'.out ≡ (resting finished).out ++ closed old ∷ [])
unfolding done
accept_idle_example =
    accept_idle calm 7 3 2 none 4 (resting finished) (resting-IsWired finished) refl refl

abbrev alone : World calm.store.State
alone = record (resting new_session) { client = empty_connection; server = empty_connection }

alone-IsWired : IsWired alone
alone-IsWired = record {
  client_paired = refl;
  server_paired = refl;
  client_served = λ e. refl;
  server_wanted = λ d e. refl;
}

abbrev dialled : Option ℕ
dialled = some 8

accept_dials_example :
    (w' : World calm.store.State) × (handle_event calm (client_conn 7 3 dialled 4) alone
      ≡ some (tt, w'))
    × (w'.server.rwc ≡ dialled)
    × (((k : ℕ) × (dialled ≡ some k)
          × IsWelcomed 7 alone w'
          × (w'.server.session ≡ new_session)
          × (w'.out ≡ alone.out))
        ⊎ ((dialled ≡ none)
            × (w'.client.rwc ≡ none)
            × (w'.logs ≡ alone.logs)
            × (w'.out ≡ alone.out ++ closed 7 ∷ [])))
accept_dials_example = accept_dials calm 7 3 dialled 4 alone alone-IsWired refl

-- A client that has sent NICK and now sends USER.
abbrev half_done : Session
half_done = record new_session {
  handshake = record { have_nick = true; have_user = false; have_motd = false };
}

abbrev user_msg : Message
user_msg = record {
  prefix = [];
  command = cmd_user;
  params = (b'u' ∷ []) ∷ (b'0' ∷ []) ∷ (b'*' ∷ []) ∷ (b'r' ∷ []) ∷ [];
}

user_msg-valid : validate user_msg ≡ none
unfolding validate min_params one_of bytes bytes_eq
user_msg-valid = refl

client_returns_example :
    (w' : World calm.store.State) × (handle_event calm
        (from_client (some user_msg) 3)
        (resting half_done)
      ≡ some (tt, w'))
    × (IsBack calm 1 2 (resting half_done) w'
        ⊎ (IsCut calm 1 (welcome_back (resting half_done)) (resting half_done) w'
            ⊎ IsUnanswered calm 1 2 (resting half_done) w'))
unfolding done wants_welcome Handshake.update_from_client one_of bytes bytes_eq
client_returns_example =
    client_returns calm 1 2 3 user_msg (resting half_done) (refl, refl) refl user_msg-valid refl
      refl refl refl

server_lost_example :
    (w' : World calm.store.State) × (handle_event calm (from_server none 3) (resting finished)
      ≡ some (tt, w'))
    × HasEnded (resting finished) w'
server_lost_example =
    server_lost calm (resting finished) (from_server none 3) (resting-IsWired finished)
      (inr (3, refl))
