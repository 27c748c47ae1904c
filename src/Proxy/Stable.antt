-- ===== src/Proxy/Stable.antt =====
-- What a property of the world has to stand for the handlers to keep it: the steps that they are
-- made of. The handlers' modules show that these are all.
use irc_idler.Prelude.{ℕ, Bytes, bytes, List, [], ◌∷◌, All, true, Option, none, some, ◌≡◌}
use irc_idler.Irc.Message.{Message}
use irc_idler.Irc.Validate.{validate}
use irc_idler.Irc.ClientId.{ClientId}
use irc_idler.Irc.Codes.{
  rpl_topic, rpl_namereply, rpl_endofnames, cmd_join, cmd_motd, cmd_ping, cmd_pong,
}
use irc_idler.State.Session.{Session, update_from_client}
use irc_idler.Proxy.World.{Env, World, modify}
use irc_idler.Proxy.World.Keeps.{Keeps}
use irc_idler.Proxy.Link.{send_client, send_server, drop_client, reset, update_deadlines}
use irc_idler.Proxy.Log.{replay_log, log_msg}
use irc_idler.Proxy.Client.{message, welcome_back, set_client_session, touch_pre_log}
use irc_idler.Proxy.Server.{set_server_session, track_server}
use irc_idler.Proxy.Run.{set_client, set_server, mark_pinged, accept_client}

abbrev pub IfSome : (ℕ → Type 0) → Option ℕ → Type 0
IfSome P none = Unit
IfSome P (some k) = P k

-- The messages that the property stands: the client may be told them, the server asked them, and
-- the logs keep them. What the daemon says by itself is among them. New connections are fresh.
pub record Talk : Type 1 where
  pub Told : Message → Type 0
  pub Asked : Message → Type 0
  pub Kept : Message → Type 0
  pub Fresh : ℕ → Type 0
  pub complaint : (m : Message) {c : Message} → validate m ≡ some c → Told c
  pub welcomes : {L : Type 0} (w : World L) → All Told (welcome_back w)
  pub join : (prefix name : Bytes) → Told (message prefix cmd_join (name ∷ []))
  pub topic :
      (prefix me name text : Bytes) → Told (message prefix rpl_topic (me ∷ name ∷ text ∷ []))
  pub names :
      (prefix me name nick : Bytes)
      → Told (message prefix rpl_namereply (me ∷ bytes "=" ∷ name ∷ nick ∷ []))
  pub endofnames : (prefix : Bytes) (ps : List Bytes) → Told (message prefix rpl_endofnames ps)
  pub pong : (ps : List Bytes) → Told (message [] cmd_pong ps)
  pub ping : (ps : List Bytes) → Told (message [] cmd_ping ps)
  pub ask_motd : Asked (message [] cmd_motd [])
  pub ask_pong : (ps : List Bytes) → Asked (message [] cmd_pong ps)
  pub ask_ping : (ps : List Bytes) → Asked (message [] cmd_ping ps)

unfoldable pub any_talk : Talk
unfolding welcome_back
any_talk = record {
  Told = λ m. Unit;
  Asked = λ m. Unit;
  Kept = λ m. Unit;
  Fresh = λ k. Unit;
  complaint = λ m e. tt;
  welcomes = λ w. (tt, (tt, (tt, (tt, tt))));
  join = λ prefix name. tt;
  topic = λ prefix me name text. tt;
  names = λ prefix me name nick. tt;
  endofnames = λ prefix ps. tt;
  pong = λ ps. tt;
  ping = λ ps. tt;
  ask_motd = tt;
  ask_pong = λ ps. tt;
  ask_ping = λ ps. tt;
}

pub record IsStable {ℓ} (env : Env) (talk : Talk) (P : World env.store.State → Type ℓ)
    : Type ℓ where
  pub sends_client : (m : Message) → talk.Told m → Keeps P (send_client env m)
  pub sends_server : (m : Message) → talk.Asked m → Keeps P (send_server env m)
  pub drops_client : Keeps P (drop_client {L = env.store.State})
  pub resets : Keeps P (reset {L = env.store.State})
  pub tracks : (m : Message) → talk.Told m → Keeps P (track_server {L = env.store.State} m)
  pub replays : (name : Bytes) → Keeps P (replay_log env name)
  pub logs : (m : Message) → talk.Kept m → Keeps P (log_msg env m)
  pub client_speaks :
      (m : Message)
      → talk.Asked m
      → Keeps P (modify {L = env.store.State} (set_client_session (update_from_client m)))
  pub client_session :
      (f : Session → Session)
      → ((s : Session) → (f s).handshake ≡ s.handshake)
      → (w : World env.store.State) → P w
      → P (set_client_session f w)
  pub server_id :
      (id : ClientId) (w : World env.store.State)
      → P w
      → P (set_server_session (λ s. record s { client_id = id }) w)
  pub touches : (name : Bytes) (w : World env.store.State) → P w → P (touch_pre_log name w)
  pub prefix : (p : Bytes) (w : World env.store.State) → P w → P (record w { server_prefix = p })
  pub yourhost : (t : Bytes) (w : World env.store.State) → P w → P (record w { yourhost = t })
  pub created : (t : Bytes) (w : World env.store.State) → P w → P (record w { created = t })
  pub myinfo : (ps : List Bytes) (w : World env.store.State) → P w → P (record w { myinfo = ps })
  pub cached : (w : World env.store.State) → P w → P (record w { have_msg_cache = true })
  pub client_timer :
      (now : ℕ) (w : World env.store.State) → P w → P (set_client (update_deadlines now) w)
  pub server_timer :
      (now : ℕ) (w : World env.store.State) → P w → P (set_server (update_deadlines now) w)
  pub client_pinged :
      (now : ℕ) (w : World env.store.State) → P w → P (set_client (mark_pinged now) w)
  pub server_pinged :
      (now : ℕ) (w : World env.store.State) → P w → P (set_server (mark_pinged now) w)
  pub accepts :
      (id now : ℕ) (dialled : Option ℕ) (later : ℕ)
      → talk.Fresh id
      → IfSome talk.Fresh dialled
      → Keeps P (accept_client env id now dialled later)
