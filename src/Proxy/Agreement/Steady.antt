-- ===== src/Proxy/Agreement/Steady.antt =====
-- The handlers keep the agreement at messages that no handshake reads.
use irc_idler.Prelude.{
  ◌∷◌, [], Bytes, bytes, bytes_eq, bytes_eq_refl, one_of, one_of-All, true, false, some, ◌≡◌, refl,
  arith,
}
use irc_idler.Irc.Message.{Message}
use irc_idler.Irc.Validate.{validate}
use irc_idler.State.Session.{update_from_client}
use irc_idler.Irc.Codes.{
  err_unknowncommand, err_needmoreparams, cmd_privmsg, cmd_notice, cmd_join, cmd_kick, cmd_part,
  cmd_nick,
}
use irc_idler.Storage.Laws.{StoreLaws}
use irc_idler.Storage.Holds.{Holds}
use irc_idler.Proxy.World.{Env, World}
use irc_idler.Proxy.World.Keeps.{Keeps, Keeps-and, Keeps-modify}
use irc_idler.Proxy.World.SameLogs.{
  send_client-OfLogs, send_server-OfLogs, drop_client-OfLogs, reset-OfLogs, track_server-OfLogs,
  accept_client-OfLogs,
}
use irc_idler.Proxy.Link.{send_client, update_deadlines}
use irc_idler.Proxy.Log.{is_logged}
use irc_idler.Proxy.Client.{welcome_back, set_client_session, touch_pre_log}
use irc_idler.Proxy.Server.{set_server_session}
use irc_idler.Proxy.Run.{set_client, set_server, mark_pinged}
use irc_idler.Proxy.Stable.{Talk, IsStable}
use irc_idler.Proxy.Handlers.Kinds
use irc_idler.Proxy.Agreement.{IsQuiet, IsPlain, IsAgreed, plain_stays, refusals, endings}
use irc_idler.Proxy.Agreement.Steps.{
  send_client-IsAgreed, send_server-IsAgreed, drop_client-IsAgreed, reset-IsAgreed,
  track_server-IsAgreed, accepts-IsAgreed, set_client_session-IsAgreed,
}

abbrev Unread : Bytes → Type 0
Unread c = (one_of c refusals ≡ false) × (one_of c endings ≡ false)

pub logged-IsQuiet : (env : Env) (m : Message) → is_logged env m.command ≡ true → IsQuiet m
unfolding is_logged one_of bytes bytes_eq
logged-IsQuiet env m e =
    one_of-All Unread m.command
      (cmd_privmsg ∷ cmd_notice ∷ cmd_join ∷ cmd_kick ∷ cmd_part ∷ cmd_nick ∷ [])
      (
        (refl, refl),
        ((refl, refl), ((refl, refl), ((refl, refl), ((refl, refl), ((refl, refl), tt))))),
      )
      e

complaint_code :
    (m : Message) {c : Message}
    → validate m ≡ some c
    → one_of c.command (err_unknowncommand ∷ err_needmoreparams ∷ []) ≡ true
unfolding validate one_of
complaint_code m e =
    ground (arith, bytes_eq_refl err_unknowncommand, bytes_eq_refl err_needmoreparams)

pub complaint-IsQuiet : (m : Message) {c : Message} → validate m ≡ some c → IsQuiet c
unfolding one_of bytes bytes_eq
complaint-IsQuiet m {c} e =
    one_of-All Unread c.command (err_unknowncommand ∷ err_needmoreparams ∷ [])
      ((refl, refl), ((refl, refl), tt)) (complaint_code m e)

module _ (env : Env) (laws : StoreLaws env.store) where
  open env.store use {State}

  -- Messages that no handshake reads, and of the server's those that the store can store.
  unfoldable pub steady : Talk
  unfolding one_of bytes bytes_eq welcome_back
  steady = record {
    Told = IsQuiet;
    Asked = IsPlain;
    Kept = laws.Storable;
    Fresh = λ k. Unit;
    complaint = complaint-IsQuiet;
    welcomes = λ w. ((refl, refl), ((refl, refl), ((refl, refl), ((refl, refl), tt))));
    join = λ prefix name. (refl, refl);
    topic = λ prefix me name text. (refl, refl);
    names = λ prefix me name nick. (refl, refl);
    endofnames = λ prefix ps. (refl, refl);
    pong = λ ps. (refl, refl);
    ping = λ ps. (refl, refl);
    ask_motd = refl;
    ask_pong = λ ps. refl;
    ask_ping = λ ps. refl;
  }

  -- The agreement, with logs that have no message which a handshake reads.
  abbrev pub InStep : World State → Type 0
  InStep w = IsAgreed w × Holds laws IsQuiet w.logs

  abbrev Quiet : State → Type 0
  Quiet = Holds laws IsQuiet

  client_sends : (m : Message) → IsQuiet m → Keeps InStep (send_client env m)
  client_sends m q = Keeps-and _ _ _ (send_client-IsAgreed env m q) (send_client-OfLogs env Quiet m)

  stores :
      (s : State) (w : World State)
      → Holds laws IsQuiet s
      → InStep w
      → InStep (record w { logs = s })
  stores s w hs (a, h) = (ground arith, hs)

  pub InStep-IsStable : IsStable env steady InStep
  unfolding steady
  InStep-IsStable = record {
    sends_client = client_sends;
    sends_server =
        λ m q. Keeps-and _ _ _ (send_server-IsAgreed env m q) (send_server-OfLogs env Quiet m);
    drops_client = Keeps-and _ _ _ (drop_client-IsAgreed env) (drop_client-OfLogs env Quiet);
    resets = Keeps-and _ _ _ (reset-IsAgreed env) (reset-OfLogs env Quiet);
    tracks =
        λ m q. Keeps-and _ _ _ (track_server-IsAgreed env m q) (track_server-OfLogs env Quiet m);
    replays = Kinds.replay_log-Keeps env laws IsQuiet client_sends (λ w h. h.1) stores;
    logs = λ m fits.
        Kinds.log_msg-Keeps env laws IsQuiet client_sends (λ w h. h.1) stores m fits
          (logged-IsQuiet env m);
    client_speaks = λ m q. Keeps-modify _ (λ w h. (
      set_client_session-IsAgreed env (update_from_client m) w
          (unfold update_from_client in plain_stays m w.client.session.handshake q) h.0,
      unfold set_client_session in h.1,
    ));
    client_session = λ f e w h. (
      set_client_session-IsAgreed env f w (e w.client.session) h.0,
      unfold set_client_session in h.1,
    );
    server_id = λ id w h. unfold set_server_session in (let (a, b) = h in (ground arith, b));
    touches = λ name w h. unfold touch_pre_log in (let (a, b) = h in (ground arith, b));
    prefix = λ p w h. let (a, b) = h in (ground arith, b);
    yourhost = λ t w h. let (a, b) = h in (ground arith, b);
    created = λ t w h. let (a, b) = h in (ground arith, b);
    myinfo = λ ps w h. let (a, b) = h in (ground arith, b);
    cached = λ w h. let (a, b) = h in (ground arith, b);
    client_timer =
        λ now w h. unfold set_client update_deadlines in (let (a, b) = h in (ground arith, b));
    server_timer =
        λ now w h. unfold set_server update_deadlines in (let (a, b) = h in (ground arith, b));
    client_pinged =
        λ now w h. unfold set_client mark_pinged in (let (a, b) = h in (ground arith, b));
    server_pinged =
        λ now w h. unfold set_server mark_pinged in (let (a, b) = h in (ground arith, b));
    accepts = λ id now dialled later new others.
        Keeps-and _ _ _ (accepts-IsAgreed env id now dialled later)
          (accept_client-OfLogs env Quiet id now dialled later);
  }
