-- ===== src/Proxy/Agreement.antt =====
-- Client and server agree on the state of the handshake, as `handleHandshakeMessage` relies on:
-- what is meant, and the messages that bear on it.
pub mod Steps
pub mod Steady
pub mod Turns
pub mod Reached
mod Tests
use irc_idler.Prelude.{List, [], ◌∷◌, Bytes, one_of, false, none, ◌≡◌, arith}
use irc_idler.Irc.Message.{Message}
use irc_idler.Irc.Codes.{
  err_nonicknamegiven, err_erroneusnickname, err_nicknameinuse, err_nickcollision, rpl_endofmotd,
  err_nomotd, cmd_user, cmd_nick,
}
use irc_idler.State.Handshake.{Handshake, fresh, done, update_from_client, update_from_server}
use irc_idler.Proxy.World.{World}

-- The replies of a server that a handshake reads.
abbrev pub refusals : List Bytes
refusals = err_nonicknamegiven ∷ err_erroneusnickname ∷ err_nicknameinuse ∷ err_nickcollision ∷ []

abbrev pub endings : List Bytes
endings = rpl_endofmotd ∷ err_nomotd ∷ []

-- No handshake reads this message of the server.
abbrev pub IsQuiet : Message → Type 0
IsQuiet m = (one_of m.command refusals ≡ false) × (one_of m.command endings ≡ false)

-- No handshake reads this message of the client.
abbrev pub IsPlain : Message → Type 0
IsPlain m = one_of m.command (cmd_user ∷ cmd_nick ∷ []) ≡ false

pub quiet_stays : (m : Message) (h : Handshake) → IsQuiet m → update_from_server m h ≡ h
unfolding update_from_server
quiet_stays m h q = ground arith

pub plain_stays : (m : Message) (h : Handshake) → IsPlain m → update_from_client m h ≡ h
unfolding update_from_client one_of
plain_stays m h q = ground arith

-- As long as the server's handshake is not done, the client's has come as far. A closed connection
-- has a fresh one; a connection has both its transport and its channel or neither, and there is a
-- client beside a server whose handshake is not done, and none without a server.
pub record IsAgreed {L : Type 0} (w : World L) : Type 0 where
  pub client_paired : w.client.rwc ≡ w.client.chan
  pub server_paired : w.server.rwc ≡ w.server.chan
  pub client_served : w.server.rwc ≡ none → w.client.rwc ≡ none
  pub server_wanted :
      done w.server.session.handshake ≡ false → w.client.rwc ≡ none → w.server.rwc ≡ none
  pub client_fresh : w.client.rwc ≡ none → w.client.session.handshake ≡ fresh
  pub server_fresh : w.server.rwc ≡ none → w.server.session.handshake ≡ fresh
  pub agree :
      done w.server.session.handshake ≡ false
      → w.client.session.handshake ≡ w.server.session.handshake
