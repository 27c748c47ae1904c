-- ===== src/State/Handshake.antt =====
-- proxy/state/handshake.go.
pub mod Progress
use irc_idler.Prelude.{
  List, [], ◌∷◌, Bytes, bytes_eq, one_of, Bool, true, false, not, ◌&&◌, if◌then◌else◌,
}
use irc_idler.Irc.Message.{Message}
use irc_idler.Irc.Codes.{
  err_nonicknamegiven, err_erroneusnickname, err_nicknameinuse, err_nickcollision, rpl_endofmotd,
  err_nomotd, cmd_user, cmd_nick,
}

pub record Handshake : Type 0 where
  pub have_nick : Bool
  pub have_user : Bool
  pub have_motd : Bool

abbrev pub fresh : Handshake
fresh = record { have_nick = false; have_user = false; have_motd = false }

unfoldable pub done : Handshake → Bool
done h = h.have_nick && h.have_user && h.have_motd

unfoldable pub wants_welcome : Handshake → Bool
wants_welcome h = h.have_nick && h.have_user && not h.have_motd

unfoldable pub update_from_client : Message → Handshake → Handshake
unfolding done
update_from_client m h =
    if done h
    then h
    else if bytes_eq m.command cmd_user
    then record h { have_user = true }
    else if bytes_eq m.command cmd_nick
    then record h { have_nick = true }
    else h

unfoldable pub update_from_server : Message → Handshake → Handshake
unfolding done
update_from_server m h =
    if done h
    then h
    else if one_of m.command
        (err_nonicknamegiven ∷ err_erroneusnickname ∷ err_nicknameinuse ∷ err_nickcollision ∷ [])
    then record h { have_nick = false }
    else if one_of m.command (rpl_endofmotd ∷ err_nomotd ∷ [])
    then record h { have_motd = true }
    else h
