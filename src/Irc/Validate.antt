-- ===== src/Irc/Validate.antt =====
-- irc/validate.go.
use irc_idler.Prelude.{
  ℕ, [], ◌∷◌, Bytes, bytes, bytes_eq, one_of, Option, none, some, if◌then◌else◌, ltb, length,
}
use irc_idler.Irc.Codes.{
  rpl_welcome, rpl_yourhost, rpl_created, rpl_myinfo, rpl_topic, rpl_namereply, rpl_endofnames,
  err_unknowncommand, err_needmoreparams, cmd_pass, cmd_privmsg, cmd_notice, cmd_join, cmd_nick,
  cmd_user,
}
use irc_idler.Irc.Message.{Message}

-- The table `minParams`; a command that is not in it reads as 0.
unfoldable pub min_params : Bytes → ℕ
min_params c =
    if one_of c (cmd_pass ∷ cmd_join ∷ cmd_nick ∷ [])
    then 1
    else if one_of c (cmd_privmsg ∷ cmd_notice ∷ rpl_welcome ∷ rpl_yourhost ∷ rpl_created ∷ [])
    then 2
    else if one_of c (rpl_topic ∷ rpl_endofnames ∷ [])
    then 3
    else if one_of c (cmd_user ∷ rpl_namereply ∷ [])
    then 4
    else if bytes_eq c rpl_myinfo
    then 5
    else 0

complaint : Bytes → Bytes → Message
complaint code text = record { prefix = []; command = code; params = text ∷ [] }

-- `none` for a valid message, or the error reply.
unfoldable pub validate : Message → Option Message
unfolding complaint
validate m =
    if bytes_eq m.command []
    then some (complaint err_unknowncommand (bytes "Unknown command: \"\""))
    else if ltb 15 (length m.params)
    then some (complaint err_unknowncommand (bytes "Too many parameters (max 15)"))
    else if ltb (length m.params) (min_params m.command)
    then some (complaint err_needmoreparams (bytes "Not enough parameters"))
    else none
