-- ===== src/Irc/Codes.antt =====
-- irc/numeric_replies.go: the numeric codes that the program uses, and its command names.
pub mod Numerics
use irc_idler.Prelude.{Bytes, bytes}

abbrev pub rpl_welcome : Bytes
rpl_welcome = bytes "001"

abbrev pub rpl_yourhost : Bytes
rpl_yourhost = bytes "002"

abbrev pub rpl_created : Bytes
rpl_created = bytes "003"

abbrev pub rpl_myinfo : Bytes
rpl_myinfo = bytes "004"

abbrev pub rpl_topic : Bytes
rpl_topic = bytes "332"

abbrev pub rpl_namereply : Bytes
rpl_namereply = bytes "353"

abbrev pub rpl_endofnames : Bytes
rpl_endofnames = bytes "366"

abbrev pub rpl_motd : Bytes
rpl_motd = bytes "372"

abbrev pub rpl_motdstart : Bytes
rpl_motdstart = bytes "375"

abbrev pub rpl_endofmotd : Bytes
rpl_endofmotd = bytes "376"

abbrev pub err_unknowncommand : Bytes
err_unknowncommand = bytes "421"

abbrev pub err_nomotd : Bytes
err_nomotd = bytes "422"

abbrev pub err_nonicknamegiven : Bytes
err_nonicknamegiven = bytes "431"

abbrev pub err_erroneusnickname : Bytes
err_erroneusnickname = bytes "432"

abbrev pub err_nicknameinuse : Bytes
err_nicknameinuse = bytes "433"

abbrev pub err_nickcollision : Bytes
err_nickcollision = bytes "436"

abbrev pub err_needmoreparams : Bytes
err_needmoreparams = bytes "461"

abbrev pub cmd_pass : Bytes
cmd_pass = bytes "PASS"

abbrev pub cmd_nick : Bytes
cmd_nick = bytes "NICK"

abbrev pub cmd_user : Bytes
cmd_user = bytes "USER"

abbrev pub cmd_ping : Bytes
cmd_ping = bytes "PING"

abbrev pub cmd_pong : Bytes
cmd_pong = bytes "PONG"

abbrev pub cmd_quit : Bytes
cmd_quit = bytes "QUIT"

abbrev pub cmd_join : Bytes
cmd_join = bytes "JOIN"

abbrev pub cmd_part : Bytes
cmd_part = bytes "PART"

abbrev pub cmd_kick : Bytes
cmd_kick = bytes "KICK"

abbrev pub cmd_motd : Bytes
cmd_motd = bytes "MOTD"

abbrev pub cmd_privmsg : Bytes
cmd_privmsg = bytes "PRIVMSG"

abbrev pub cmd_notice : Bytes
cmd_notice = bytes "NOTICE"
