-- ===== src/Irc/Codes/Numerics.antt =====
-- irc/numeric_replies.go: all numeric codes with their names.
pub mod Distinct
use irc_idler.Prelude.{List, [], ◌∷◌, ◌++◌, Bytes, bytes, String}

abbrev pub Numeric : Type 0
Numeric = String × Bytes

unfoldable pub replies : List Numeric
replies =
    ("RPL_WELCOME", bytes "001")
    ∷ ("RPL_YOURHOST", bytes "002")
    ∷ ("RPL_CREATED", bytes "003")
    ∷ ("RPL_MYINFO", bytes "004")
    ∷ ("RPL_BOUNCE", bytes "005")
    ∷ ("RPL_YOURID", bytes "042")
    ∷ ("RPL_TRACELINK", bytes "200")
    ∷ ("RPL_TRACECONNECTING", bytes "201")
    ∷ ("RPL_TRACEHANDSHAKE", bytes "202")
    ∷ ("RPL_TRACEOPERATOR", bytes "204")
    ∷ ("RPL_TRACEUSER", bytes "205")
    ∷ ("RPL_TRACESERVER", bytes "206")
    ∷ ("RPL_TRACESERVICE", bytes "207")
    ∷ ("RPL_TRACENEWTYPE", bytes "208")
    ∷ ("RPL_TRACECLASS", bytes "209")
    ∷ ("RPL_TRACECONNECT", bytes "210")
    ∷ ("RPL_STATSLINKINFO", bytes "211")
    ∷ ("RPL_STATSCOMMANDS", bytes "212")
    ∷ ("RPL_STATSCLINE", bytes "213")
    ∷ ("RPL_STATSNLINE", bytes "214")
    ∷ ("RPL_STATSILINE", bytes "215")
    ∷ ("RPL_STATSKLINE", bytes "216")
    ∷ ("RPL_STATSQLINE", bytes "217")
    ∷ ("RPL_STATSYLINE", bytes "218")
    ∷ ("RPL_ENDOFSTATS", bytes "219")
    ∷ ("RPL_UMODEIS", bytes "221")
    ∷ ("RPL_SERVICEINFO", bytes "231")
    ∷ ("RPL_ENDOFSERVICES", bytes "232")
    ∷ ("RPL_SERVICE", bytes "233")
    ∷ ("RPL_SERVLIST", bytes "234")
    ∷ ("RPL_STATSVLINE", bytes "240")
    ∷ ("RPL_STATSLLINE", bytes "241")
    ∷ ("RPL_STATSUPTIME", bytes "242")
    ∷ ("RPL_STATSOLINE", bytes "243")
    ∷ ("RPL_STATSHLINE", bytes "244")
    ∷ ("RPL_STATSSLINE", bytes "244")
    ∷ ("RPL_STATSPING", bytes "246")
    ∷ ("RPL_STATSBLINE", bytes "247")
    ∷ ("RPL_STATSDLINE", bytes "250")
    ∷ ("RPL_LUSERCLIENT", bytes "251")
    ∷ ("RPL_LUSEROP", bytes "252")
    ∷ ("RPL_LUSERUNKNOWN", bytes "253")
    ∷ ("RPL_LUSERCHANNELS", bytes "254")
    ∷ ("RPL_LUSERME", bytes "255")
    ∷ ("RPL_ADMINME", bytes "256")
    ∷ ("RPL_ADMINLOC1", bytes "257")
    ∷ ("RPL_ADMINLOC2", bytes "258")
    ∷ ("RPL_ADMINLOCEMAIL", bytes "259")
    ∷ ("RPL_TRACELOG", bytes "261")
    ∷ ("RPL_TRACEEND", bytes "262")
    ∷ ("RPL_TRYAGAIN", bytes "263")
    ∷ ("RPL_NONE", bytes "300")
    ∷ ("RPL_AWAY", bytes "301")
    ∷ ("RPL_USERHOST", bytes "302")
    ∷ ("RPL_ISON", bytes "303")
    ∷ ("RPL_UNAWAY", bytes "305")
    ∷ ("RPL_NOWAWAY", bytes "306")
    ∷ ("RPL_WHOISUSER", bytes "311")
    ∷ ("RPL_WHOISSERVER", bytes "312")
    ∷ ("RPL_WHOISOPERATOR", bytes "313")
    ∷ ("RPL_WHOWASUSER", bytes "314")
    ∷ ("RPL_ENDOFWHO", bytes "315")
    ∷ ("RPL_WHOISCHANOP", bytes "316")
    ∷ ("RPL_WHOISIDLE", bytes "317")
    ∷ ("RPL_ENDOFWHOIS", bytes "318")
    ∷ ("RPL_WHOISCHANNELS", bytes "319")
    ∷ ("RPL_LISTSTART", bytes "321")
    ∷ ("RPL_LIST", bytes "322")
    ∷ ("RPL_LISTEND", bytes "323")
    ∷ ("RPL_CHANNELMODEIS", bytes "324")
    ∷ ("RPL_UNIQOPIS", bytes "325")
    ∷ ("RPL_NOTOPIC", bytes "331")
    ∷ ("RPL_TOPIC", bytes "332")
    ∷ ("RPL_TOPICWHOTIME", bytes "333")
    ∷ ("RPL_INVITING", bytes "341")
    ∷ ("RPL_SUMMONING", bytes "342")
    ∷ ("RPL_INVITELIST", bytes "346")
    ∷ ("RPL_ENDOFINVITELIST", bytes "347")
    ∷ ("RPL_EXCEPTLIST", bytes "348")
    ∷ ("RPL_ENDOFEXCEPTLIST", bytes "349")
    ∷ ("RPL_VERSION", bytes "351")
    ∷ ("RPL_WHOREPLY", bytes "352")
    ∷ ("RPL_NAMEREPLY", bytes "353")
    ∷ ("RPL_KILLDONE", bytes "361")
    ∷ ("RPL_CLOSING", bytes "362")
    ∷ ("RPL_CLOSEEND", bytes "363")
    ∷ ("RPL_LINKS", bytes "364")
    ∷ ("RPL_ENDOFLINKS", bytes "365")
    ∷ ("RPL_ENDOFNAMES", bytes "366")
    ∷ ("RPL_BANLIST", bytes "367")
    ∷ ("RPL_ENDOFBANLIST", bytes "368")
    ∷ ("RPL_ENDOFWHOWAS", bytes "369")
    ∷ ("RPL_INFO", bytes "371")
    ∷ ("RPL_MOTD", bytes "372")
    ∷ ("RPL_INFOSTART", bytes "373")
    ∷ ("RPL_ENDOFINFO", bytes "374")
    ∷ ("RPL_MOTDSTART", bytes "375")
    ∷ ("RPL_ENDOFMOTD", bytes "376")
    ∷ ("RPL_YOUREOPER", bytes "381")
    ∷ ("RPL_REHASHING", bytes "382")
    ∷ ("RPL_YOURESERVICE", bytes "383")
    ∷ ("RPL_MYPORTIS", bytes "384")
    ∷ ("RPL_TIME", bytes "391")
    ∷ ("RPL_USERSSTART", bytes "392")
    ∷ ("RPL_USERS", bytes "393")
    ∷ ("RPL_ENDOFUSERS", bytes "394")
    ∷ ("RPL_NOUSERS", bytes "395")
    ∷ []

unfoldable pub errors : List Numeric
errors =
    ("ERR_NOSUCHNICK", bytes "401")
    ∷ ("ERR_NOSUCHSERVER", bytes "402")
    ∷ ("ERR_NOSUCHCHANNEL", bytes "403")
    ∷ ("ERR_CANNOTSENDTOCHAN", bytes "404")
    ∷ ("ERR_TOOMANYCHANNELS", bytes "405")
    ∷ ("ERR_WASNOSUCHNICK", bytes "406")
    ∷ ("ERR_TOOMANYTARGETS", bytes "407")
    ∷ ("ERR_NOSUCHSERVICE", bytes "408")
    ∷ ("ERR_NOORIGIN", bytes "409")
    ∷ ("ERR_NORECIPIENT", bytes "411")
    ∷ ("ERR_NOTEXTTOSEND", bytes "412")
    ∷ ("ERR_NOTOPLEVEL", bytes "412")
    ∷ ("ERR_WILDTOPLEVEL", bytes "414")
    ∷ ("ERR_BADMASK", bytes "415")
    ∷ ("ERR_UNKNOWNCOMMAND", bytes "421")
    ∷ ("ERR_NOMOTD", bytes "422")
    ∷ ("ERR_NOADMININFO", bytes "423")
    ∷ ("ERR_FILEERROR", bytes "424")
    ∷ ("ERR_NONICKNAMEGIVEN", bytes "431")
    ∷ ("ERR_ERRONEUSNICKNAME", bytes "432")
    ∷ ("ERR_NICKNAMEINUSE", bytes "433")
    ∷ ("ERR_NICKCOLLISION", bytes "436")
    ∷ ("ERR_UNAVAILABLERESOURCE", bytes "437")
    ∷ ("ERR_USERNOTINCHANNEL", bytes "441")
    ∷ ("ERR_NOTONCHANNEL", bytes "442")
    ∷ ("ERR_USERONCHANNEL", bytes "443")
    ∷ ("ERR_NOLOGIN", bytes "444")
    ∷ ("ERR_SUMMONISDISABLED", bytes "445")
    ∷ ("ERR_USERISDISABLED", bytes "446")
    ∷ ("ERR_NOTREGISTERED", bytes "451")
    ∷ ("ERR_NEEDMOREPARAMS", bytes "461")
    ∷ ("ERR_ALREADYREGISTERED", bytes "462")
    ∷ ("ERR_NOPERMFORHOST", bytes "463")
    ∷ ("ERR_PASSDWMISMATCH", bytes "464")
    ∷ ("ERR_YOUREBANNEDCREEP", bytes "465")
    ∷ ("ERR_YOUWILLBEBANNED", bytes "466")
    ∷ ("ERR_KEYSET", bytes "467")
    ∷ ("ERR_CHANNELISFULL", bytes "471")
    ∷ ("ERR_UNKNOWNMODE", bytes "472")
    ∷ ("ERR_INVITEONLYCHAN", bytes "473")
    ∷ ("ERR_BANNEDFROMCHAN", bytes "474")
    ∷ ("ERR_BADCHANNELKEY", bytes "475")
    ∷ ("ERR_BADCHANMASK", bytes "476")
    ∷ ("ERR_NOCHANMODES", bytes "477")
    ∷ ("ERR_BANLISTISFULL", bytes "478")
    ∷ ("ERR_NOPRIVILEGES", bytes "481")
    ∷ ("ERR_CHANOPRIVSNEEDED", bytes "482")
    ∷ ("ERR_CANTKILLSERVER", bytes "483")
    ∷ ("ERR_RESTRICTED", bytes "484")
    ∷ ("ERR_UNIQOPPRIVSNEEDED", bytes "485")
    ∷ ("ERR_NOOPERHOST", bytes "491")
    ∷ ("ERR_NOSERVICEHOST", bytes "492")
    ∷ ("ERR_UMODEUNKNOWNFLAG", bytes "501")
    ∷ ("ERR_USERSDONTMATCH", bytes "502")
    ∷ []

unfoldable pub numerics : List Numeric
unfolding replies errors
numerics = replies ++ errors
