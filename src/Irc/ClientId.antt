-- ===== src/Irc/ClientId.antt =====
-- irc/clientid.go.
pub mod Split
pub mod RoundTrip
pub mod Canonical
use irc_idler.Prelude.{
  ℕ, List, [], ◌∷◌, ◌++◌, Bytes, bytes_eq, ◌==◌, ◌||◌, ◌&&◌, not, Option, none, some, if◌then◌else◌,
  Bool, true, false,
}

pub record ClientId : Type 0 where
  pub flag : Bytes
  pub nick : Bytes
  pub user : Bytes
  pub host : Bytes

abbrev pub no_client : ClientId
no_client = record { flag = []; nick = []; user = []; host = [] }

abbrev at_sign : ℕ
at_sign = b'@'

abbrev plus_sign : ℕ
plus_sign = b'+'

abbrev bang : ℕ
bang = b'!'

-- `ClientID.String`.
unfoldable pub to_string : ClientId → Bytes
to_string id =
    let ret = id.flag ++ id.nick in
    if bytes_eq id.host []
    then ret
    else (if bytes_eq id.user [] then ret else ret ++ bang ∷ id.user) ++ at_sign ∷ id.host

-- `strings.Split` by a one-byte separator: there is always a first part.
prepend : ℕ → List Bytes → List Bytes
prepend c [] = (c ∷ []) ∷ []
prepend c (p ∷ ps) = (c ∷ p) ∷ ps

unfoldable pub split : ℕ → Bytes → List Bytes
unfolding prepend
split sep [] = [] ∷ []
split sep (c ∷ s) = let parts = split sep s in if c == sep then [] ∷ parts else prepend c parts

-- The error values of `clientIDParseError`.
pub data ParseError : Type 0 where
  many_bangs many_ats no_nick user_without_host : ParseError

pub data Parsed : Type 0 where
  ok : ClientId → Parsed
  err : ParseError → Parsed

-- The inner switch, on the parts of what stands before the '@'.
split_user : Bytes → List Bytes → Bytes → Parsed
split_user before (nick ∷ []) host =
    ok (record { flag = []; nick = before; user = []; host = host })
split_user before (nick ∷ user ∷ []) host =
    ok (record { flag = []; nick = nick; user = user; host = host })
split_user before _ host = err many_bangs

split_host : Bytes → List Bytes → Parsed
unfolding split_user
split_host text (one ∷ []) = ok (record { flag = []; nick = text; user = []; host = [] })
split_host text (before ∷ host ∷ []) = split_user before (split bang before) host
split_host text _ = err many_ats

-- The tests on the parts, and the flag.
finish : Bytes → Parsed → Parsed
finish flag (err e) = err e
finish flag (ok id) =
    if bytes_eq id.nick []
    then err no_nick
    else if not (bytes_eq id.user []) && bytes_eq id.host []
    then err user_without_host
    else ok (record id { flag = flag })

parse_flagged : Bytes → Bytes → Parsed
unfolding split_host finish split
parse_flagged flag text = finish flag (split_host text (split at_sign text))

-- `ParseClientID`.
unfoldable pub parse_client_id : Bytes → Parsed
unfolding parse_flagged
parse_client_id [] = parse_flagged [] []
parse_client_id (c ∷ s) =
    if c == at_sign || c == plus_sign then parse_flagged (c ∷ []) s else parse_flagged [] (c ∷ s)
