-- ===== src/State/Tests.antt =====
-- Concrete sessions and messages, and the theorems at them.
use irc_idler.Prelude.{[], ◌∷◌, none, some, not, ◌≡◌, refl, inl}
use irc_idler.Irc.Message.{Message}
use irc_idler.Irc.Validate.{validate}
use irc_idler.Irc.Codes.{cmd_part}
use irc_idler.State.Session.{Session, new_session, update_from_server, have_channel, is_me}
use irc_idler.State.Session.Valid.{bare, bare_part_panics}
use irc_idler.State.Session.Kick.{kick, have_channel-kick}

bare_part_panics_example :
    (validate (bare [] cmd_part) ≡ none)
    × (update_from_server (bare [] cmd_part) new_session ≡ none)
bare_part_panics_example = bare_part_panics [] cmd_part new_session (inl refl)

-- An operator kicks this session's user.
abbrev op_kicks : Message
op_kicks = kick (b'o' ∷ []) (b'#' ∷ b'c' ∷ []) (b'n' ∷ []) []

have_channel-kick_example :
    (s' : Session) × (update_from_server op_kicks new_session ≡ some s')
    × (have_channel (b'#' ∷ b'c' ∷ []) s'.channels ≡ not (is_me (b'o' ∷ []) new_session))
have_channel-kick_example =
    have_channel-kick (b'o' ∷ []) (b'#' ∷ b'c' ∷ []) (b'n' ∷ []) [] new_session
