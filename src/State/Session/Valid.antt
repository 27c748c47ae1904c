-- ===== src/State/Session/Valid.antt =====
-- What `Validate` promises to the session, and what it does not.
use mathlib.Core.Path.{subst}
use irc_idler.Prelude.{
  ◌≤◌, [], ◌∷◌, Bytes, bytes, bytes_eq, bytes_eq_iff, one_of, true, none, ◌≡◌, refl, arith, length,
  ◌⊎◌, inl, inr, sym,
}
use irc_idler.Irc.Message.{Message}
use irc_idler.Irc.Validate.{validate, min_params}
use irc_idler.Irc.Codes.{rpl_topic, rpl_namereply, cmd_join, cmd_part, cmd_kick, cmd_nick}
use irc_idler.State.Session.{Session, update_channels, update_from_server}
use irc_idler.State.Session.Total.{IsIndexable}

pub valid_length : (m : Message) → validate m ≡ none → min_params m.command ≤ length m.params
unfolding validate
valid_length m h = ground arith

pub min_params_known :
    (min_params rpl_topic ≡ 3)
    × (min_params rpl_namereply ≡ 4)
    × (min_params cmd_join ≡ 1)
    × (min_params cmd_nick ≡ 1)
unfolding min_params one_of bytes bytes_eq
min_params_known = (refl, refl, refl, refl)

-- A valid message can be indexed, if KICK and PART have a parameter, which `Validate` does not ask
-- for.
pub validate-IsIndexable :
    (m : Message)
    → validate m ≡ none
    → (one_of m.command (cmd_kick ∷ cmd_part ∷ []) ≡ true → 1 ≤ length m.params)
    → IsIndexable m
unfolding one_of
validate-IsIndexable m valid asked =
    let (topic, names, join, nick) = min_params_known in
    let long = valid_length m valid in
    record {
      first = ground (
        arith,
        asked,
        long,
        join,
        nick,
        bytes_eq_iff m.command cmd_join,
        bytes_eq_iff m.command cmd_nick,
      );
      topic = ground (arith, long, topic, bytes_eq_iff m.command rpl_topic);
      names = ground (arith, long, names, bytes_eq_iff m.command rpl_namereply);
    }

abbrev pub bare : Bytes → Bytes → Message
bare prefix command = record { prefix = prefix; command = command; params = [] }

-- A PART or KICK with no parameter is valid, and the session's update panics on it.
pub bare_part_panics :
    (prefix command : Bytes) (s : Session)
    → (command ≡ cmd_part) ⊎ (command ≡ cmd_kick)
    → (validate (bare prefix command) ≡ none) × (update_from_server (bare prefix command) s ≡ none)
unfolding validate min_params update_from_server update_channels one_of bytes bytes_eq
bare_part_panics prefix command s (inl e) =
    subst
      (λ (c : Bytes).
        (validate (bare prefix c) ≡ none) × (update_from_server (bare prefix c) s ≡ none))
      (sym e) (refl, refl)
bare_part_panics prefix command s (inr e) =
    subst
      (λ (c : Bytes).
        (validate (bare prefix c) ≡ none) × (update_from_server (bare prefix c) s ≡ none))
      (sym e) (refl, refl)
