-- ===== src/Proxy/NoPanic/Messages.antt =====
-- The messages that the daemon makes, and the parameters that a session reads of them.
use irc_idler.Prelude.{
  List, [], ◌∷◌, Bytes, bytes, bytes_eq, one_of, false, Option, none, some, Bool-cases, inl, inr,
  ◌≡◌, arith, length, All, ltb, refl,
}
use irc_idler.Irc.Message.{Message}
use irc_idler.Irc.Validate.{validate, min_params}
use irc_idler.Irc.Codes.{
  rpl_topic, rpl_namereply, rpl_endofnames, cmd_pong, cmd_ping, cmd_join, cmd_kick, cmd_part,
  cmd_nick, err_unknowncommand, err_needmoreparams,
}
use irc_idler.State.Session.Total.{IsIndexable}
use irc_idler.Proxy.World.{World}
use irc_idler.Proxy.Client.{message, welcome_back}

-- No update reads a parameter of another command.
pub unread-IsIndexable :
    (m : Message)
    → one_of m.command (cmd_kick ∷ cmd_part ∷ cmd_join ∷ cmd_nick ∷ rpl_topic ∷ rpl_namereply ∷ [])
      ≡ false
    → IsIndexable m
unfolding one_of
unread-IsIndexable m e = record { first = ground arith; topic = ground arith; names = ground arith }

pub pong-IsIndexable : (prefix : Bytes) (ps : List Bytes) → IsIndexable (message prefix cmd_pong ps)
unfolding one_of bytes bytes_eq
pong-IsIndexable prefix ps = unread-IsIndexable (message prefix cmd_pong ps) refl

pub ping-IsIndexable : (prefix : Bytes) (ps : List Bytes) → IsIndexable (message prefix cmd_ping ps)
unfolding one_of bytes bytes_eq
ping-IsIndexable prefix ps = unread-IsIndexable (message prefix cmd_ping ps) refl

pub endofnames-IsIndexable :
    (prefix : Bytes) (ps : List Bytes) → IsIndexable (message prefix rpl_endofnames ps)
unfolding one_of bytes bytes_eq
endofnames-IsIndexable prefix ps = unread-IsIndexable (message prefix rpl_endofnames ps) refl

pub join-IsIndexable : (prefix name : Bytes) → IsIndexable (message prefix cmd_join (name ∷ []))
unfolding one_of bytes bytes_eq
join-IsIndexable prefix name = record {
  first = λ e. omega arith;
  topic = λ e. cc e;
  names = λ e. cc e;
}

pub topic-IsIndexable :
    (prefix me name topic : Bytes) → IsIndexable (message prefix rpl_topic (me ∷ name ∷ topic ∷ []))
unfolding one_of bytes bytes_eq
topic-IsIndexable prefix me name topic = record {
  first = λ e. cc e;
  topic = λ e. omega arith;
  names = λ e. cc e;
}

pub names-IsIndexable :
    (prefix me eq name nick : Bytes)
    → IsIndexable (message prefix rpl_namereply (me ∷ eq ∷ name ∷ nick ∷ []))
unfolding one_of bytes bytes_eq
names-IsIndexable prefix me eq name nick = record {
  first = λ e. cc e;
  topic = λ e. cc e;
  names = λ e. omega arith;
}

pub welcome_back-IsIndexable : {L : Type 0} (w : World L) → All IsIndexable (welcome_back w)
unfolding welcome_back one_of bytes bytes_eq
welcome_back-IsIndexable w =
    let id = w.server.session.client_id in
    (
      unread-IsIndexable _ refl,
      (unread-IsIndexable _ refl, (unread-IsIndexable _ refl, (unread-IsIndexable _ refl, tt))),
    )

unread_complaints :
    (text : Bytes)
    → IsIndexable (message [] err_unknowncommand (text ∷ []))
      × IsIndexable (message [] err_needmoreparams (text ∷ []))
unfolding one_of bytes bytes_eq
unread_complaints text = (unread-IsIndexable _ refl, unread-IsIndexable _ refl)

abbrev IfAny : Option Message → Type 0
IfAny none = Unit
IfAny (some c) = IsIndexable c

-- The error replies of `Validate`.
pub validate_complaint : (m : Message) {c : Message} → validate m ≡ some c → IsIndexable c
unfolding validate
validate_complaint m e =
    let all : IfAny (validate m) = elim (Bool-cases (bytes_eq m.command [])) [
      | inl a ↦ rw a (unread_complaints (bytes "Unknown command: \"\"")).0
      | inr a ↦ elim (Bool-cases (ltb 15 (length m.params))) [
        | inl b ↦ rw (a, b) (unread_complaints (bytes "Too many parameters (max 15)")).0
        | inr b ↦ elim (Bool-cases (ltb (length m.params) (min_params m.command))) [
          | inl c ↦ rw (a, b, c) (unread_complaints (bytes "Not enough parameters")).1
          | inr c ↦ rw (a, b, c) tt
        ]
      ]
    ] in
    rw e at all
