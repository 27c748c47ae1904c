-- ===== src/Irc/ClientId/Canonical.antt =====
-- What `ParseClientID` returns is a canonical id, so that printing and parsing it again changes
-- nothing.
use mathlib.Core.Path.{subst}
use irc_idler.Prelude.{
  List, [], ◌∷◌, ◌++◌, Bytes, ◌==◌, ◌≡◌, ◌≢◌, refl, arith, All-append_inv, Lacks, ap, Bool-cases,
  inl, inr, bytes_eq_iff, sym, ◌∙◌, ◌||◌, append-nil, append_assoc,
}
use irc_idler.Irc.ClientId.{
  ClientId, to_string, split, Parsed, ok, err, parse_client_id, parse_flagged, split_host,
  split_user, finish, at_sign, plus_sign, bang,
}
use irc_idler.Irc.ClientId.Split.{split_one, split_two}
use irc_idler.Irc.ClientId.RoundTrip.{
  IsCanonical, Unflagged, FlagFits, client, parse_client_id-to_string,
}

-- An id that was cut out of `text`, which begins with its nick.
record IsCut (text : Bytes) (id : ClientId) : Type 0 where
  behind : Bytes
  starts : text ≡ id.nick ++ behind
  nick_at : Lacks at_sign id.nick
  user_at : Lacks at_sign id.user
  host_at : Lacks at_sign id.host
  nick_bang : id.host ≢ [] → Lacks bang id.nick
  user_bang : Lacks bang id.user

split_user-IsCut :
    (before host : Bytes) (parts : List Bytes) (id : ClientId)
    → split bang before ≡ parts
    → Lacks at_sign before
    → Lacks at_sign host
    → split_user before parts host ≡ ok id
    → IsCut (before ++ at_sign ∷ host) id
unfolding split_user
split_user-IsCut before host [] id e lb lh h = cc
split_user-IsCut before host (nick ∷ []) id e lb lh h =
    let (same, lacks) = split_one bang before nick e in
    let id_is : client [] before [] host ≡ id = ground arith in
    subst (λ (i : ClientId). IsCut (before ++ at_sign ∷ host) i) id_is
      (record {
        behind = at_sign ∷ host;
        starts = refl;
        nick_at = lb;
        user_at = tt;
        host_at = lh;
        nick_bang = λ _. lacks;
        user_bang = tt;
      })
split_user-IsCut before host (nick ∷ user ∷ []) id e lb lh h =
    let (shape, nick_lacks, user_lacks) = split_two bang before nick user e in
    let (nick_at, (_, user_at)) =
      All-append_inv (λ b. b ≢ at_sign) nick (bang ∷ user) (rw shape at lb) in
    let id_is : client [] nick user host ≡ id = ground arith in
    subst (λ (i : ClientId). IsCut (before ++ at_sign ∷ host) i) id_is
      (record {
        behind = (bang ∷ user) ++ at_sign ∷ host;
        starts =
            ap (λ (t : Bytes). t ++ at_sign ∷ host) shape
            ∙ append_assoc nick (bang ∷ user) (at_sign ∷ host);
        nick_at = nick_at;
        user_at = user_at;
        host_at = lh;
        nick_bang = λ _. nick_lacks;
        user_bang = user_lacks;
      })
split_user-IsCut before host (nick ∷ user ∷ more ∷ parts) id e lb lh h = cc

split_host-IsCut :
    (text : Bytes) (parts : List Bytes) (id : ClientId)
    → split at_sign text ≡ parts
    → split_host text parts ≡ ok id
    → IsCut text id
unfolding split_host
split_host-IsCut text [] id e h = cc
split_host-IsCut text (one ∷ []) id e h =
    let (same, lacks) = split_one at_sign text one e in
    let id_is : client [] text [] [] ≡ id = ground arith in
    subst (λ (i : ClientId). IsCut text i) id_is
      (record {
        behind = [];
        starts = sym (append-nil text);
        nick_at = lacks;
        user_at = tt;
        host_at = tt;
        nick_bang = λ h. absurd (h refl);
        user_bang = tt;
      })
split_host-IsCut text (before ∷ host ∷ []) id e h =
    let (shape, before_at, host_at) = split_two at_sign text before host e in
    subst (λ (t : Bytes). IsCut t id) (sym shape)
      (split_user-IsCut before host (split bang before) id refl before_at host_at h)
split_host-IsCut text (before ∷ host ∷ more ∷ parts) id e h = cc

Unflagged-append : (nick rest : Bytes) → nick ≢ [] → Unflagged (nick ++ rest) → Unflagged nick
Unflagged-append [] rest h u = absurd (h refl)
Unflagged-append (c ∷ s) rest h u = u

finish_inv :
    (flag : Bytes) (raw id : ClientId)
    → finish flag (ok raw) ≡ ok id
    → (record raw { flag = flag } ≡ id) × (raw.nick ≢ []) × (raw.user ≢ [] → raw.host ≢ [])
unfolding finish
finish_inv flag raw id h =
    ground (arith, bytes_eq_iff raw.nick [], bytes_eq_iff raw.user [], bytes_eq_iff raw.host [])

abbrev FlagOf : Bytes → Bytes → Type 0
FlagOf flag text = (nick rest : Bytes) → nick ≢ [] → text ≡ nick ++ rest → FlagFits flag nick

finish-IsCanonical :
    (flag text : Bytes) (p : Parsed) (id : ClientId)
    → FlagOf flag text
    → ((raw : ClientId) → p ≡ ok raw → IsCut text raw)
    → finish flag p ≡ ok id
    → IsCanonical id
finish-IsCanonical flag text (err e) id fits cut h = unfold finish in cc
finish-IsCanonical flag text (ok raw) id fits cut h =
    let (same, has_nick, user_host) = finish_inv flag raw id h in
    let c = cut raw refl in
    subst IsCanonical same (record {
      flag_fits = fits raw.nick c.behind has_nick c.starts;
      has_nick = has_nick;
      nick_at = c.nick_at;
      user_at = c.user_at;
      host_at = c.host_at;
      nick_bang = c.nick_bang;
      user_bang = c.user_bang;
      user_host = user_host;
    })

parse_flagged-IsCanonical :
    (flag text : Bytes) (id : ClientId)
    → FlagOf flag text
    → parse_flagged flag text ≡ ok id
    → IsCanonical id
unfolding parse_flagged
parse_flagged-IsCanonical flag text id fits h =
    finish-IsCanonical flag text (split_host text (split at_sign text)) id fits
      (λ raw e. split_host-IsCut text (split at_sign text) raw refl e) h

-- Whatever text is parsed without an error, the id is canonical.
pub parse_client_id-IsCanonical :
    (text : Bytes) (id : ClientId) → parse_client_id text ≡ ok id → IsCanonical id
unfolding parse_client_id
parse_client_id-IsCanonical [] id h =
    parse_flagged-IsCanonical [] [] id
      (λ nick rest some_nick e. Unflagged-append nick rest some_nick (subst Unflagged e tt)) h
parse_client_id-IsCanonical (c ∷ s) id h = elim (Bool-cases (c == at_sign || c == plus_sign)) [
  | inl flagged ↦
      parse_flagged-IsCanonical (c ∷ []) s id (λ nick rest some_nick e. ground arith)
        (rw flagged at h)
  | inr plain ↦
      parse_flagged-IsCanonical [] (c ∷ s) id
        (λ nick rest some_nick e.
          Unflagged-append nick rest some_nick (subst Unflagged e (ground arith)))
        (rw plain at h)
]

-- A parsed id prints as a text that parses to the same id, though not always as the text it came
-- from.
pub parse_client_id_again :
    (text : Bytes) (id : ClientId)
    → parse_client_id text ≡ ok id
    → parse_client_id (to_string id) ≡ ok id
parse_client_id_again text id h =
    parse_client_id-to_string id (parse_client_id-IsCanonical text id h)
