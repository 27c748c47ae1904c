-- ===== src/Irc/ClientId/RoundTrip.antt =====
-- Printing and parsing a client id.
use irc_idler.Prelude.{
  ℕ, [], ◌∷◌, ◌++◌, Bytes, ◌≡◌, ◌≢◌, refl, arith, Lacks, ap, Bool-cases, inl, inr, All-append,
  bytes_eq, bytes_eq_iff, ◌⊎◌, ◌∙◌,
}
use irc_idler.Irc.ClientId.{
  ClientId, to_string, split, ok, parse_client_id, parse_flagged, split_host, split_user, finish,
  at_sign, plus_sign, bang,
}
use irc_idler.Irc.ClientId.Split.{split-Lacks, split-append}

-- A nick that is not read as a flag and a nick.
abbrev pub Unflagged : Bytes → Type 0
Unflagged [] = Unit
Unflagged (c ∷ s) = (c ≢ at_sign) × (c ≢ plus_sign)

abbrev pub FlagFits : Bytes → Bytes → Type 0
FlagFits [] nick = Unflagged nick
FlagFits (c ∷ []) nick = (c ≡ at_sign) ⊎ (c ≡ plus_sign)
FlagFits (c ∷ d ∷ s) nick = ⊥

-- The ids that `ParseClientID` can return.
pub record IsCanonical (id : ClientId) : Type 0 where
  pub flag_fits : FlagFits id.flag id.nick
  pub has_nick : id.nick ≢ []
  pub nick_at : Lacks at_sign id.nick
  pub user_at : Lacks at_sign id.user
  pub host_at : Lacks at_sign id.host
  pub nick_bang : id.host ≢ [] → Lacks bang id.nick
  pub user_bang : Lacks bang id.user
  pub user_host : id.user ≢ [] → id.host ≢ []

-- The printed id behind its flag.
abbrev bare_text : ClientId → Bytes
bare_text id = to_string (record id { flag = [] })

abbrev pub client : Bytes → Bytes → Bytes → Bytes → ClientId
client flag nick user host = record { flag = flag; nick = nick; user = user; host = host }

finish_lem :
    (flag nick user host : Bytes)
    → nick ≢ []
    → (user ≢ [] → host ≢ [])
    → finish flag (ok (client [] nick user host)) ≡ ok (client flag nick user host)
unfolding finish
finish_lem flag nick user host h k =
    ground (arith, bytes_eq_iff nick [], bytes_eq_iff user [], bytes_eq_iff host [])

split_host_one :
    (s : Bytes) → Lacks at_sign s → split_host s (split at_sign s) ≡ ok (client [] s [] [])
unfolding split_host
split_host_one s h = rw (split-Lacks at_sign s h, split_host)

split_host_two :
    (s host : Bytes)
    → Lacks at_sign s
    → Lacks at_sign host
    → split_host (s ++ at_sign ∷ host) (split at_sign (s ++ at_sign ∷ host))
      ≡ split_user s (split bang s) host
unfolding split_host
split_host_two s host h k =
    rw (split-append at_sign s host h, split-Lacks at_sign host k, split_host)

split_user_one :
    (nick host : Bytes)
    → Lacks bang nick
    → split_user nick (split bang nick) host ≡ ok (client [] nick [] host)
unfolding split_user
split_user_one nick host h = rw (split-Lacks bang nick h, split_user)

split_user_two :
    (nick user host : Bytes)
    → Lacks bang nick
    → Lacks bang user
    → split_user (nick ++ bang ∷ user) (split bang (nick ++ bang ∷ user)) host
      ≡ ok (client [] nick user host)
unfolding split_user
split_user_two nick user host h k =
    rw (split-append bang nick user h, split-Lacks bang user k, split_user)

at_bang : at_sign ≢ bang
at_bang = omega arith

parse_flagged-bare_text :
    (flag nick user host : Bytes)
    → IsCanonical (client flag nick user host)
    → parse_flagged flag (bare_text (client flag nick user host)) ≡ ok (client flag nick user host)
unfolding parse_flagged to_string bytes_eq
parse_flagged-bare_text flag nick [] [] h =
    ap (finish flag) (split_host_one nick h.nick_at)
    ∙ finish_lem flag nick [] [] h.has_nick h.user_host
parse_flagged-bare_text flag nick (d ∷ t) [] h = absurd (h.user_host (ground arith) refl)
parse_flagged-bare_text flag nick [] (c ∷ s) h =
    ap (finish flag) (
      split_host_two nick (c ∷ s) h.nick_at h.host_at
      ∙ split_user_one nick (c ∷ s) (h.nick_bang (ground arith)))
    ∙ finish_lem flag nick [] (c ∷ s) h.has_nick h.user_host
parse_flagged-bare_text flag nick (d ∷ t) (c ∷ s) h =
    let before : Lacks at_sign (nick ++ bang ∷ d ∷ t) =
      All-append (λ b. b ≢ at_sign) nick (bang ∷ d ∷ t) h.nick_at (omega arith, h.user_at) in
    ap (finish flag) (
      split_host_two (nick ++ bang ∷ d ∷ t) (c ∷ s) before h.host_at
      ∙ split_user_two nick (d ∷ t) (c ∷ s) (h.nick_bang (ground arith)) h.user_bang)
    ∙ finish_lem flag nick (d ∷ t) (c ∷ s) h.has_nick h.user_host

parse_client_id_bare : (s : Bytes) → Unflagged s → parse_client_id s ≡ parse_flagged [] s
unfolding parse_client_id
parse_client_id_bare [] h = refl
parse_client_id_bare (c ∷ s) h = ground arith

parse_client_id-flagged :
    (c : ℕ) (s : Bytes)
    → (c ≡ at_sign) ⊎ (c ≡ plus_sign)
    → parse_client_id (c ∷ s) ≡ parse_flagged (c ∷ []) s
unfolding parse_client_id
parse_client_id-flagged c s h = ground arith

bare_text-Unflagged :
    (nick user host : Bytes)
    → nick ≢ []
    → Unflagged nick
    → Unflagged (to_string (client [] nick user host))
unfolding to_string
bare_text-Unflagged [] user host h k = absurd (h refl)
bare_text-Unflagged (c ∷ s) user host h k = elim (Bool-cases (bytes_eq host [])) [
  | inl e ↦ rw e k
  | inr e ↦ elim (Bool-cases (bytes_eq user [])) [ inl e' ↦ rw (e, e') k | inr e' ↦ rw (e, e') k ]
]

to_string_flag :
    (c : ℕ) (nick user host : Bytes)
    → to_string (client (c ∷ []) nick user host) ≡ c ∷ to_string (client [] nick user host)
unfolding to_string
to_string_flag c nick user host = ground arith

canonical_read_back :
    (flag nick user host : Bytes)
    → IsCanonical (client flag nick user host)
    → parse_client_id (to_string (client flag nick user host)) ≡ ok (client flag nick user host)
canonical_read_back [] nick user host h =
    parse_client_id_bare _ (bare_text-Unflagged nick user host h.has_nick h.flag_fits)
    ∙ parse_flagged-bare_text [] nick user host h
canonical_read_back (c ∷ []) nick user host h =
    ap parse_client_id (to_string_flag c nick user host)
    ∙ parse_client_id-flagged c (to_string (client [] nick user host)) h.flag_fits
    ∙ parse_flagged-bare_text (c ∷ []) nick user host h
canonical_read_back (c ∷ d ∷ s) nick user host h = absurd h.flag_fits

-- A canonical client id is read back from its print.
pub parse_client_id-to_string :
    (id : ClientId) → IsCanonical id → parse_client_id (to_string id) ≡ ok id
parse_client_id-to_string id h = canonical_read_back id.flag id.nick id.user id.host h
