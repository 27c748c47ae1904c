-- ===== src/Storage/Sql/Refused.antt =====
-- Rows whose text `ParseMessage` refuses, and the cursors that meet them.
use irc_idler.Prelude.{
  Bytes, Bool, true, false, Option, none, some, List, [], ◌∷◌, ◌≡◌, ◌≢◌, ◌⊎◌, inl, inr, refl, sym,
  ap, ◌∙◌, arith,
}
use mathlib.Core.Path.{subst}
use irc_idler.Irc.Message.{Message}
use irc_idler.Irc.Reader.{parse_message_string}
use irc_idler.Storage.{Fetched, entry, end, broken}
use irc_idler.Storage.Sql.{
  Database, SqlStore, SqlCursor, started, replay, scanned_row, moved_to, fetched, get,
}
use irc_idler.Storage.Sql.Rows.{DatabaseLaws, read_as, texts}
use irc_idler.Storage.Sql.Cursors.{get-parsed_row, rows-parsed_row}

-- Among the texts there is one that is refused, and none before it reads as the end.
abbrev pub IsBlocked : List Bytes → Type 0
IsBlocked [] = ⊥
IsBlocked (t ∷ ts) =
    (read_as (parse_message_string t) ≡ broken)
    ⊎ ((read_as (parse_message_string t) ≢ end) × IsBlocked ts)

module _ (D : Database) (laws : DatabaseLaws D) where
  open D use {Rows, next_row, rows_err, scan, select}
  open laws use {remaining}

  -- The cursor has failed, or stands at a message before a text that is refused.
  abbrev pub NeverEnds : SqlCursor D → Type 0
  NeverEnds c =
      (get D c ≡ broken) ⊎ ((m : Message) × (get D c ≡ entry m) × IsBlocked (remaining c.rows))

  read-NeverEnds :
      (c : SqlCursor D) (x : Fetched) (ts : List Bytes)
      → get D c ≡ x
      → remaining c.rows ≡ ts
      → (x ≡ broken) ⊎ ((x ≢ end) × IsBlocked ts)
      → NeverEnds c
  read-NeverEnds c (entry m) ts e same (inl b) = absurd (cc b)
  read-NeverEnds c (entry m) ts e same (inr (ne, h)) = inr (m, e, subst IsBlocked (sym same) h)
  read-NeverEnds c end ts e same (inl b) = absurd (cc b)
  read-NeverEnds c end ts e same (inr (ne, h)) = absurd (ne refl)
  read-NeverEnds c broken ts e same h = inl e

  scanned-NeverEnds :
      (r' : Rows) (msg : Option Message) (t : Bytes) (o : Option Bytes)
      → IsBlocked (t ∷ remaining r')
      → ((t' : Bytes) → o ≡ some t' → t' ≡ t)
      → NeverEnds (scanned_row D r' msg o)
  unfolding scanned_row
  scanned-NeverEnds r' msg t none h read = inl (unfold get fetched in refl)
  scanned-NeverEnds r' msg t (some t') h read =
      let x = parse_message_string t' in
      read-NeverEnds _ (read_as x) (remaining r') (get-parsed_row D laws r' x)
        (ap remaining (rows-parsed_row D laws r' x))
        (subst (λ (u : Bytes). IsBlocked (u ∷ remaining r')) (sym (read t' refl)) h)

  ended-NeverEnds :
      (r' : Rows) (msg : Option Message) (b : Bool)
      → rows_err r' ≡ b
      → b ≢ false
      → NeverEnds (moved_to D msg (false, r'))
  unfolding moved_to get fetched
  ended-NeverEnds r' msg true e ne = inl (ground (arith, e))
  ended-NeverEnds r' msg false e ne = absurd (ne refl)

  pub moved-NeverEnds :
      (r : Rows) (msg : Option Message) (p : Bool × Rows)
      → next_row r ≡ p
      → IsBlocked (remaining r)
      → NeverEnds (moved_to D msg p)
  unfolding moved_to
  moved-NeverEnds r msg (true, r') e h =
      let (t, same, read) = laws.next_row-remaining r (ap (λ (q : Bool × Rows). q.0) e) in
      let moved : (next_row r).1 ≡ r' = ap (λ (q : Bool × Rows). q.1) e in
      scanned-NeverEnds r' msg t (scan r')
        (subst IsBlocked (same ∙ ap (λ (q : Rows). t ∷ remaining q) moved) h)
        (λ t' s. read t' (ap scan moved ∙ s))
  moved-NeverEnds r msg (false, r') e h =
      let moved : (next_row r).1 ≡ r' = ap (λ (q : Bool × Rows). q.1) e in
      ended-NeverEnds r' msg (rows_err r') refl (λ fine.
        subst IsBlocked
          (laws.next_row_end r (ap (λ (q : Bool × Rows). q.0) e) (ap rows_err moved ∙ fine)).0 h)

  started-NeverEnds :
      (o : Option Rows) {c : SqlCursor D} (ts : List Bytes)
      → IsBlocked ts
      → ((r : Rows) → o ≡ some r → remaining r ≡ ts)
      → started D o ≡ some c
      → NeverEnds c
  unfolding started
  started-NeverEnds none ts h at e = absurd (cc e)
  started-NeverEnds (some r) {c} ts h at e =
      let same : moved_to D none (next_row r) ≡ c = cc e in
      subst NeverEnds same
        (moved-NeverEnds r none (next_row r) refl (subst IsBlocked (sym (at r refl)) h))

  -- A cursor over a channel's rows never comes to their end, if one of them is refused.
  pub replay-NeverEnds :
      (k : Bytes) (s : SqlStore D) {c : SqlCursor D}
      → IsBlocked (texts k (laws.table s.db))
      → (replay D k s).0 ≡ some c
      → NeverEnds c
  unfolding replay
  replay-NeverEnds k s h e =
      started-NeverEnds (select k s.db).0 (texts k (laws.table s.db)) h
        (λ r f. laws.select-remaining k s.db f) e

  pub replay-table : (k : Bytes) (s : SqlStore D) → laws.table (replay D k s).1.db ≡ laws.table s.db
  unfolding replay
  replay-table k s = laws.select-table k s.db
