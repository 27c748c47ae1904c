-- ===== src/Storage/Sql/Cursors.antt =====
-- The SQL store's cursors: what they have still to give, and that they fail only with the database.
use mathlib.Core.Path.{subst}
use irc_idler.Prelude.{
  ℕ, suc, ◌<◌, ◌≤◌, Bytes, Bool, true, false, Option, none, some, List, [], ◌∷◌, All, ◌≡◌, ◌≢◌, ◌⊎◌,
  inl, inr, refl, sym, ap, ◌∙◌, arith,
}
use irc_idler.Irc.Message.{Message}
use irc_idler.Irc.Reader.{
  ReadResult, got, failed, eof, too_long, more_than_one, parse_message_string,
}
use irc_idler.Storage.{Fetched, entry, end, broken}
use irc_idler.Storage.Sql.{
  Database, CursorError, no_error, at_end, failure, SqlCursor, parsed_row, scanned_row, moved_to,
  fetched, get, rounds, size,
}
use irc_idler.Storage.Sql.Rows.{
  DatabaseLaws, IsUp, read_as, before, readable, readable-cons, IsRow, read_row,
}

module _ (D : Database) (laws : DatabaseLaws D) where
  open D use {State, Rows, create, insert, delete, select, next_row, rows_err, scan, row_count}
  open laws use {table, remaining}

  abbrev pub left : SqlCursor D → List Message
  left c = before (get D c) (readable (remaining c.rows))

  pub get-parsed_row : (r : Rows) (x : ReadResult) → get D (parsed_row D r x) ≡ read_as x
  unfolding get fetched parsed_row read_as
  get-parsed_row r (got m rest) = refl
  get-parsed_row r (failed eof) = refl
  get-parsed_row r (failed too_long) = refl
  get-parsed_row r (failed more_than_one) = refl

  pub rows-parsed_row : (r : Rows) (x : ReadResult) → (parsed_row D r x).rows ≡ r
  unfolding parsed_row
  rows-parsed_row r (got m rest) = refl
  rows-parsed_row r (failed eof) = refl
  rows-parsed_row r (failed too_long) = refl
  rows-parsed_row r (failed more_than_one) = refl

  -- A cursor that was moved stands at the texts that were left, or it has failed.
  scanned_left :
      (r r' : Rows) (msg : Option Message) (t : Bytes) (o : Option Bytes)
      → remaining r ≡ t ∷ remaining r'
      → ((t' : Bytes) → o ≡ some t' → t' ≡ t)
      → (left (scanned_row D r' msg o) ≡ readable (remaining r))
        ⊎ (get D (scanned_row D r' msg o) ≡ broken)
  unfolding scanned_row
  scanned_left r r' msg t none same read = inr (unfold get fetched in refl)
  scanned_left r r' msg t (some t') same read =
      let x = parse_message_string t' in
      inl (
        ap (λ (f : Fetched). before f (readable (remaining (parsed_row D r' x).rows)))
          (get-parsed_row r' x)
        ∙ ap (λ (q : Rows). before (read_as x) (readable (remaining q))) (rows-parsed_row r' x)
        ∙ ap (λ (u : Bytes). before (read_as (parse_message_string u)) (readable (remaining r')))
            (read t' refl)
        ∙ readable-cons t (remaining r')
        ∙ ap readable (sym same))

  scanned_rows :
      (r' : Rows) (msg : Option Message) (o : Option Bytes) → (scanned_row D r' msg o).rows ≡ r'
  unfolding scanned_row
  scanned_rows r' msg none = refl
  scanned_rows r' msg (some t) = rows-parsed_row r' (parse_message_string t)

  abbrev pub LeftAt : Rows → SqlCursor D → Type 0
  LeftAt r c = (left c ≡ readable (remaining r)) ⊎ (get D c ≡ broken)

  ended_left :
      (r r' : Rows) (msg : Option Message) (b : Bool)
      → rows_err r' ≡ b
      → (b ≡ false → (remaining r ≡ []) × (remaining r' ≡ []))
      → LeftAt r (moved_to D msg (false, r'))
  unfolding moved_to get fetched
  ended_left r r' msg true e none_left = inr (ground (arith, e))
  ended_left r r' msg false e none_left =
      let (was, is) = none_left refl in inl (ground (arith, e, ap readable was, ap readable is))

  row_end :
      (r r' : Rows)
      → next_row r ≡ (false, r')
      → rows_err r' ≡ false
      → (remaining r ≡ []) × (remaining r' ≡ [])
  row_end r r' e fine =
      let moved : (next_row r).1 ≡ r' = ap (λ (q : Bool × Rows). q.1) e in
      let (was, is) =
        laws.next_row_end r (ap (λ (q : Bool × Rows). q.0) e) (ap rows_err moved ∙ fine) in
      (was, ap remaining (sym moved) ∙ is)

  pub moved_left :
      (r : Rows) (msg : Option Message) (p : Bool × Rows)
      → next_row r ≡ p
      → LeftAt r (moved_to D msg p)
  unfolding moved_to
  moved_left r msg (true, r') e =
      let (t, same, read) = laws.next_row-remaining r (ap (λ (q : Bool × Rows). q.0) e) in
      let moved : (next_row r).1 ≡ r' = ap (λ (q : Bool × Rows). q.1) e in
      scanned_left r r' msg t (scan r') (same ∙ ap (λ (q : Rows). t ∷ remaining q) moved)
        (λ t' s. read t' (ap scan moved ∙ s))
  moved_left r msg (false, r') e =
      ended_left r r' msg (rows_err r') refl (λ fine. row_end r r' e fine)

  -- A cursor over texts that the store wrote, which fails only if the database does.
  pub record IsSoundCursor (c : SqlCursor D) : Type 0 where
    pub rows_carried : (m : Message) → get D c ≡ entry m → All IsRow (remaining c.rows)
    pub ended : get D c ≡ end → remaining c.rows ≡ []
    pub works : IsUp D → get D c ≢ broken

  scanned-IsSoundCursor :
      (r' : Rows) (msg : Option Message) (t : Bytes) (o : Option Bytes)
      → IsRow t
      → All IsRow (remaining r')
      → ((t' : Bytes) → o ≡ some t' → t' ≡ t)
      → (IsUp D → o ≢ none)
      → IsSoundCursor (scanned_row D r' msg o)
  unfolding scanned_row get fetched
  scanned-IsSoundCursor r' msg t none row rows read up = record {
    rows_carried = λ m e. cc e;
    ended = λ e. cc e;
    works = λ u. absurd (up u refl);
  }
  scanned-IsSoundCursor r' msg t (some t') row rows read up =
      let x = parse_message_string t' in
      let parsed : x ≡ got row.message [] =
        ap parse_message_string (read t' refl) ∙ read_row t row in
      let is_entry : get D (parsed_row D r' x) ≡ entry row.message =
        get-parsed_row r' x ∙ ap read_as parsed ∙ (unfold read_as in refl) in
      record {
        rows_carried =
            λ m e. subst (λ (q : Rows). All IsRow (remaining q)) (sym (rows-parsed_row r' x)) rows;
        ended = λ e. absurd (cc (e, is_entry));
        works = λ u e. cc (e, is_entry);
      }

  ended-IsSoundCursor :
      (r' : Rows) (msg : Option Message) (b : Bool)
      → rows_err r' ≡ b
      → (b ≡ false → remaining r' ≡ [])
      → (IsUp D → b ≡ false)
      → IsSoundCursor (moved_to D msg (false, r'))
  unfolding moved_to get fetched
  ended-IsSoundCursor r' msg true e is_end up = record {
    rows_carried = λ m f. absurd (cc (f, e));
    ended = λ f. absurd (cc (f, e));
    works = λ u. absurd (cc (up u));
  }
  ended-IsSoundCursor r' msg false e is_end up = record {
    rows_carried = λ m f. absurd (cc (f, e));
    ended = λ f. is_end refl;
    works = λ u f. cc (f, e);
  }

  pub moved-IsSoundCursor :
      (r : Rows) (msg : Option Message) (p : Bool × Rows)
      → next_row r ≡ p
      → All IsRow (remaining r)
      → IsSoundCursor (moved_to D msg p)
  unfolding moved_to
  moved-IsSoundCursor r msg (true, r') e rows =
      let there : (next_row r).0 ≡ true = ap (λ (q : Bool × Rows). q.0) e in
      let moved : (next_row r).1 ≡ r' = ap (λ (q : Bool × Rows). q.1) e in
      let (t, same, read) = laws.next_row-remaining r there in
      let (row, others) =
        subst (All IsRow) (same ∙ ap (λ (q : Rows). t ∷ remaining q) moved) rows in
      scanned-IsSoundCursor r' msg t (scan r') row others (λ t' s. read t' (ap scan moved ∙ s))
        (λ u s. u.scan_works r there (ap scan moved ∙ s))
  moved-IsSoundCursor r msg (false, r') e rows =
      ended-IsSoundCursor r' msg (rows_err r') refl (λ fine. (row_end r r' e fine).1)
        (λ u.
          ap rows_err (sym (ap (λ (q : Bool × Rows). q.1) e))
          ∙ u.rows_end r (ap (λ (q : Bool × Rows). q.0) e))

  -- The rounds that are left fall.
  rounds-le : (x : CursorError) (n : ℕ) → rounds D x n ≤ suc n
  unfolding rounds
  rounds-le no_error n = omega arith
  rounds-le at_end n = omega arith
  rounds-le failure n = omega arith

  pub moved-size :
      (r : Rows) (msg : Option Message) (p : Bool × Rows)
      → next_row r ≡ p
      → size D (moved_to D msg p) < suc (row_count r)
  unfolding size moved_to
  moved-size r msg (true, r') e =
      let moved : (next_row r).1 ≡ r' = ap (λ (q : Bool × Rows). q.1) e in
      omega (
        arith,
        rounds-le (scanned_row D r' msg (scan r')).err
            (row_count (scanned_row D r' msg (scan r')).rows),
        ap row_count (scanned_rows r' msg (scan r')),
        ap row_count moved,
        laws.next_row-count r (ap (λ (q : Bool × Rows). q.0) e),
      )
  moved-size r msg (false, r') e = unfold rounds in ground arith

  pub entry_size :
      (x : CursorError) (msg : Option Message) (n : ℕ) {m : Message}
      → fetched D x msg ≡ entry m
      → rounds D x n ≡ suc n
  unfolding fetched rounds
  entry_size no_error msg n e = refl
  entry_size at_end msg n e = cc
  entry_size failure msg n e = cc
