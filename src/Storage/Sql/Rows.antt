-- ===== src/Storage/Sql/Rows.antt =====
-- What the SQL store relies on in a database, and what it reads out of a table's texts.
use irc_idler.Prelude.{
  ◌<◌, Bytes, bytes_eq, bytes_eq_iff, true, false, none, some, List, [], ◌∷◌, ◌++◌, All, ◌≡◌, ◌≢◌,
  refl, ap, ◌∙◌, arith, if◌then◌else◌, Bool-cases, inl, inr, sym, append-nil,
}
use irc_idler.Irc.Message.{Message, to_string}
use irc_idler.Irc.Reader.{
  ReadResult, got, failed, eof, too_long, more_than_one, parse_message_string,
}
use irc_idler.Irc.Reader.Stream.{IsCarried, parse_message_string-to_string}
use irc_idler.Storage.{Fetched, entry, end, broken}
use irc_idler.Storage.Sql.{Database}

-- The messages' table, in the order of its ids: each row's channel and text.
abbrev pub Table : Type 0
Table = List (Bytes × Bytes)

unfoldable pub texts : Bytes → Table → List Bytes
texts k [] = []
texts k ((c, t) ∷ rows) = if bytes_eq k c then t ∷ texts k rows else texts k rows

pub without : Bytes → Table → Table
without k [] = []
without k ((c, t) ∷ rows) = if bytes_eq k c then without k rows else (c, t) ∷ without k rows

-- The documented behaviour of the statements and of `Rows`.
pub record DatabaseLaws (D : Database) : Type 1 where
  pub table : D.State → Table
  pub remaining : D.Rows → List Bytes
  pub create-table : (s : D.State) → table (D.create s).1 ≡ table s
  pub insert-table :
      (k t : Bytes) (s : D.State)
      → table (D.insert k t s).1 ≡ (if (D.insert k t s).0 then table s else table s ++ (k, t) ∷ [])
  pub delete-table :
      (k : Bytes) (s : D.State)
      → table (D.delete k s).1 ≡ (if (D.delete k s).0 then table s else without k (table s))
  pub select-table : (k : Bytes) (s : D.State) → table (D.select k s).1 ≡ table s
  pub select-remaining :
      (k : Bytes) (s : D.State) {r : D.Rows}
      → (D.select k s).0 ≡ some r
      → remaining r ≡ texts k (table s)
  -- A row that `Next` moves to is the next one; what `Scan` returns is its text.
  pub next_row-remaining :
      (r : D.Rows)
      → (D.next_row r).0 ≡ true
      → (t : Bytes) × (remaining r ≡ t ∷ remaining (D.next_row r).1)
        × ((t' : Bytes) → D.scan (D.next_row r).1 ≡ some t' → t' ≡ t)
  pub next_row-count :
      (r : D.Rows) → (D.next_row r).0 ≡ true → D.row_count (D.next_row r).1 < D.row_count r
  -- Where `Next` finds no row and `Err` is nil there was none, and there is none.
  pub next_row_end :
      (r : D.Rows)
      → (D.next_row r).0 ≡ false
      → D.rows_err (D.next_row r).1 ≡ false
      → (remaining r ≡ []) × (remaining (D.next_row r).1 ≡ [])

-- A database that never returns an error.
pub record IsUp (D : Database) : Type 0 where
  pub create_works : (s : D.State) → (D.create s).0 ≡ false
  pub insert_works : (k t : Bytes) (s : D.State) → (D.insert k t s).0 ≡ false
  pub delete_works : (k : Bytes) (s : D.State) → (D.delete k s).0 ≡ false
  pub select_works : (k : Bytes) (s : D.State) → (D.select k s).0 ≢ none
  pub scan_works : (r : D.Rows) → (D.next_row r).0 ≡ true → D.scan (D.next_row r).1 ≢ none
  pub rows_end : (r : D.Rows) → (D.next_row r).0 ≡ false → D.rows_err (D.next_row r).1 ≡ false

-- What a row's text reads as.
unfoldable pub read_as : ReadResult → Fetched
read_as (got m rest) = entry m
read_as (failed eof) = end
read_as (failed too_long) = broken
read_as (failed more_than_one) = broken

-- A message in front of others, if there is one.
abbrev pub before : Fetched → List Message → List Message
before (entry m) ms = m ∷ ms
before end ms = ms
before broken ms = ms

pub readable : List Bytes → List Message
readable [] = []
readable (t ∷ ts) = before (read_as (parse_message_string t)) (readable ts)

pub readable-cons :
    (t : Bytes) (ts : List Bytes)
    → before (read_as (parse_message_string t)) (readable ts) ≡ readable (t ∷ ts)
unfolding readable
readable-cons t ts = refl

pub readable-nil : readable [] ≡ []
unfolding readable
readable-nil = refl

before-append : (x : Fetched) (ms ns : List Message) → before x ms ++ ns ≡ before x (ms ++ ns)
before-append (entry m) ms ns = refl
before-append end ms ns = refl
before-append broken ms ns = refl

pub readable-append : (ts us : List Bytes) → readable (ts ++ us) ≡ readable ts ++ readable us
unfolding readable
readable-append [] us = refl
readable-append (t ∷ ts) us = cc (
  readable-append ts us,
  before-append (read_as (parse_message_string t)) (readable ts) (readable us),
)

pub texts-append :
    (k : Bytes) (rows more : Table) → texts k (rows ++ more) ≡ texts k rows ++ texts k more
unfolding texts
texts-append k [] more = refl
texts-append k ((c, t) ∷ rows) more = ground (arith, texts-append k rows more)

pub texts-without :
    (k j : Bytes) (rows : Table)
    → texts j (without k rows) ≡ (if bytes_eq k j then [] else texts j rows)
unfolding texts without
texts-without k j [] = ground arith
texts-without k j ((c, t) ∷ rows) =
    ground (arith, texts-without k j rows, bytes_eq_iff k c, bytes_eq_iff k j, bytes_eq_iff j c)

-- The text of a message that a connection carries.
pub record IsRow (t : Bytes) : Type 0 where
  pub message : Message
  pub carried : IsCarried message
  pub printed : t ≡ to_string message

pub read_row : (t : Bytes) (r : IsRow t) → parse_message_string t ≡ got r.message []
read_row t r =
    ap parse_message_string r.printed ∙ parse_message_string-to_string r.message r.carried

pub IsRow-texts : (k : Bytes) (rows : Table) → All (λ r. IsRow r.1) rows → All IsRow (texts k rows)
unfolding texts
IsRow-texts k [] h = tt
IsRow-texts k ((c, t) ∷ rows) (row, h) =
    let others = IsRow-texts k rows h in
    elim (Bool-cases (bytes_eq k c)) [ inl e ↦ rw e (row, others) | inr e ↦ rw e others ]

pub IsRow-without :
    (k : Bytes) (rows : Table) → All (λ r. IsRow r.1) rows → All (λ r. IsRow r.1) (without k rows)
unfolding without
IsRow-without k [] h = tt
IsRow-without k ((c, t) ∷ rows) (row, h) =
    let others = IsRow-without k rows h in
    elim (Bool-cases (bytes_eq k c)) [ inl e ↦ rw e others | inr e ↦ rw e (row, others) ]

readable_one : (m : Message) → IsCarried m → readable (to_string m ∷ []) ≡ m ∷ []
readable_one m h =
    sym (readable-cons (to_string m) [])
    ∙ ap (λ x. before (read_as x) (readable [])) (parse_message_string-to_string m h)
    ∙ (unfold read_as in ap (λ (l : List Message). m ∷ l) readable-nil)

texts-insert :
    (j k t : Bytes) (rows : Table)
    → texts j (rows ++ (k, t) ∷ [])
      ≡ (if bytes_eq j k then texts j rows ++ t ∷ [] else texts j rows)
unfolding texts
texts-insert j k t rows =
    ground (arith, texts-append j rows ((k, t) ∷ []), append-nil (texts j rows))

-- A row for a carried message is one message more in its channel's log.
pub readable-insert :
    (j k : Bytes) (m : Message) (rows : Table)
    → IsCarried m
    → readable (texts j (rows ++ (k, to_string m) ∷ []))
      ≡ (if bytes_eq k j then readable (texts j rows) ++ m ∷ [] else readable (texts j rows))
readable-insert j k m rows h =
    let same = texts-insert j k (to_string m) rows in
    ground (
      arith,
      same,
      readable-append (texts j rows) (to_string m ∷ []),
      readable_one m h,
      bytes_eq_iff k j,
      bytes_eq_iff j k,
    )

pub readable-without :
    (j k : Bytes) (rows : Table)
    → readable (texts j (without k rows)) ≡ (if bytes_eq k j then [] else readable (texts j rows))
readable-without j k rows = ground (arith, texts-without k j rows, readable-nil)
