-- ===== src/Storage/Sql/Meets.antt =====
-- Over a database that keeps its laws the SQL store does what the interface documents, for messages
-- that a connection carries.
pub mod Remade
use mathlib.Core.Path.{subst}
use irc_idler.Prelude.{
  ◌<◌, Bytes, bytes_eq, Bool, true, false, Option, none, some, List, [], ◌∷◌, ◌++◌, All, All-append,
  ◌≡◌, ◌≢◌, ◌⊎◌, inl, inr, refl, sym, ap, ◌∙◌, arith, if◌then◌else◌, Bool-cases,
}
use irc_idler.Irc.Message.{Message, to_string}
use irc_idler.Irc.Reader.Stream.{IsCarried}
use irc_idler.Storage.{entry, end, broken}
use irc_idler.Storage.Holds.{Holds}
use irc_idler.Storage.Laws.{StoreLaws, IsReliable}
use irc_idler.Storage.Sql.{
  Database, SqlStore, SqlCursor, get_channel, log_message, clear, moved_to, next, started, replay,
  get, size, sql_store, with_schema, new_store,
}
use irc_idler.Storage.Sql.Rows.{
  Table, texts, without, DatabaseLaws, IsUp, before, readable, readable-nil, IsRow, IsRow-texts,
  IsRow-without, readable-insert, readable-without,
}
use irc_idler.Storage.Sql.Cursors.{
  left, moved_left, IsSoundCursor, moved-IsSoundCursor, moved-size, entry_size,
}

module _ (D : Database) (laws : DatabaseLaws D) where
  open D use {State, Rows, create, insert, delete, select, next_row, row_count}
  open laws use {table, remaining}

  contents : SqlStore D → Bytes → List Message
  contents s k = readable (texts k (table s.db))

  IsSound : SqlStore D → Type 0
  IsSound s = All (λ r. IsRow r.1) (table s.db)

  schema_table : (p : Bool × State) → table (with_schema D p).1.db ≡ table p.1
  unfolding with_schema
  schema_table (true, db) = refl
  schema_table (false, db) = refl

  pub get_channel-table : (k : Bytes) (s : SqlStore D) → table (get_channel D k s).1.db ≡ table s.db
  unfolding get_channel
  get_channel-table k s = ground (arith, schema_table (create s.db), laws.create-table s.db)

  log_message-table :
      (k : Bytes) (m : Message) (s : SqlStore D)
      → table (log_message D k m s).1.db
        ≡ (if (log_message D k m s).0 then table s.db else table s.db ++ (k, to_string m) ∷ [])
  unfolding log_message
  log_message-table k m s = laws.insert-table k (to_string m) s.db

  log_message_lem :
      (k j : Bytes) (m : Message) (s : SqlStore D)
      → IsCarried m
      → contents (log_message D k m s).1 j ≡ (
          if (log_message D k m s).0
          then contents s j
          else if bytes_eq k j
          then contents s j ++ m ∷ []
          else contents s j)
  unfolding contents
  log_message_lem k j m s h =
      ground (arith, log_message-table k m s, readable-insert j k m (table s.db) h)

  clear-table :
      (k : Bytes) (s : SqlStore D)
      → table (clear D k s).1.db ≡ (if (clear D k s).0 then table s.db else without k (table s.db))
  unfolding clear
  clear-table k s = laws.delete-table k s.db

  clear_lem :
      (k j : Bytes) (s : SqlStore D)
      → contents (clear D k s).1 j
        ≡ (if (clear D k s).0 then contents s j else if bytes_eq k j then [] else contents s j)
  unfolding contents
  clear_lem k j s = ground (arith, clear-table k s, readable-without j k (table s.db))

  replay-table : (k : Bytes) (s : SqlStore D) → table (replay D k s).1.db ≡ table s.db
  unfolding replay
  replay-table k s = laws.select-table k s.db

  moved : (s t : SqlStore D) → table t.db ≡ table s.db → IsSound s → IsSound t
  unfolding IsSound
  moved s t e h = subst (All (λ r. IsRow r.1)) (sym e) h

  log_message-IsSound :
      (k : Bytes) (m : Message) (s : SqlStore D)
      → IsCarried m
      → IsSound s
      → IsSound (log_message D k m s).1
  unfolding IsSound
  log_message-IsSound k m s h sound =
      let row : IsRow (to_string m) = record { message = m; carried = h; printed = refl } in
      elim (Bool-cases (log_message D k m s).0) [
        | inl failed ↦
            subst (All (λ r. IsRow r.1)) (sym (log_message-table k m s ∙ rw failed)) sound
        | inr ok ↦
            subst (All (λ r. IsRow r.1)) (sym (log_message-table k m s ∙ rw ok))
              (All-append (λ r. IsRow r.1) (table s.db) ((k, to_string m) ∷ []) sound (row, tt))
      ]

  clear-IsSound : (k : Bytes) (s : SqlStore D) → IsSound s → IsSound (clear D k s).1
  unfolding IsSound
  clear-IsSound k s sound = elim (Bool-cases (clear D k s).0) [
    | inl failed ↦ subst (All (λ r. IsRow r.1)) (sym (clear-table k s ∙ rw failed)) sound
    | inr ok ↦
        subst (All (λ r. IsRow r.1)) (sym (clear-table k s ∙ rw ok))
          (IsRow-without k (table s.db) sound)
  ]

  started_inv :
      (o : Option Rows) {c : SqlCursor D}
      → started D o ≡ some c
      → (r : Rows) × (o ≡ some r) × (c ≡ moved_to D none (next_row r))
  unfolding started
  started_inv none e = cc
  started_inv (some r) e = (r, refl, cc e)

  replay_inv :
      (k : Bytes) (s : SqlStore D) {c : SqlCursor D}
      → (replay D k s).0 ≡ some c
      → (r : Rows) × (remaining r ≡ texts k (table s.db)) × (c ≡ moved_to D none (next_row r))
  unfolding replay
  replay_inv k s e =
      let (r, found, at) = started_inv (select k s.db).0 e in
      (r, laws.select-remaining k s.db found, at)

  replay-IsSoundCursor :
      (k : Bytes) (s : SqlStore D) {c : SqlCursor D}
      → IsSound s
      → (replay D k s).0 ≡ some c
      → IsSoundCursor D laws c
  unfolding IsSound
  replay-IsSoundCursor k s sound e =
      let (r, same, at) = replay_inv k s e in
      subst (IsSoundCursor D laws) (sym at) (
        moved-IsSoundCursor D laws r none (next_row r) refl
          (subst (All IsRow) (sym same) (IsRow-texts k (table s.db) sound)))

  next-IsSoundCursor :
      (c : SqlCursor D) {m : Message}
      → IsSoundCursor D laws c
      → get D c ≡ entry m
      → IsSoundCursor D laws (next D c)
  unfolding next
  next-IsSoundCursor c {m} h e =
      moved-IsSoundCursor D laws c.rows c.msg (next_row c.rows) refl (h.rows_carried m e)

  replay-left :
      (k : Bytes) (s : SqlStore D) {c : SqlCursor D}
      → (replay D k s).0 ≡ some c
      → (left D laws c ≡ contents s k) ⊎ (get D c ≡ broken)
  unfolding contents
  replay-left k s e =
      let (r, same, at) = replay_inv k s e in
      elim (moved_left D laws r none (next_row r) refl) [
        | inl there ↦ inl (ap (left D laws) at ∙ there ∙ ap readable same)
        | inr failed ↦ inr (ap (get D) at ∙ failed)
      ]

  left_entry :
      (c : SqlCursor D) {m : Message}
      → get D c ≡ entry m
      → (rest : List Message) × (left D laws c ≡ m ∷ rest)
        × ((left D laws (next D c) ≡ rest) ⊎ (get D (next D c) ≡ broken))
  unfolding next
  left_entry c e = (
    readable (remaining c.rows),
    ap (λ x. before x (readable (remaining c.rows))) e,
    moved_left D laws c.rows c.msg (next_row c.rows) refl,
  )

  left_end : (c : SqlCursor D) → IsSoundCursor D laws c → get D c ≡ end → left D laws c ≡ []
  left_end c h e =
      ap (λ x. before x (readable (remaining c.rows))) e ∙ ap readable (h.ended e) ∙ readable-nil

  size_falls : (c : SqlCursor D) {m : Message} → get D c ≡ entry m → size D (next D c) < size D c
  unfolding size next get
  size_falls c e =
      let falls = moved-size D laws c.rows c.msg (next_row c.rows) refl in
      subst (λ n. size D (moved_to D c.msg (next_row c.rows)) < n)
        (sym (entry_size D laws c.err c.msg (row_count c.rows) e)) falls

  pub sql_laws : StoreLaws (sql_store D)
  unfolding log_message get_channel
  sql_laws = record {
    IsSound = IsSound;
    IsSoundCursor = IsSoundCursor D laws;
    Storable = IsCarried;
    contents = contents;
    left = left D laws;
    get_channel-IsSound = λ k s h. moved s (get_channel D k s).1 (get_channel-table k s) h;
    log_message-IsSound = log_message-IsSound;
    clear-IsSound = clear-IsSound;
    replay-IsSound = λ k s h. moved s (replay D k s).1 (replay-table k s) h;
    replay-IsSoundCursor = λ k s {c} h e. replay-IsSoundCursor k s h e;
    next-IsSoundCursor = λ c {m} h e. next-IsSoundCursor c h e;
    get_channel-contents = λ k j s.
        unfold contents in ap (λ (rows : Table). readable (texts j rows)) (get_channel-table k s);
    log_message-contents = log_message_lem;
    clear-contents = clear_lem;
    replay-contents = λ k j s.
        unfold contents in ap (λ (rows : Table). readable (texts j rows)) (replay-table k s);
    replay-left = λ k s {c} h e. replay-left k s e;
    get_entry = λ c {m} e. left_entry c e;
    get_end = left_end;
    size_falls = λ c {m} e. size_falls c e;
  }

  schema_works : (p : Bool × State) → p.0 ≡ false → (with_schema D p).0 ≡ false
  unfolding with_schema
  schema_works (true, db) e = e
  schema_works (false, db) e = e

  get_channel_works : IsUp D → (k : Bytes) (s : SqlStore D) → (get_channel D k s).0 ≡ false
  unfolding get_channel
  get_channel_works u k s = ground (arith, schema_works (create s.db) (u.create_works s.db))

  replay_works : IsUp D → (k : Bytes) (s : SqlStore D) → (replay D k s).0 ≢ none
  unfolding replay started
  replay_works u k s e = ground (arith, u.select_works k s.db)

  -- Over a database that never fails, no operation of the SQL store fails.
  pub sql_store-IsReliable : IsUp D → IsReliable (sql_store D) sql_laws
  unfolding log_message clear sql_laws
  sql_store-IsReliable u = record {
    get_channel_works = get_channel_works u;
    log_message_works = λ k m s. u.insert_works k (to_string m) s.db;
    clear_works = λ k s. u.delete_works k s.db;
    replay_works = replay_works u;
    get_works = λ c h. h.works u;
  }
