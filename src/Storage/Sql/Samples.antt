-- ===== src/Storage/Sql/Samples.antt =====
-- A database in memory, which keeps its laws.
use irc_idler.Prelude.{
  ◌<◌, Bytes, Bool, true, false, Option, none, some, List, [], ◌∷◌, ◌++◌, ◌≡◌, refl, arith, length,
}
use irc_idler.Storage.Sql.{Database}
use irc_idler.Storage.Sql.Rows.{Table, texts, without, DatabaseLaws}

-- The text that the cursor stands at, and those behind it.
abbrev MemRows : Type 0
MemRows = Option Bytes × List Bytes

abbrev next_mem : MemRows → Bool × MemRows
next_mem (at, []) = (false, (none, []))
next_mem (at, t ∷ ts) = (true, (some t, ts))

abbrev pub mem_db : Database
mem_db = record {
  State = Table;
  Rows = MemRows;
  create = λ s. (false, s);
  insert = λ k t s. (false, s ++ (k, t) ∷ []);
  delete = λ k s. (false, without k s);
  select = λ k s. (some (none, texts k s), s);
  next_row = next_mem;
  rows_err = λ r. false;
  scan = λ r. r.0;
  row_count = λ r. length r.1;
}

pub next_mem_lem :
    (r : MemRows)
    → (next_mem r).0 ≡ true
    → (t : Bytes) × (r.1 ≡ t ∷ (next_mem r).1.1)
      × ((t' : Bytes) → (next_mem r).1.0 ≡ some t' → t' ≡ t)
next_mem_lem (at, []) e = cc
next_mem_lem (at, t ∷ ts) e = (t, refl, λ t' s. cc s)

pub next_mem_count : (r : MemRows) → (next_mem r).0 ≡ true → length (next_mem r).1.1 < length r.1
next_mem_count (at, []) e = cc
next_mem_count (at, t ∷ ts) e = omega arith

pub next_mem_end : (r : MemRows) → (next_mem r).0 ≡ false → (r.1 ≡ []) × ((next_mem r).1.1 ≡ [])
next_mem_end (at, []) e = (refl, refl)
next_mem_end (at, t ∷ ts) e = cc

unfoldable pub mem_db_laws : DatabaseLaws mem_db
mem_db_laws = record {
  table = λ s. s;
  remaining = λ r. r.1;
  create-table = λ s. refl;
  insert-table = λ k t s. refl;
  delete-table = λ k s. refl;
  select-table = λ k s. refl;
  select-remaining = λ k s {r} e. cc e;
  next_row-remaining = next_mem_lem;
  next_row-count = next_mem_count;
  next_row_end = λ r e f. next_mem_end r e;
}
