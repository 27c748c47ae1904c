-- ===== src/Storage/Sql/Meets/Remade.antt =====
-- The SQL store as its laws describe it, and one that `NewStore` makes over a database that another
-- store has used, or none.
use mathlib.Core.Path.{subst}
use irc_idler.Prelude.{Bytes, [], All, ◌≡◌, refl, sym, ap, ◌∙◌}
use irc_idler.Irc.Message.{Message}
use irc_idler.Irc.Reader.Stream.{IsCarried}
use irc_idler.Storage.Holds.{Holds}
use irc_idler.Storage.Laws.{StoreLaws, IsReliable}
use irc_idler.Storage.Sql.{Database, SqlStore, new_store, sql_store}
use irc_idler.Storage.Sql.Rows.{Table, texts, DatabaseLaws, IsUp, readable, readable-nil, IsRow}
use irc_idler.Storage.Sql.Meets.{contents, IsSound, sql_laws, sql_store-IsReliable}

module _ (D : Database) (laws : DatabaseLaws D) where
  open D use {State}
  open laws use {table}

  texts_none : (k : Bytes) → readable (texts k []) ≡ []
  unfolding texts
  texts_none k = readable-nil

  -- A new store over the database of another has its logs.
  pub remade-Holds :
      (Q : Message → Type 0) (s : SqlStore D)
      → Holds (sql_laws D laws) Q s
      → Holds (sql_laws D laws) Q (new_store D s.db)
  unfolding sql_laws contents new_store IsSound
  remade-Holds Q s h = record { sound = h.sound; every = h.every }

  -- Over an empty table there is none.
  pub empty-Holds :
      (Q : Message → Type 0) (db : State)
      → table db ≡ []
      → Holds (sql_laws D laws) Q (new_store D db)
  unfolding sql_laws contents new_store IsSound
  empty-Holds Q db e = record {
    sound = subst (All (λ r. IsRow r.1)) (sym e) tt;
    every = λ k.
        subst (All Q) (sym (ap (λ (rows : Table). readable (texts k rows)) e ∙ texts_none k)) tt;
  }

  -- The messages that it can store are those that a connection carries.
  pub stores_carried : {m : Message} → IsCarried m → (sql_laws D laws).Storable m
  unfolding sql_laws
  stores_carried h = h

  pub new_store-contents :
      (db : State) (k : Bytes)
      → (sql_laws D laws).contents (new_store D db) k ≡ readable (texts k (table db))
  unfolding sql_laws contents new_store
  new_store-contents db k = refl

  -- With a database that keeps its laws, the SQL store keeps the laws of a store, with the
  -- messages that are read from a channel's rows as its log. It stores each message that a
  -- connection carries, and over an empty table it starts in a sound state; over a database that
  -- never fails, no operation fails.
  pub sql_store-StoreLaws :
      (laws' : StoreLaws (sql_store D)) × ((s : SqlStore D) (k : Bytes)
        → laws'.contents s k ≡ readable (texts k (table s.db)))
      × ((m : Message) → IsCarried m → laws'.Storable m)
      × ((db : State) → table db ≡ [] → laws'.IsSound (new_store D db))
      × (IsUp D → IsReliable (sql_store D) laws')
  unfolding sql_laws contents
  sql_store-StoreLaws = (
    sql_laws D laws,
    λ s k. refl,
    λ m carried. carried,
    λ db none_yet. (empty-Holds (λ m. Unit) db none_yet).sound,
    sql_store-IsReliable D laws,
  )
