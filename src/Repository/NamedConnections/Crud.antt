-- ===== src/Repository/NamedConnections/Crud.antt =====
-- The functions of named_connection_repository.c, on a table, with memory to spare.
use mathlib.Core.Option
use sending_system.Base.{
  ℕ, suc, ◌≡◌, ◌∙◌, ◌≢◌, ◌⊎◌, refl, ap, Bool, true, false, ◌&&◌, ◌||◌, Option, none, some, [], ◌∷◌,
  map, arith, Bytes, ℤ, int_eq, eq_of_int_eq, if◌then◌else◌, Option-cases, Bool-cases, inl, inr,
}
use sending_system.Sqlite.{Sqlite, int, Row, bind_text_or_null, column, column_int64, column_text}
use sending_system.Sqlite.Table.{
  IsTable, find_row, full_row, find_row-append, find_row-replace, find_row-remove,
}
use sending_system.Sqlite.Runs.{run_insert-some, run_update, run_delete}
use sending_system.Sqlite.Rows.{rows}
use sending_system.Sqlite.Rows.Laws.{dup_col_lem, fetch_loop-map}
use sending_system.Database.Models.{NamedConnection}
use sending_system.Repository.NamedConnections.{
  named_connection_sql, named_connection_insert, read_named, named_connection_get, decode_named,
  named_connection_get_all, named_connection_update, named_connection_delete,
}

abbrev pub named : ℤ → Option Bytes → ℤ → NamedConnection
named id name connection_id = record { id = id; name = name; connection_id = connection_id }

-- The struct that a row of three columns stands for.
unfoldable pub named_of : (E : Sqlite) → Row → NamedConnection
unfolding column column_int64 column_text
named_of E r =
    named (column_int64 E (column r 0)) (column_text E (column r 1)) (column_int64 E (column r 2))

abbrev bound : Option Bytes → ℤ → Row
bound name connection_id = bind_text_or_null name ∷ int connection_id ∷ []

named_of-bound :
    (E : Sqlite) (id : ℤ) (name : Option Bytes) (connection_id : ℤ)
    → named_of E (int id ∷ bound name connection_id) ≡ named id name connection_id
unfolding named_of bind_text_or_null
named_of-bound E id none connection_id = refl
named_of-bound E id (some t) connection_id = refl

module _ (E : Sqlite) (malloc : ℕ → Bool) (ok : (n : ℕ) → malloc n ≡ true) where
  read_named_lem : (r : Row) (n : ℕ) → (read_named E malloc r n).0 ≡ named_of E r
  unfolding read_named named_of
  read_named_lem r n = ground (arith, dup_col_lem E malloc (column r 1) n ok)

  decode_named_lem : (r : Row) (n : ℕ) → (decode_named E malloc r n).0 ≡ some (named_of E r)
  unfolding decode_named
  decode_named_lem r n = ap some (read_named_lem r n)

  module _ (T : IsTable E named_connection_sql) where
    named_get_lem :
        (db : E.Db) (id : ℤ) (n : ℕ)
        → E.prepare db named_connection_sql.get ≡ true
        → (named_connection_get E malloc db id n).0
          ≡ Option.map (λ r. named_of E (int id ∷ r)) (find_row id (T.view db))
    unfolding named_connection_get
    named_get_lem db id n ready = elim (Option-cases (find_row id (T.view db))) [
      | inl absent ↦ ground (arith, T.get_rows db id)
      | inr (r, found) ↦ ground (arith, ok n, T.get_rows db id, read_named_lem (int id ∷ r) (suc n))
    ]

    -- After `named_connection_insert` returned 0 with an id, `named_connection_get` of that id
    -- returns what was inserted, and of any other id what it returned before, where SQLite meets
    -- the laws of a table, every allocation succeeds and the selects can be prepared.
    named_connection_get-insert :
        (db : E.Db) (name : Option Bytes) (connection_id j : ℤ) (n : ℕ) {id : ℤ} {db' : E.Db}
        → named_connection_insert E malloc db name connection_id ≡ (some id, db')
        → E.prepare db named_connection_sql.get ≡ true
        → E.prepare db' named_connection_sql.get ≡ true
        → (named_connection_get E malloc db' j n).0 ≡ (
            if int_eq j id
            then some (named j name connection_id)
            else (named_connection_get E malloc db j n).0)
    unfolding named_connection_insert
    named_connection_get-insert db name connection_id j n {id} {db'} done ready ready' =
        let inserted =
          run_insert-some E named_connection_sql T db (bound name connection_id) done in
        rw
          (
            named_get_lem db' j n ready',
            named_get_lem db j n ready,
            inserted.0,
            find_row-append (T.view db) id j (bound name connection_id) inserted.1,
          )
          (elim (Bool-cases (int_eq j id)) [
            | inl same ↦ rw same (ap some (named_of-bound E j name connection_id))
            | inr other ↦ rw other refl
          ])

    -- `named_connection_update` and `named_connection_delete` return 0 only if the row was there.
    -- Then `named_connection_get` of the id returns the new row, or NULL; after a result -1 every
    -- row is as it was, and other rows always are, where SQLite meets the laws of a table, every
    -- allocation succeeds and the selects can be prepared.
    named_connection_get-update_delete :
        (db : E.Db) (id : ℤ) (name : Option Bytes) (connection_id j : ℤ) (n : ℕ)
        {updated deleted : Bool} {db1 db2 : E.Db}
        → named_connection_update E malloc db id name connection_id ≡ (updated, db1)
        → named_connection_delete E malloc db id ≡ (deleted, db2)
        → E.prepare db named_connection_sql.get ≡ true
        → E.prepare db1 named_connection_sql.get ≡ true
        → E.prepare db2 named_connection_sql.get ≡ true
        → ((named_connection_get E malloc db1 j n).0 ≡ (
            if updated && int_eq j id
            then some (named j name connection_id)
            else (named_connection_get E malloc db j n).0))
          × ((named_connection_get E malloc db2 j n).0
              ≡ (if deleted && int_eq j id then none else (named_connection_get E malloc db j n).0))
          × ((updated || deleted ≡ false) ⊎ ((named_connection_get E malloc db id n).0 ≢ none))
    unfolding named_connection_update named_connection_delete
    named_connection_get-update_delete db id name connection_id j n {updated} {deleted} {db1} {db2}
          up down ready ready1 ready2 =
        let vs = bound name connection_id in
        let changed = run_update E named_connection_sql T db vs id up in
        let gone = run_delete E named_connection_sql T db id down in
        let before = named_get_lem db j n ready in
        let old = named_get_lem db id n ready in
        (
          ground (
            arith,
            changed,
            before,
            old,
            named_get_lem db1 j n ready1,
            find_row-replace (T.view db) id j vs,
            named_of-bound E j name connection_id,
            eq_of_int_eq j id,
          ),
          ground
              (arith, gone, before, named_get_lem db2 j n ready2, find_row-remove (T.view db) id j),
          ground (arith, changed, gone, old),
        )

    -- `named_connection_insert`, `named_connection_update` and `named_connection_delete` return 0 only
    -- with a new row, or if the row was there. Then `named_connection_get` of the id returns what was
    -- inserted, the new row, or NULL; after a result -1 of the last two every row is as it was, and
    -- other rows always are, where SQLite meets the laws of a table, every allocation succeeds and
    -- the selects can be prepared.
    pub named_connection_get-changed :
        (db : E.Db) (id : ℤ) (name : Option Bytes) (connection_id j : ℤ) (n : ℕ) {new : ℤ}
        {updated deleted : Bool} {db0 db1 db2 : E.Db}
        → named_connection_insert E malloc db name connection_id ≡ (some new, db0)
        → named_connection_update E malloc db id name connection_id ≡ (updated, db1)
        → named_connection_delete E malloc db id ≡ (deleted, db2)
        → E.prepare db named_connection_sql.get ≡ true
        → E.prepare db0 named_connection_sql.get ≡ true
        → E.prepare db1 named_connection_sql.get ≡ true
        → E.prepare db2 named_connection_sql.get ≡ true
        → ((named_connection_get E malloc db0 j n).0 ≡ (
            if int_eq j new
            then some (named j name connection_id)
            else (named_connection_get E malloc db j n).0))
          × ((named_connection_get E malloc db new n).0 ≡ none)
          × ((named_connection_get E malloc db1 j n).0 ≡ (
              if updated && int_eq j id
              then some (named j name connection_id)
              else (named_connection_get E malloc db j n).0))
          × ((named_connection_get E malloc db2 j n).0
              ≡ (if deleted && int_eq j id then none else (named_connection_get E malloc db j n).0))
          × ((updated || deleted ≡ false) ⊎ ((named_connection_get E malloc db id n).0 ≢ none))
    unfolding named_connection_insert
    named_connection_get-changed db id name connection_id j n {new} put up down ready ready0 ready1
          ready2 =
        let inserted = run_insert-some E named_connection_sql T db (bound name connection_id) put in
        let changed =
          named_connection_get-update_delete db id name connection_id j n up down ready ready1
            ready2 in
        (
          named_connection_get-insert db name connection_id j n put ready ready0,
          named_get_lem db new n ready ∙ ap (Option.map (λ r. named_of E (int new ∷ r))) inserted.1,
          changed.0,
          changed.1,
          changed.2,
        )

    -- `named_connection_get_all` returns all rows of the table, in the order of their ids, where
    -- SQLite meets the laws of a table, every allocation succeeds and the select can be prepared.
    pub named_connection_get_all_lem :
        (db : E.Db) (n : ℕ)
        → E.prepare db named_connection_sql.get_all ≡ true
        → (named_connection_get_all E malloc db n).0
          ≡ rows (map (named_of E) (map full_row (T.view db)))
    unfolding named_connection_get_all
    named_connection_get_all_lem db n ready =
        rw (ready, T.get_all_rows db)
          (fetch_loop-map malloc (decode_named E malloc) (named_of E) ok decode_named_lem
            (map full_row (T.view db)) 0 [] n (omega arith))
