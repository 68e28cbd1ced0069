-- ===== src/Repository/Reference/Crud.antt =====
-- The repositories of the four reference tables, on a table, with memory to spare.
use mathlib.Core.Option
use sending_system.Base.{
  ℕ, suc, ◌≡◌, ◌≢◌, ◌⊎◌, refl, ap, Bool, true, false, ◌&&◌, ◌||◌, Option, none, some, [], ◌∷◌, map,
  arith, Bytes, ℤ, int_eq, eq_of_int_eq, if◌then◌else◌, Option-cases, Bool-cases, inl, inr,
}
use sending_system.Sqlite.{
  Statements, Sqlite, int, Row, bind_text_or_null, column, column_int64, column_text,
}
use sending_system.Sqlite.Table.{
  IsTable, find_row, full_row, find_row-append, find_row-replace, find_row-remove,
}
use sending_system.Sqlite.Runs.{run_insert-some, run_update, run_delete}
use sending_system.Sqlite.Rows.{rows}
use sending_system.Sqlite.Rows.Laws.{dup_col_lem, fetch_loop-map}
use sending_system.Database.Models.{ReferenceRow}
use sending_system.Repository.Reference.{insert, read_row, get, decode_row, get_all, update, delete}

-- The struct that a row of two columns stands for.
unfoldable pub reference_of : (E : Sqlite) → Row → ReferenceRow
unfolding column column_int64 column_text
reference_of E r = record { id = column_int64 E (column r 0); name = column_text E (column r 1) }

reference_of-bind :
    (E : Sqlite) (id : ℤ) (name : Option Bytes)
    → reference_of E (int id ∷ bind_text_or_null name ∷ []) ≡ record { id = id; name = name }
unfolding reference_of bind_text_or_null
reference_of-bind E id none = refl
reference_of-bind E id (some t) = refl

module _ (E : Sqlite) (malloc : ℕ → Bool) (ok : (n : ℕ) → malloc n ≡ true) (k : Statements) where
  read_row_lem : (r : Row) (n : ℕ) → (read_row E malloc k r n).0 ≡ reference_of E r
  unfolding read_row reference_of
  read_row_lem r n = ground (arith, dup_col_lem E malloc (column r 1) n ok)

  decode_row_lem : (r : Row) (n : ℕ) → (decode_row E malloc k r n).0 ≡ some (reference_of E r)
  unfolding decode_row
  decode_row_lem r n = ap some (read_row_lem r n)

  module _ (T : IsTable E k) where
    get_lem :
        (db : E.Db) (id : ℤ) (n : ℕ)
        → E.prepare db k.get ≡ true
        → (get E malloc k db id n).0
          ≡ Option.map (λ r. reference_of E (int id ∷ r)) (find_row id (T.view db))
    unfolding get
    get_lem db id n ready = elim (Option-cases (find_row id (T.view db))) [
      | inl absent ↦ ground (arith, T.get_rows db id)
      | inr (r, found) ↦ ground (arith, ok n, T.get_rows db id, read_row_lem (int id ∷ r) (suc n))
    ]

    -- After an insert that returned 0 with an id, `get` of that id returns the name that was
    -- inserted, and of any other id what it returned before, where SQLite meets the laws of a
    -- table, every allocation succeeds and the selects can be prepared.
    pub get-insert_reference :
        (db : E.Db) (name : Option Bytes) (j : ℤ) (n : ℕ) {id : ℤ} {db' : E.Db}
        → insert E malloc k db name ≡ (some id, db')
        → E.prepare db k.get ≡ true
        → E.prepare db' k.get ≡ true
        → (get E malloc k db' j n).0 ≡ (
            if int_eq j id
            then some (record { id = j; name = name })
            else (get E malloc k db j n).0)
    unfolding insert
    get-insert_reference db name j n {id} {db'} done ready ready' =
        let inserted = run_insert-some E k T db (bind_text_or_null name ∷ []) done in
        rw
          (
            get_lem db' j n ready',
            get_lem db j n ready,
            inserted.0,
            find_row-append (T.view db) id j (bind_text_or_null name ∷ []) inserted.1,
          )
          (elim (Bool-cases (int_eq j id)) [
            | inl same ↦ rw same (ap some (reference_of-bind E j name))
            | inr other ↦ rw other refl
          ])

    -- `update` and `delete` return 0 only if the row was there. Then `get` of the id returns the
    -- new name, or NULL; after a result -1 every row is as it was, and other rows always are,
    -- where SQLite meets the laws of a table, every allocation succeeds and the selects can be
    -- prepared.
    pub get-update_delete_reference :
        (db : E.Db) (id : ℤ) (name : Option Bytes) (j : ℤ) (n : ℕ) {updated deleted : Bool}
        {db1 db2 : E.Db}
        → update E malloc k db id name ≡ (updated, db1)
        → delete E malloc k db id ≡ (deleted, db2)
        → E.prepare db k.get ≡ true
        → E.prepare db1 k.get ≡ true
        → E.prepare db2 k.get ≡ true
        → ((get E malloc k db1 j n).0 ≡ (
            if updated && int_eq j id
            then some (record { id = j; name = name })
            else (get E malloc k db j n).0))
          × ((get E malloc k db2 j n).0
              ≡ (if deleted && int_eq j id then none else (get E malloc k db j n).0))
          × ((updated || deleted ≡ false) ⊎ ((get E malloc k db id n).0 ≢ none))
    unfolding update delete
    get-update_delete_reference db id name j n {updated} {deleted} {db1} {db2} up down ready ready1
          ready2 =
        let changed = run_update E k T db (bind_text_or_null name ∷ []) id up in
        let gone = run_delete E k T db id down in
        let before = get_lem db j n ready in
        let old = get_lem db id n ready in
        (
          ground (
            arith,
            changed,
            before,
            old,
            get_lem db1 j n ready1,
            find_row-replace (T.view db) id j (bind_text_or_null name ∷ []),
            reference_of-bind E j name,
            eq_of_int_eq j id,
          ),
          ground (arith, gone, before, get_lem db2 j n ready2, find_row-remove (T.view db) id j),
          ground (arith, changed, gone, old),
        )

    -- `get_all` returns all rows of the table, in the order of their ids, where SQLite meets the
    -- laws of a table, every allocation succeeds and the select can be prepared.
    pub get_all_reference :
        (db : E.Db) (n : ℕ)
        → E.prepare db k.get_all ≡ true
        → (get_all E malloc k db n).0 ≡ rows (map (reference_of E) (map full_row (T.view db)))
    unfolding get_all
    get_all_reference db n ready =
        rw (ready, T.get_all_rows db)
          (fetch_loop-map malloc (decode_row E malloc k) (reference_of E) ok decode_row_lem
            (map full_row (T.view db)) 0 [] n (omega arith))
