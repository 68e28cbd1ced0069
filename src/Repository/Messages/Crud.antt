-- ===== src/Repository/Messages/Crud.antt =====
-- The functions of message_repository.c by row id, on a table, with memory to spare.
use mathlib.Core.Option
use sending_system.Base.{
  ℕ, suc, ◌≡◌, ◌≢◌, ◌⊎◌, refl, ap, Bool, true, false, ◌&&◌, ◌||◌, Option, none, some, [], ◌∷◌, map,
  arith, Bytes, ℤ, int_eq, eq_of_int_eq, if◌then◌else◌, length, Option-cases, Bool-cases, inl, inr,
}
use sending_system.Sqlite.{Sqlite, int, Row, bind_text_or_null, column, column_int64, column_text}
use sending_system.Sqlite.Table.{
  IsTable, full_row, find_row, find_row-append, find_row-replace, find_row-remove,
}
use sending_system.Sqlite.Runs.{run_insert-some, run_update, run_delete}
use sending_system.Sqlite.Rows.{rows, dup_col}
use sending_system.Sqlite.Rows.Laws.{
  AllOrNothing, nothing, dup_col_lem, fetch_loop-AllOrNothing, fetch_loop-map,
}
use sending_system.Database.Models.{Message}
use sending_system.Repository.Messages.{
  message_sql, bind_message, read_message, row_to_message, message_insert, message_get,
  message_get_all, message_update, message_delete,
}

-- A message to be stored, and the struct that reads it back under an id.
abbrev pub stored : ℤ → Message → Message
stored id m = record m { id = id }

abbrev pub columns_of : Message → Row
columns_of m =
    bind_message m.connection_id m.message_status_id m.message_type_id m.direction_id m.response
      m.sending_time m.request

-- The struct that a row of eight columns stands for.
unfoldable pub message_from : (E : Sqlite) → Row → Message
unfolding column column_int64 column_text
message_from E r = record {
  id = column_int64 E (column r 0);
  connection_id = column_int64 E (column r 1);
  message_status_id = column_int64 E (column r 2);
  message_type_id = column_int64 E (column r 3);
  direction_id = column_int64 E (column r 4);
  response = column_text E (column r 5);
  sending_time = column_text E (column r 6);
  request = column_text E (column r 7);
}

text-bind_text_or_null : (E : Sqlite) (o : Option Bytes) → column_text E (bind_text_or_null o) ≡ o
unfolding column_text bind_text_or_null
text-bind_text_or_null E none = refl
text-bind_text_or_null E (some t) = refl

-- What an insert binds is what a select reads.
pub message_from-columns :
    (E : Sqlite) (id : ℤ) (m : Message) → message_from E (int id ∷ columns_of m) ≡ stored id m
unfolding message_from bind_message
message_from-columns E id m = ground (
  arith,
  text-bind_text_or_null E m.response,
  text-bind_text_or_null E m.sending_time,
  text-bind_text_or_null E m.request,
)

-- Whatever allocations fail, `message_get_all` returns an array of as many messages as the query
-- has rows, or NULL; it never writes past the end of the array.
pub message_get_all-AllOrNothing :
    (E : Sqlite) (malloc : ℕ → Bool) (db : E.Db) (n : ℕ)
    → let messages = E.query db message_sql.get_all [] in
      AllOrNothing [] (length messages) (message_get_all E malloc db n).0
unfolding message_get_all
message_get_all-AllOrNothing E malloc db n = elim (Bool-cases (E.prepare db message_sql.get_all)) [
  | inr unready ↦ rw unready nothing
  | inl ready ↦ rw ready (
      fetch_loop-AllOrNothing malloc (row_to_message E malloc) (E.query db message_sql.get_all []) 0
        [] n (omega arith))
]

module _ (E : Sqlite) (malloc : ℕ → Bool) (ok : (n : ℕ) → malloc n ≡ true) where
  read_message_lem : (r : Row) (n : ℕ) → (read_message E malloc r n).0 ≡ message_from E r
  unfolding read_message message_from
  read_message_lem r n =
      let n1 = (dup_col E malloc (column r 5) n).1 in
      let n2 = (dup_col E malloc (column r 6) n1).1 in
      ground (
        arith,
        dup_col_lem E malloc (column r 5) n ok,
        dup_col_lem E malloc (column r 6) n1 ok,
        dup_col_lem E malloc (column r 7) n2 ok,
      )

  pub row_to_message_lem :
      (r : Row) (n : ℕ) → (row_to_message E malloc r n).0 ≡ some (message_from E r)
  unfolding row_to_message
  row_to_message_lem r n = rw (ok n) (ap some (read_message_lem r (suc n)))

  -- SELECT by id, as a view of the table.
  message_get_lem :
      (T : IsTable E message_sql) (db : E.Db) (id : ℤ) (n : ℕ)
      → E.prepare db message_sql.get ≡ true
      → (message_get E malloc db id n).0
        ≡ Option.map (λ r. message_from E (int id ∷ r)) (find_row id (T.view db))
  unfolding message_get
  message_get_lem T db id n ready = elim (Option-cases (find_row id (T.view db))) [
    | inl absent ↦ ground (arith, T.get_rows db id)
    | inr (r, found) ↦ ground (arith, T.get_rows db id, row_to_message_lem (int id ∷ r) n)
  ]

  module _ (T : IsTable E message_sql) where
    -- After `message_insert` returned 0 with an id, `message_get` of that id returns the message
    -- that was inserted, with its NULLs, and of any other id what it returned before, where SQLite
    -- meets the laws of a table, every allocation succeeds and the selects can be prepared.
    pub message_get-insert :
        (db : E.Db) (m : Message) (j : ℤ) (n : ℕ) {id : ℤ} {db' : E.Db}
        → message_insert E malloc db m.connection_id m.message_status_id m.message_type_id
            m.direction_id m.response m.sending_time m.request
          ≡ (some id, db')
        → E.prepare db message_sql.get ≡ true
        → E.prepare db' message_sql.get ≡ true
        → (message_get E malloc db' j n).0
          ≡ (if int_eq j id then some (stored j m) else (message_get E malloc db j n).0)
    unfolding message_insert
    message_get-insert db m j n {id} {db'} done ready ready' =
        let inserted = run_insert-some E message_sql T db (columns_of m) done in
        rw
          (
            message_get_lem T db' j n ready',
            message_get_lem T db j n ready,
            inserted.0,
            find_row-append (T.view db) id j (columns_of m) inserted.1,
          )
          (elim (Bool-cases (int_eq j id)) [
            | inl same ↦ rw same (ap some (message_from-columns E j m))
            | inr other ↦ rw other refl
          ])

    -- `message_update` and `message_delete` return 0 only if the row was there. Then `message_get`
    -- of the id returns the new message, or NULL; after a result -1 every row is as it was, and
    -- other rows always are, where SQLite meets the laws of a table, every allocation succeeds and
    -- the selects can be prepared.
    pub message_get-update_delete :
        (db : E.Db) (id : ℤ) (m : Message) (j : ℤ) (n : ℕ) {updated deleted : Bool} {db1 db2 : E.Db}
        → message_update E malloc db id m.connection_id m.message_status_id m.message_type_id
            m.direction_id m.response m.sending_time m.request
          ≡ (updated, db1)
        → message_delete E malloc db id ≡ (deleted, db2)
        → E.prepare db message_sql.get ≡ true
        → E.prepare db1 message_sql.get ≡ true
        → E.prepare db2 message_sql.get ≡ true
        → ((message_get E malloc db1 j n).0 ≡ (
            if updated && int_eq j id then some (stored j m) else (message_get E malloc db j n).0))
          × ((message_get E malloc db2 j n).0
              ≡ (if deleted && int_eq j id then none else (message_get E malloc db j n).0))
          × ((updated || deleted ≡ false) ⊎ ((message_get E malloc db id n).0 ≢ none))
    unfolding message_update message_delete bind_message
    message_get-update_delete db id m j n {updated} {deleted} {db1} {db2} up down ready ready1
          ready2 =
        let changed = run_update E message_sql T db (columns_of m) id up in
        let gone = run_delete E message_sql T db id down in
        let before = message_get_lem T db j n ready in
        let old = message_get_lem T db id n ready in
        (
          ground (
            arith,
            changed,
            before,
            old,
            message_get_lem T db1 j n ready1,
            find_row-replace (T.view db) id j (columns_of m),
            message_from-columns E j m,
            eq_of_int_eq j id,
          ),
          ground (
            arith,
            gone,
            before,
            message_get_lem T db2 j n ready2,
            find_row-remove (T.view db) id j,
          ),
          ground (arith, changed, gone, old),
        )

    -- `message_get_all` returns all rows of the table, in the order of their ids.
    pub message_get_all_lem :
        (db : E.Db) (n : ℕ)
        → E.prepare db message_sql.get_all ≡ true
        → (message_get_all E malloc db n).0 ≡ rows (map (message_from E) (map full_row (T.view db)))
    unfolding message_get_all
    message_get_all_lem db n ready =
        rw (ready, T.get_all_rows db)
          (fetch_loop-map malloc (row_to_message E malloc) (message_from E) ok row_to_message_lem
            (map full_row (T.view db)) 0 [] n (omega arith))
