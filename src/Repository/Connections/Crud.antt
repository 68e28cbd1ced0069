-- ===== src/Repository/Connections/Crud.antt =====
-- The functions of connection_repository.c by row id, on a table, with memory to spare.
use mathlib.Core.Option
use sending_system.Base.{
  ℕ, suc, ◌≡◌, refl, ap, ◌⊎◌, ◌≢◌, ◌&&◌, ◌||◌, Bool, true, false, Option, none, some, [], ◌∷◌, map,
  arith, Bytes, ℤ, int_eq, eq_of_int_eq, FitsInt, to_int32, to_int32_fits, if◌then◌else◌,
  Option-cases, Bool-cases, inl, inr,
}
use sending_system.Sqlite.{Sqlite, int, Row, column, column_int64, column_text}
use sending_system.Sqlite.Table.{
  IsTable, find_row, full_row, find_row-append, find_row-replace, find_row-remove,
}
use sending_system.Sqlite.Runs.{run_insert-some, run_update, run_delete}
use sending_system.Sqlite.Rows.{rows}
use sending_system.Sqlite.Rows.Laws.{dup_col_lem, fetch_loop-map}
use sending_system.Database.Models.{Connection}
use sending_system.Repository.Connections.{
  connection_sql, bind_peer, connection_insert, read_connection, connection_get, decode_connection,
  connection_get_all, connection_update, connection_delete,
}

-- A peer whose numbers are `int`s, as every caller's are.
abbrev pub FitPeer : ℤ → ℤ → ℤ → Type 0
FitPeer port ssl role_id = FitsInt port × FitsInt ssl × FitsInt role_id

abbrev pub peer_row : ℤ → Option Bytes → ℤ → ℤ → ℤ → Connection
peer_row id ip port ssl role_id = record {
  id = id;
  ip = ip;
  port = port;
  is_ssl_encrypted = ssl;
  role_id = role_id;
}

module _ (E : Sqlite) where
  -- The struct that a row of five columns stands for.
  unfoldable pub connection_of : Row → Connection
  unfolding column column_int64 column_text
  connection_of r = record {
    id = column_int64 E (column r 0);
    ip = column_text E (column r 1);
    port = to_int32 (column_int64 E (column r 2));
    is_ssl_encrypted = to_int32 (column_int64 E (column r 3));
    role_id = to_int32 (column_int64 E (column r 4));
  }

-- What an insert binds is what a select reads.
connection_of-bind_peer :
    (E : Sqlite) (id : ℤ) (ip : Option Bytes) (port ssl role_id : ℤ)
    → FitPeer port ssl role_id
    → connection_of E (int id ∷ bind_peer ip port ssl role_id) ≡ peer_row id ip port ssl role_id
unfolding connection_of bind_peer
connection_of-bind_peer E id none port ssl role_id (fp, fs, fr) = rw (
  to_int32_fits role_id fr,
  to_int32_fits port fp,
  to_int32_fits ssl fs,
  to_int32_fits role_id fr,
)
connection_of-bind_peer E id (some t) port ssl role_id (fp, fs, fr) = rw (
  to_int32_fits role_id fr,
  to_int32_fits port fp,
  to_int32_fits ssl fs,
  to_int32_fits role_id fr,
)

module _ (E : Sqlite) (malloc : ℕ → Bool) (ok : (n : ℕ) → malloc n ≡ true) where
  read_connection_lem : (r : Row) (n : ℕ) → (read_connection E malloc r n).0 ≡ connection_of E r
  unfolding read_connection connection_of
  read_connection_lem r n = ground (arith, dup_col_lem E malloc (column r 1) n ok)

  decode_connection_lem :
      (r : Row) (n : ℕ) → (decode_connection E malloc r n).0 ≡ some (connection_of E r)
  unfolding decode_connection
  decode_connection_lem r n = ap some (read_connection_lem r n)

  -- SELECT by id, as a view of the table.
  pub connection_get_lem :
      (T : IsTable E connection_sql) (db : E.Db) (id : ℤ) (n : ℕ)
      → E.prepare db connection_sql.get ≡ true
      → (connection_get E malloc db id n).0
        ≡ Option.map (λ r. connection_of E (int id ∷ r)) (find_row id (T.view db))
  unfolding connection_get
  connection_get_lem T db id n ready = elim (Option-cases (find_row id (T.view db))) [
    | inl absent ↦ ground (arith, T.get_rows db id)
    | inr (r, found) ↦
        ground (arith, ok n, T.get_rows db id, read_connection_lem (int id ∷ r) (suc n))
  ]

  module _ (T : IsTable E connection_sql) where
    -- After `connection_insert` returned 0 with an id, `connection_get` of that id returns the
    -- peer that was inserted, and of any other id what it returned before, where SQLite meets the
    -- laws of a table, every allocation succeeds and the selects can be prepared, and the numbers
    -- of the peer fit an `int`.
    pub connection_get-insert :
        (db : E.Db) (ip : Option Bytes) (port ssl role_id j : ℤ) (n : ℕ) {id : ℤ} {db' : E.Db}
        → connection_insert E malloc db ip port ssl role_id ≡ (some id, db')
        → FitPeer port ssl role_id
        → E.prepare db connection_sql.get ≡ true
        → E.prepare db' connection_sql.get ≡ true
        → (connection_get E malloc db' j n).0 ≡ (
            if int_eq j id
            then some (peer_row j ip port ssl role_id)
            else (connection_get E malloc db j n).0)
    unfolding connection_insert connection_of
    connection_get-insert db ip port ssl role_id j n {id} {db'} done fits ready ready' =
        let inserted = run_insert-some E connection_sql T db (bind_peer ip port ssl role_id) done in
        rw
          (
            connection_get_lem T db' j n ready',
            connection_get_lem T db j n ready,
            inserted.0,
            find_row-append (T.view db) id j (bind_peer ip port ssl role_id) inserted.1,
          )
          (elim (Bool-cases (int_eq j id)) [
            | inl same ↦ rw same (ap some (connection_of-bind_peer E j ip port ssl role_id fits))
            | inr other ↦ rw other refl
          ])

    -- `connection_delete` returns 0 only if the row was there. Then `connection_get` of the id
    -- returns NULL; after a result -1 every row is as it was, and other rows always are, where
    -- SQLite meets the laws of a table, every allocation succeeds and the selects can be prepared.
    connection_get-delete :
        (db : E.Db) (id j : ℤ) (n : ℕ) {deleted : Bool} {db' : E.Db}
        → connection_delete E malloc db id ≡ (deleted, db')
        → E.prepare db connection_sql.get ≡ true
        → E.prepare db' connection_sql.get ≡ true
        → ((connection_get E malloc db' j n).0
            ≡ (if deleted && int_eq j id then none else (connection_get E malloc db j n).0))
          × ((deleted ≡ false) ⊎ ((connection_get E malloc db id n).0 ≢ none))
    unfolding connection_delete
    connection_get-delete db id j n {deleted} {db'} done ready ready' =
        let gone = run_delete E connection_sql T db id done in
        ground (
          arith,
          gone,
          connection_get_lem T db' j n ready',
          connection_get_lem T db j n ready,
          connection_get_lem T db id n ready,
          find_row-remove (T.view db) id j,
        )

    -- `connection_update` returns 0 only if the row was there. Then `connection_get` of the id
    -- returns the new peer; after a result -1 every row is as it was, and other rows always are,
    -- where SQLite meets the laws of a table, every allocation succeeds and the selects can be
    -- prepared, and the numbers of the peer fit an `int`.
    connection_get-update :
        (db : E.Db) (id : ℤ) (ip : Option Bytes) (port ssl role_id j : ℤ) (n : ℕ) {updated : Bool}
        {db' : E.Db}
        → connection_update E malloc db id ip port ssl role_id ≡ (updated, db')
        → FitPeer port ssl role_id
        → E.prepare db connection_sql.get ≡ true
        → E.prepare db' connection_sql.get ≡ true
        → ((connection_get E malloc db' j n).0 ≡ (
            if updated && int_eq j id
            then some (peer_row j ip port ssl role_id)
            else (connection_get E malloc db j n).0))
          × ((updated ≡ false) ⊎ ((connection_get E malloc db id n).0 ≢ none))
    unfolding connection_update bind_peer
    connection_get-update db id ip port ssl role_id j n {updated} {db'} done fits ready ready' =
        let changed = run_update E connection_sql T db (bind_peer ip port ssl role_id) id done in
        ground (
          arith,
          changed,
          connection_get_lem T db' j n ready',
          connection_get_lem T db j n ready,
          connection_get_lem T db id n ready,
          find_row-replace (T.view db) id j (bind_peer ip port ssl role_id),
          connection_of-bind_peer E j ip port ssl role_id fits,
          eq_of_int_eq j id,
        )

    -- `connection_update` and `connection_delete` return 0 only if the row was there. Then
    -- `connection_get` of the id returns the new peer, or NULL; after a result -1 every row is as it
    -- was, and other rows always are, where SQLite meets the laws of a table, every allocation
    -- succeeds and the selects can be prepared, and the numbers of the peer fit an `int`.
    pub connection_get-update_delete :
        (db : E.Db) (id : ℤ) (ip : Option Bytes) (port ssl role_id j : ℤ) (n : ℕ)
        {updated deleted : Bool} {db1 db2 : E.Db}
        → connection_update E malloc db id ip port ssl role_id ≡ (updated, db1)
        → connection_delete E malloc db id ≡ (deleted, db2)
        → FitPeer port ssl role_id
        → E.prepare db connection_sql.get ≡ true
        → E.prepare db1 connection_sql.get ≡ true
        → E.prepare db2 connection_sql.get ≡ true
        → ((connection_get E malloc db1 j n).0 ≡ (
            if updated && int_eq j id
            then some (peer_row j ip port ssl role_id)
            else (connection_get E malloc db j n).0))
          × ((connection_get E malloc db2 j n).0
              ≡ (if deleted && int_eq j id then none else (connection_get E malloc db j n).0))
          × ((updated || deleted ≡ false) ⊎ ((connection_get E malloc db id n).0 ≢ none))
    connection_get-update_delete db id ip port ssl role_id j n up down fits ready ready1 ready2 =
        let changed = connection_get-update db id ip port ssl role_id j n up fits ready ready1 in
        let gone = connection_get-delete db id j n down ready ready2 in
        (changed.0, gone.0, ground (arith, changed.1, gone.1))

    -- `connection_get_all` returns all rows of the table, in the order of their ids, where SQLite
    -- meets the laws of a table, every allocation succeeds and the select can be prepared.
    pub connection_get_all_lem :
        (db : E.Db) (n : ℕ)
        → E.prepare db connection_sql.get_all ≡ true
        → (connection_get_all E malloc db n).0
          ≡ rows (map (connection_of E) (map full_row (T.view db)))
    unfolding connection_get_all
    connection_get_all_lem db n ready =
        rw (ready, T.get_all_rows db)
          (fetch_loop-map malloc (decode_connection E malloc) (connection_of E) ok
            decode_connection_lem (map full_row (T.view db)) 0 [] n (omega arith))
