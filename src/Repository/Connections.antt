-- ===== src/Repository/Connections.antt =====
-- database/connection_repository.c
pub mod Crud
pub mod Index
pub mod Peers
use sending_system.Base.{
  ℕ, suc, String, Bool, true, false, Option, none, some, List, [], ◌∷◌, Bytes, ℤ, minus_one,
  is_nonneg, to_int32, if◌then◌else◌,
}
use sending_system.Sqlite.{
  Statements, Sqlite, Value, int, Row, bind_text_or_null, column, column_int64, run_insert,
  run_change, first_row,
}
use sending_system.Sqlite.Rows.{Alloc, Fetched, dup_col, fetch_all}
use sending_system.Database.Models.{Connection}

abbrev pub connection_sql : Statements
connection_sql = record {
  insert = "INSERT INTO Connection(ip, port, isSSLEncrypted, roleId) VALUES(?,?,?,?)";
  get = "SELECT id, ip, port, isSSLEncrypted, roleId FROM Connection WHERE id=?";
  get_all = "SELECT id, ip, port, isSSLEncrypted, roleId FROM Connection ORDER BY id";
  update = "UPDATE Connection SET ip=?, port=?, isSSLEncrypted=?, roleId=? WHERE id=?";
  delete = "DELETE FROM Connection WHERE id=?";
}

abbrev pub k_find : String
k_find = "SELECT id FROM Connection WHERE ip=? AND port=? AND isSSLEncrypted=? AND roleId=?"

-- The four columns that the functions bind. `port` and `ssl` are `int`; `role_id` is bound by
-- `sqlite3_bind_int` and so converted to `int`.
unfoldable pub bind_peer : Option Bytes → ℤ → ℤ → ℤ → Row
unfolding bind_text_or_null
bind_peer ip port ssl role_id =
    bind_text_or_null ip ∷ int port ∷ int ssl ∷ int (to_int32 role_id) ∷ []

module _ (E : Sqlite) (malloc : ℕ → Bool) where
  unfoldable pub connection_insert : E.Db → Option Bytes → ℤ → ℤ → ℤ → Option ℤ × E.Db
  unfolding bind_peer run_insert
  connection_insert db ip port ssl role_id =
      run_insert E db connection_sql.insert (bind_peer ip port ssl role_id)

  unfoldable pub read_connection : Row → Alloc Connection
  unfolding column column_int64 dup_col
  read_connection r n =
      let (ip, m) = dup_col E malloc (column r 1) n in
      (
        record {
          id = column_int64 E (column r 0);
          ip = ip;
          port = to_int32 (column_int64 E (column r 2));
          is_ssl_encrypted = to_int32 (column_int64 E (column r 3));
          role_id = to_int32 (column_int64 E (column r 4));
        },
        m,
      )

  unfoldable pub connection_get : E.Db → ℤ → Alloc (Option Connection)
  unfolding first_row read_connection
  connection_get db id n = elim (first_row E db connection_sql.get (int id ∷ [])) [
    | none ↦ (none, n)
    | some r ↦
        let (out, m) = read_connection r (suc n) in
        if malloc n then (some out, m) else (none, suc n)
  ]

  unfoldable pub decode_connection : Row → Alloc (Option Connection)
  unfolding read_connection
  decode_connection r n = let (row, m) = read_connection r n in (some row, m)

  unfoldable pub connection_get_all : E.Db → Alloc (Fetched Connection)
  unfolding decode_connection fetch_all
  connection_get_all db = fetch_all malloc decode_connection E db connection_sql.get_all []

  -- The id of the row that `k_find` finds, -1 if there is none.
  unfoldable pub found_id : Option Row → ℤ
  unfolding column column_int64
  found_id none = minus_one
  found_id (some r) = column_int64 E (column r 0)

  -- The insert at the end, and its result.
  unfoldable pub create_connection : E.Db → Option Bytes → ℤ → ℤ → ℤ → ℤ × E.Db
  unfolding connection_insert
  create_connection db ip port ssl role_id =
      let (created, db') = connection_insert db ip port ssl role_id in
      (elim created [ none ↦ minus_one | some id ↦ id ], db')

  unfoldable pub connection_get_or_create : E.Db → Option Bytes → ℤ → ℤ → ℤ → ℤ × E.Db
  unfolding bind_peer first_row found_id create_connection
  connection_get_or_create db ip port ssl role_id =
      let id = found_id (first_row E db k_find (bind_peer ip port ssl role_id)) in
      if E.prepare db k_find
      then (if is_nonneg id then (id, db) else create_connection db ip port ssl role_id)
      else (minus_one, db)

  unfoldable pub connection_update : E.Db → ℤ → Option Bytes → ℤ → ℤ → ℤ → Bool × E.Db
  unfolding bind_text_or_null run_change
  connection_update db id ip port ssl role_id =
      run_change E db connection_sql.update
        (bind_text_or_null ip ∷ int port ∷ int ssl ∷ int (to_int32 role_id) ∷ int id ∷ [])

  unfoldable pub connection_delete : E.Db → ℤ → Bool × E.Db
  unfolding run_change
  connection_delete db id = run_change E db connection_sql.delete (int id ∷ [])
