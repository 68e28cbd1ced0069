-- ===== src/Repository/NamedConnections.antt =====
-- database/named_connection_repository.c
pub mod Crud
use sending_system.Base.{ℕ, suc, Bool, Option, none, some, [], ◌∷◌, Bytes, ℤ, if◌then◌else◌}
use sending_system.Sqlite.{
  Statements, Sqlite, int, Row, bind_text_or_null, column, column_int64, run_insert, run_change,
  first_row,
}
use sending_system.Sqlite.Rows.{Alloc, Fetched, dup_col, fetch_all}
use sending_system.Database.Models.{NamedConnection}

abbrev pub named_connection_sql : Statements
named_connection_sql = record {
  insert = "INSERT INTO NamedConnection(name, connectionId) VALUES(?,?)";
  get = "SELECT id, name, connectionId FROM NamedConnection WHERE id=?";
  get_all = "SELECT id, name, connectionId FROM NamedConnection ORDER BY id";
  update = "UPDATE NamedConnection SET name=?, connectionId=? WHERE id=?";
  delete = "DELETE FROM NamedConnection WHERE id=?";
}

module _ (E : Sqlite) (malloc : ℕ → Bool) where
  unfoldable pub named_connection_insert : E.Db → Option Bytes → ℤ → Option ℤ × E.Db
  unfolding bind_text_or_null run_insert
  named_connection_insert db name connection_id =
      run_insert E db named_connection_sql.insert (bind_text_or_null name ∷ int connection_id ∷ [])

  unfoldable pub read_named : Row → Alloc NamedConnection
  unfolding column column_int64 dup_col
  read_named r n =
      let (name, m) = dup_col E malloc (column r 1) n in
      (
        record {
          id = column_int64 E (column r 0);
          name = name;
          connection_id = column_int64 E (column r 2);
        },
        m,
      )

  unfoldable pub named_connection_get : E.Db → ℤ → Alloc (Option NamedConnection)
  unfolding first_row read_named
  named_connection_get db id n = elim (first_row E db named_connection_sql.get (int id ∷ [])) [
    | none ↦ (none, n)
    | some r ↦
        let (out, m) = read_named r (suc n) in if malloc n then (some out, m) else (none, suc n)
  ]

  unfoldable pub decode_named : Row → Alloc (Option NamedConnection)
  unfolding read_named
  decode_named r n = let (row, m) = read_named r n in (some row, m)

  unfoldable pub named_connection_get_all : E.Db → Alloc (Fetched NamedConnection)
  unfolding decode_named fetch_all
  named_connection_get_all db = fetch_all malloc decode_named E db named_connection_sql.get_all []

  unfoldable pub named_connection_update : E.Db → ℤ → Option Bytes → ℤ → Bool × E.Db
  unfolding bind_text_or_null run_change
  named_connection_update db id name connection_id =
      run_change E db named_connection_sql.update
        (bind_text_or_null name ∷ int connection_id ∷ int id ∷ [])

  unfoldable pub named_connection_delete : E.Db → ℤ → Bool × E.Db
  unfolding run_change
  named_connection_delete db id = run_change E db named_connection_sql.delete (int id ∷ [])
