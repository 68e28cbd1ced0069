-- ===== src/Repository/Roles.antt =====
-- database/connection_role_repository.c
use sending_system.Base.{ℕ, Bool, Option, Bytes, ℤ}
use sending_system.Sqlite.{Sqlite, Statements}
use sending_system.Sqlite.Rows.{Alloc, Fetched}
use sending_system.Database.Models.{ReferenceRow}
use sending_system.Repository.Reference

abbrev pub connection_role_sql : Statements
connection_role_sql = record {
  insert = "INSERT INTO ConnectionRole(name) VALUES(?)";
  get = "SELECT id, name FROM ConnectionRole WHERE id=?";
  get_all = "SELECT id, name FROM ConnectionRole ORDER BY id";
  update = "UPDATE ConnectionRole SET name=? WHERE id=?";
  delete = "DELETE FROM ConnectionRole WHERE id=?";
}

module _ (E : Sqlite) (malloc : ℕ → Bool) where
  unfoldable pub connection_role_insert : E.Db → Option Bytes → Option ℤ × E.Db
  unfolding Reference.insert
  connection_role_insert = Reference.insert E malloc connection_role_sql

  unfoldable pub connection_role_get : E.Db → ℤ → Alloc (Option ReferenceRow)
  unfolding Reference.get
  connection_role_get = Reference.get E malloc connection_role_sql

  unfoldable pub connection_role_get_all : E.Db → Alloc (Fetched ReferenceRow)
  unfolding Reference.get_all
  connection_role_get_all = Reference.get_all E malloc connection_role_sql

  unfoldable pub connection_role_update : E.Db → ℤ → Option Bytes → Bool × E.Db
  unfolding Reference.update
  connection_role_update = Reference.update E malloc connection_role_sql

  unfoldable pub connection_role_delete : E.Db → ℤ → Bool × E.Db
  unfolding Reference.delete
  connection_role_delete = Reference.delete E malloc connection_role_sql
