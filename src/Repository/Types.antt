-- ===== src/Repository/Types.antt =====
-- database/message_type_repository.c
use sending_system.Base.{ℕ, Bool, Option, Bytes, ℤ}
use sending_system.Sqlite.{Sqlite, Statements}
use sending_system.Sqlite.Rows.{Alloc, Fetched}
use sending_system.Database.Models.{ReferenceRow}
use sending_system.Repository.Reference

abbrev pub message_type_sql : Statements
message_type_sql = record {
  insert = "INSERT INTO MessageType(name) VALUES(?)";
  get = "SELECT id, name FROM MessageType WHERE id=?";
  get_all = "SELECT id, name FROM MessageType ORDER BY id";
  update = "UPDATE MessageType SET name=? WHERE id=?";
  delete = "DELETE FROM MessageType WHERE id=?";
}

module _ (E : Sqlite) (malloc : ℕ → Bool) where
  unfoldable pub message_type_insert : E.Db → Option Bytes → Option ℤ × E.Db
  unfolding Reference.insert
  message_type_insert = Reference.insert E malloc message_type_sql

  unfoldable pub message_type_get : E.Db → ℤ → Alloc (Option ReferenceRow)
  unfolding Reference.get
  message_type_get = Reference.get E malloc message_type_sql

  unfoldable pub message_type_get_all : E.Db → Alloc (Fetched ReferenceRow)
  unfolding Reference.get_all
  message_type_get_all = Reference.get_all E malloc message_type_sql

  unfoldable pub message_type_update : E.Db → ℤ → Option Bytes → Bool × E.Db
  unfolding Reference.update
  message_type_update = Reference.update E malloc message_type_sql

  unfoldable pub message_type_delete : E.Db → ℤ → Bool × E.Db
  unfolding Reference.delete
  message_type_delete = Reference.delete E malloc message_type_sql
