-- ===== src/Repository/Directions.antt =====
-- database/message_direction_repository.c
use sending_system.Base.{ℕ, Bool, Option, Bytes, ℤ}
use sending_system.Sqlite.{Sqlite, Statements}
use sending_system.Sqlite.Rows.{Alloc, Fetched}
use sending_system.Database.Models.{ReferenceRow}
use sending_system.Repository.Reference

abbrev pub message_direction_sql : Statements
message_direction_sql = record {
  insert = "INSERT INTO MessageDirection(name) VALUES(?)";
  get = "SELECT id, name FROM MessageDirection WHERE id=?";
  get_all = "SELECT id, name FROM MessageDirection ORDER BY id";
  update = "UPDATE MessageDirection SET name=? WHERE id=?";
  delete = "DELETE FROM MessageDirection WHERE id=?";
}

module _ (E : Sqlite) (malloc : ℕ → Bool) where
  unfoldable pub message_direction_insert : E.Db → Option Bytes → Option ℤ × E.Db
  unfolding Reference.insert
  message_direction_insert = Reference.insert E malloc message_direction_sql

  unfoldable pub message_direction_get : E.Db → ℤ → Alloc (Option ReferenceRow)
  unfolding Reference.get
  message_direction_get = Reference.get E malloc message_direction_sql

  unfoldable pub message_direction_get_all : E.Db → Alloc (Fetched ReferenceRow)
  unfolding Reference.get_all
  message_direction_get_all = Reference.get_all E malloc message_direction_sql

  unfoldable pub message_direction_update : E.Db → ℤ → Option Bytes → Bool × E.Db
  unfolding Reference.update
  message_direction_update = Reference.update E malloc message_direction_sql

  unfoldable pub message_direction_delete : E.Db → ℤ → Bool × E.Db
  unfolding Reference.delete
  message_direction_delete = Reference.delete E malloc message_direction_sql
