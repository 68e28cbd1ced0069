-- ===== src/Repository/Statuses.antt =====
-- database/message_status_repository.c
use sending_system.Base.{ℕ, Bool, Option, Bytes, ℤ}
use sending_system.Sqlite.{Sqlite, Statements}
use sending_system.Sqlite.Rows.{Alloc, Fetched}
use sending_system.Database.Models.{ReferenceRow}
use sending_system.Repository.Reference

abbrev pub message_status_sql : Statements
message_status_sql = record {
  insert = "INSERT INTO MessageStatus(name) VALUES(?)";
  get = "SELECT id, name FROM MessageStatus WHERE id=?";
  get_all = "SELECT id, name FROM MessageStatus ORDER BY id";
  update = "UPDATE MessageStatus SET name=? WHERE id=?";
  delete = "DELETE FROM MessageStatus WHERE id=?";
}

module _ (E : Sqlite) (malloc : ℕ → Bool) where
  unfoldable pub message_status_insert : E.Db → Option Bytes → Option ℤ × E.Db
  unfolding Reference.insert
  message_status_insert = Reference.insert E malloc message_status_sql

  unfoldable pub message_status_get : E.Db → ℤ → Alloc (Option ReferenceRow)
  unfolding Reference.get
  message_status_get = Reference.get E malloc message_status_sql

  unfoldable pub message_status_get_all : E.Db → Alloc (Fetched ReferenceRow)
  unfolding Reference.get_all
  message_status_get_all = Reference.get_all E malloc message_status_sql

  unfoldable pub message_status_update : E.Db → ℤ → Option Bytes → Bool × E.Db
  unfolding Reference.update
  message_status_update = Reference.update E malloc message_status_sql

  unfoldable pub message_status_delete : E.Db → ℤ → Bool × E.Db
  unfolding Reference.delete
  message_status_delete = Reference.delete E malloc message_status_sql
