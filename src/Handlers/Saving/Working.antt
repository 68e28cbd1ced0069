-- ===== src/Handlers/Saving/Working.antt =====
-- A message is recorded where the database works.
use sending_system.Base.{◌≡◌, refl, true, Option, none, some, ◌∷◌, arith, Bytes}
use sending_system.Sqlite.{Sqlite, Row, run_insert}
use sending_system.System.{Env, World}
use sending_system.System.Held.{records}
use sending_system.Database.Models.{Message}
use sending_system.Database.Open.{database_open, database_close}
use sending_system.Database.Open.Closed.{database_open-log}
use sending_system.Repository.Messages.{message_sql, message_insert}
use sending_system.Repository.Messages.Crud.{columns_of}
use sending_system.Handlers.Json.{Cjson, read_json}
use sending_system.Handlers.Saving.{note_insert, save_message}

-- The database can be opened, and takes every message.
pub record IsWorking (E : Sqlite) (env : Env E) : Type 0 where
  pub opens : (w : World E.Db) → (database_open E env w).0 ≡ true
  pub prepares : (db : E.Db) → E.prepare db message_sql.insert ≡ true
  pub inserts : (db : E.Db) (vs : Row) → (E.exec db message_sql.insert vs).0 ≡ true

module _ (E : Sqlite) (env : Env E) (works : IsWorking E env) where
  pub save_message-records :
      (m : Message) (w : World E.Db) → records (save_message E env m w).1.log ≡ m ∷ records w.log
  unfolding save_message database_close note_insert message_insert run_insert records
  save_message-records m w =
      let w1 = (database_open E env w).1 in
      ground (
        arith,
        works.opens w,
        works.prepares w1.db,
        works.inserts w1.db (columns_of m),
        database_open-log E env w,
      )

pub read_json-records :
    (E : Sqlite) (J : Cjson) (text : Option Bytes) (w : World E.Db)
    → records (read_json E J text w).log ≡ records w.log
unfolding read_json records
read_json-records E J none w = refl
read_json-records E J (some t) w = refl
