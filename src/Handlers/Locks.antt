-- ===== src/Handlers/Locks.antt =====
-- The parts that the handlers share hold one mutex at a time.
use sending_system.Base.{ℕ, String, ◌≡◌, Option, arith, Bytes}
use sending_system.Sqlite.{Sqlite}
use sending_system.System.{Env, World}
use sending_system.System.Locks.{lock, unlocked}
use sending_system.Database.Models.{Message}
use sending_system.Database.Open.{database_open, database_close}
use sending_system.Handlers.Json.{
  Cjson, hold_json, free_json, read_json, http_build_json, http_send_json, http_send_built_json,
  http_send_error,
}
use sending_system.Handlers.Saving.{save_connection, save_message, note_insert, save_text_to_file}

module _ (E : Sqlite) (J : Cjson) (env : Env E) where
  pub lock-database_open : (w : World E.Db) → lock (database_open E env w).1.log ≡ lock w.log
  unfolding database_open lock
  lock-database_open w = ground arith

  pub lock-save_connection :
      (addr : Bytes) (w : World E.Db) → lock (save_connection E env addr w).1.log ≡ lock w.log
  unfolding save_connection database_close lock
  lock-save_connection addr w = ground (arith, lock-database_open w)

  pub lock-save_message :
      (m : Message) (w : World E.Db) → lock (save_message E env m w).1.log ≡ lock w.log
  unfolding save_message note_insert database_close lock
  lock-save_message m w = ground (arith, lock-database_open w)

  pub lock-http_build_json :
      (type payload : String) (w : World E.Db)
      → lock (http_build_json E J type payload w).1.log ≡ lock w.log
  unfolding http_build_json hold_json lock
  lock-http_build_json type payload w = ground arith

  pub lock-http_send_built_json :
      (status : ℕ) (text : Option Bytes) (w : World E.Db)
      → lock (http_send_built_json E J status text w).log ≡ lock w.log
  unfolding http_send_built_json read_json lock
  lock-http_send_built_json status text w = ground arith

  pub lock-free_json :
      (text : Option Bytes) (w : World E.Db) → lock (free_json E J text w).log ≡ lock w.log
  unfolding free_json lock
  lock-free_json text w = ground arith

  pub lock-http_send_error :
      (status : ℕ) (msg : String) (w : World E.Db)
      → lock (http_send_error E J status msg w).log ≡ lock w.log
  unfolding http_send_error http_send_json http_build_json hold_json http_send_built_json read_json
      free_json lock
  lock-http_send_error status msg w = ground arith

  pub lock-save_text_to_file :
      (text path : Bytes) (w : World E.Db)
      → lock w.log ≡ unlocked
      → lock (save_text_to_file E env text path w).1.log ≡ unlocked
  unfolding save_text_to_file lock
  lock-save_text_to_file text path w free = ground arith

  pub lock-read_json :
      (text : Option Bytes) (w : World E.Db) → lock (read_json E J text w).log ≡ lock w.log
  unfolding read_json lock
  lock-read_json text w = ground arith
