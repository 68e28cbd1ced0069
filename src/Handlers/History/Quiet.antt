-- ===== src/Handlers/History/Quiet.antt =====
-- What records no message and leaves the database alone.
use sending_system.Base.{ℕ, String, refl, ap, Option, none, some, arith, Bytes}
use sending_system.Sqlite.{Sqlite}
use sending_system.Sqlite.Table.{Rows, IsTable}
use sending_system.System.{Env, World}
use sending_system.System.Held.{records}
use sending_system.Repository.Messages.{message_sql}
use sending_system.Handlers.Json.{
  Cjson, hold_json, http_build_json, http_send_built_json, http_send_error, free_json, read_json,
}
use sending_system.Handlers.Json.Resources.{db-http_send_error, http_send_error-log}
use sending_system.Handlers.Saving.{save_text_to_file}
use sending_system.Handlers.History.{IsHistory, Kept, Kept-IsHistory}

module _ (E : Sqlite) (J : Cjson) (env : Env E) (T : IsTable E message_sql) where
  -- The parts that record nothing and do not touch the database.
  pub http_build_json-Kept :
      (type payload : String) (w : World E.Db)
      → Kept E env T w (http_build_json E J type payload w).1
  unfolding http_build_json hold_json records
  http_build_json-Kept type payload w = ground arith

  pub save_text_to_file-Kept :
      (text path : Bytes) (w : World E.Db) → Kept E env T w (save_text_to_file E env text path w).1
  unfolding save_text_to_file records
  save_text_to_file-Kept text path w = ground arith

  pub http_send_error-Kept :
      (status : ℕ) (msg : String) (w : World E.Db)
      → Kept E env T w (http_send_error E J status msg w)
  http_send_error-Kept status msg w =
      (ap T.view (db-http_send_error E J status msg w), (http_send_error-log E J status msg w).1)

  -- Sending and freeing the text.
  pub send_free-Kept :
      (status : ℕ) (text : Option Bytes) (w : World E.Db)
      → Kept E env T w (free_json E J text (http_send_built_json E J status text w))
  unfolding free_json http_send_built_json read_json records
  send_free-Kept status none w = (refl, refl)
  send_free-Kept status (some t) w = (refl, refl)

  pub read_json-Kept :
      (text : Option Bytes) (w : World E.Db) → Kept E env T w (read_json E J text w)
  unfolding read_json records
  read_json-Kept none w = (refl, refl)
  read_json-Kept (some t) w = (refl, refl)

  pub error-IsHistory :
      (base : Rows) (status : ℕ) (msg : String) (w : World E.Db)
      → IsHistory E env T base w
      → IsHistory E env T base (http_send_error E J status msg w)
  error-IsHistory base status msg w =
      Kept-IsHistory E env T base w _ (http_send_error-Kept status msg w)
