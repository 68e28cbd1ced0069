-- ===== src/Handlers/History/Uploads.antt =====
-- A request to /api/upload keeps the table of messages a history of what was recorded.
use sending_system.Base.{
  refl, false, none, some, List, [], ◌∷◌, arith, Bytes, codes, bytes_eq, ℤ, minus_one, int_eq,
  Bool-cases, inl, inr,
}
use sending_system.Sqlite.{Sqlite}
use sending_system.Sqlite.Table.{Rows, IsTable}
use sending_system.System.{Env, World, ask}
use sending_system.System.Held.{records}
use sending_system.Repository.Messages.{message_sql}
use sending_system.Handlers.Json.{Cjson, http_build_json, read_json}
use sending_system.Handlers.Saving.{save_connection, save_message}
use sending_system.Handlers.Upload.{
  UploadCtx, FormCall, field_found, field_get, field_store, Form, open_part, on_field_found,
  on_field_store, form_call, form_calls, close_part, upload_message, deliver, finish_upload,
  api_upload_handler,
}
use sending_system.Handlers.History.{
  IsApart, IsHistory, Kept, Kept-IsHistory, save_connection-Kept, save_message-IsHistory,
}
use sending_system.Handlers.History.Quiet.{
  http_build_json-Kept, send_free-Kept, read_json-Kept, error-IsHistory,
}

module _ (E : Sqlite) (J : Cjson) (env : Env E) (T : IsTable E message_sql) where
  module _ (apart : IsApart E env T) (base : Rows) where
    abbrev History : World E.Db → Type 0
    History w = IsHistory E env T base w

    kept : (w w' : World E.Db) → Kept E env T w w' → History w → History w'
    kept = Kept-IsHistory E env T base

    form_call-Kept :
        (c : FormCall) (u : UploadCtx) (w : World E.Db) → Kept E env T w (form_call E J env c u w).1
    unfolding form_call on_field_found open_part on_field_store records
    form_call-Kept (field_found none n) u w = (refl, refl)
    form_call-Kept (field_found (some []) n) u w = (refl, refl)
    form_call-Kept (field_found (some (c ∷ name)) n) u w = ground arith
    form_call-Kept field_get u w = (refl, refl)
    form_call-Kept field_store u w = ground arith

    form_calls-IsHistory :
        (calls : List FormCall) (u : UploadCtx) (w : World E.Db)
        → History w
        → History (form_calls E J env calls u w).1
    unfolding form_calls
    form_calls-IsHistory [] u w h = h
    form_calls-IsHistory (c ∷ calls) u w h =
        let (u', w') = form_call E J env c u w in
        form_calls-IsHistory calls u' w' (kept w w' (form_call-Kept c u w) h)

    close_part-Kept : (u : UploadCtx) (w : World E.Db) → Kept E env T w (close_part E J env u w)
    unfolding close_part records
    close_part-Kept u w = ground arith

    deliver-IsHistory :
        (connection_id : ℤ) (path : Bytes) (w : World E.Db)
        → History w
        → History (deliver E J env connection_id path w)
    unfolding deliver
    deliver-IsHistory connection_id path w h =
        let (json, w1) = http_build_json E J "message" "File(s) received" w in
        let h1 = kept w w1 (http_build_json-Kept E J env T "message" "File(s) received" w) h in
        let (time, w2) = ask env.now w1 in
        let h2 : History w2 = kept w1 w2 (refl, refl) h1 in
        let w3 = read_json E J json w2 in
        let h3 : History w3 = kept w2 w3 (read_json-Kept E J env T json w2) h2 in
        let m = upload_message E J env connection_id json path time in
        let w4 = (save_message E env m w3).1 in
        kept w4 _ (send_free-Kept E J env T 200 json w4)
          (save_message-IsHistory E env T apart base m w3 h3)

    finish_upload-IsHistory :
        (f : Form) (path : Bytes) (w : World E.Db)
        → History w
        → History (finish_upload E J env f path w)
    unfolding finish_upload
    finish_upload-IsHistory f [] w h = error-IsHistory E J env T base 400 "No file part" w h
    finish_upload-IsHistory f (c ∷ path) w h =
        let (connection_id, w1) = save_connection E env f.remote_addr w in
        let h1 = kept w w1 (save_connection-Kept E env T apart f.remote_addr w) h in
        elim (Bool-cases (int_eq connection_id minus_one)) [
          | inl lost ↦ rw (lost) (error-IsHistory E J env T base 500 "Data base error" w1 h1)
          | inr saved ↦ rw (saved) (deliver-IsHistory connection_id (c ∷ path) w1 h1)
        ]

    pub api_upload_handler-IsHistory :
        (f : Form) (w : World E.Db) → History w → History (api_upload_handler E J env f w)
    unfolding api_upload_handler finish_upload
    api_upload_handler-IsHistory f w h =
        let none_open : UploadCtx = record { fp = false; path = []; size = 0 } in
        let (u, w1) = form_calls E J env f.calls none_open w in
        let h1 = form_calls-IsHistory f.calls none_open w h in
        let w2 = close_part E J env u w1 in
        let h2 = kept w1 w2 (close_part-Kept u w1) h1 in
        elim (Bool-cases (bytes_eq f.request_method (codes "POST"))) [
          | inr other ↦ rw (other) (error-IsHistory E J env T base 405 "POST required" w h)
          | inl post ↦ elim (Bool-cases f.parsed) [
            | inr bad ↦ rw (post, bad) (error-IsHistory E J env T base 400 "Form parse error" w2 h2)
            | inl parsed ↦ rw (post, parsed) (finish_upload-IsHistory f u.path w2 h2)
          ]
        ]
