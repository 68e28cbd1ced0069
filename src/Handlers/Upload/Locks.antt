-- ===== src/Handlers/Upload/Locks.antt =====
-- `api_upload_handler` holds one mutex at a time.
use sending_system.Base.{◌≡◌, ◌∙◌, none, some, arith, List, [], ◌∷◌, false, Bytes, ℤ}
use sending_system.Sqlite.{Sqlite}
use sending_system.System.{Env, World, ask}
use sending_system.System.Locks.{lock, unlocked}
use sending_system.Handlers.Json.{Cjson, read_json, http_build_json, http_send_built_json}
use sending_system.Handlers.Saving.{save_connection, save_message}
use sending_system.Handlers.Upload.{
  UploadCtx, FormCall, field_found, field_get, field_store, Form, open_part, on_field_found,
  on_field_store, form_call, form_calls, close_part, upload_message, deliver, finish_upload,
  api_upload_handler,
}
use sending_system.Handlers.Locks.{
  lock-save_connection, lock-save_message, lock-http_build_json, lock-http_send_built_json,
  lock-free_json, lock-http_send_error, lock-read_json,
}

module _ (E : Sqlite) (J : Cjson) (env : Env E) where
  lock-form_call :
      (c : FormCall) (u : UploadCtx) (w : World E.Db)
      → lock w.log ≡ unlocked
      → lock (form_call E J env c u w).1.log ≡ unlocked
  unfolding form_call on_field_found open_part on_field_store lock
  lock-form_call (field_found none pathlen) u w free = free
  lock-form_call (field_found (some []) pathlen) u w free = free
  lock-form_call (field_found (some (c ∷ name)) pathlen) u w free = ground (arith, free)
  lock-form_call field_get u w free = free
  lock-form_call field_store u w free = ground (arith, free)

  lock-form_calls :
      (calls : List FormCall) (u : UploadCtx) (w : World E.Db)
      → lock w.log ≡ unlocked
      → lock (form_calls E J env calls u w).1.log ≡ unlocked
  unfolding form_calls
  lock-form_calls [] u w free = free
  lock-form_calls (c ∷ calls) u w free =
      let (u', w') = form_call E J env c u w in
      lock-form_calls calls u' w' (lock-form_call c u w free)

  lock-close_part :
      (u : UploadCtx) (w : World E.Db) → lock (close_part E J env u w).log ≡ lock w.log
  unfolding close_part lock
  lock-close_part u w = ground arith

  lock-deliver :
      (connection_id : ℤ) (path : Bytes) (w : World E.Db)
      → lock (deliver E J env connection_id path w).log ≡ lock w.log
  unfolding deliver lock
  lock-deliver connection_id path w =
      let (text, w1) = http_build_json E J "message" "File(s) received" w in
      let (time, w2) = ask env.now w1 in
      let m = upload_message E J env connection_id text path time in
      let w3 = (save_message E env m (read_json E J text w2)).1 in
      lock-free_json E J env text (http_send_built_json E J 200 text w3)
      ∙ lock-http_send_built_json E J env 200 text w3
      ∙ lock-save_message E J env m (read_json E J text w2)
      ∙ lock-read_json E J env text w2
      ∙ lock-http_build_json E J env "message" "File(s) received" w

  lock-finish_upload :
      (f : Form) (path : Bytes) (w : World E.Db)
      → lock (finish_upload E J env f path w).log ≡ lock w.log
  unfolding finish_upload
  lock-finish_upload f [] w = lock-http_send_error E J env 400 "No file part" w
  lock-finish_upload f (c ∷ path) w =
      let (connection_id, w1) = save_connection E env f.remote_addr w in
      ground (
        arith,
        lock-save_connection E J env f.remote_addr w,
        lock-http_send_error E J env 500 "Data base error" w1,
        lock-deliver connection_id (c ∷ path) w1,
      )

  -- A request to /api/upload that starts without a mutex ends without one, and never takes a second
  -- one while it holds one, whatever calls `mg_handle_form_request` makes.
  pub api_upload_handler-unlocked :
      (f : Form) (w : World E.Db)
      → lock w.log ≡ unlocked
      → lock (api_upload_handler E J env f w).log ≡ unlocked
  unfolding api_upload_handler
  api_upload_handler-unlocked f w free =
      let (u, w1) = form_calls E J env f.calls (record { fp = false; path = []; size = 0 }) w in
      let w2 = close_part E J env u w1 in
      let free2 : lock w2.log ≡ unlocked =
        lock-close_part u w1
        ∙ lock-form_calls f.calls (record { fp = false; path = []; size = 0 }) w free in
      ground (
        arith,
        lock-finish_upload f u.path w2,
        lock-http_send_error E J env 400 "Form parse error" w2,
        lock-http_send_error E J env 405 "POST required" w,
        free2,
        free,
      )
