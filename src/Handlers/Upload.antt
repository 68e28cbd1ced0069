-- ===== src/Handlers/Upload.antt =====
-- handlers/api_upload.c. `mg_handle_form_request` of CivetWeb is not part of the repository: it
-- makes some sequence of calls of the callbacks, and its result is negative or not.
pub mod Resources
pub mod Logs
pub mod Answers
pub mod Locks
pub mod Paths
pub mod Parts
pub mod Recorded
use sending_system.Base.{
  ◌++◌, ℕ, ◌+◌, Bool, true, false, Option, none, some, List, [], ◌∷◌, Bytes, codes, bytes_eq,
  snprintf, ℤ, pos, minus_one, int_eq, if◌then◌else◌,
}
use sending_system.Sqlite.{Sqlite}
use sending_system.System.{
  Env, World, emit, ask, file_mutex, file, acquire, release, make_dir, opened, logged,
}
use sending_system.FileService.Sanitize.{max_filename}
use sending_system.Database.Models.{
  Message, MessageTypeId, success, inbound, status_id, type_id, direction_id,
}
use sending_system.Console.{print_info}
use sending_system.Handlers.Json.{
  Cjson, http_build_json, http_send_built_json, http_send_error, free_json, read_json,
}
use sending_system.Handlers.Saving.{
  save_dir, save_dir_length, safe_name_of, save_path, save_connection, save_message,
}

-- `fp` says whether the pointer is not NULL.
pub record UploadCtx : Type 0 where
  pub fp : Bool
  pub path : Bytes
  pub size : ℕ

pub data FieldStorage : Type 0 where
  storage_get storage_store storage_abort : FieldStorage

-- A call of a callback: the file name of the part (`none` for NULL) and the capacity of the buffer
-- for its path; a plain field; a file part that was stored.
pub data FormCall : Type 0 where
  field_found : Option Bytes → ℕ → FormCall
  field_get : FormCall
  field_store : FormCall

-- A request as CivetWeb presents it. `parsed` says that `mg_handle_form_request` is not negative.
pub record Form : Type 0 where
  pub request_method : Bytes
  pub remote_addr : Bytes
  pub calls : List FormCall
  pub parsed : Bool

module _ (E : Sqlite) (J : Cjson) (env : Env E) where
  -- The part of `on_field_found` for a file part, named `name`.
  unfoldable pub open_part : Bytes → ℕ → World E.Db → FieldStorage × UploadCtx × World E.Db
  open_part name pathlen w =
      let (compiled, w1) = ask env.regcomp w in
      let path = save_path pathlen (safe_name_of compiled name) in
      let w2 = emit (acquire file_mutex) (emit (make_dir save_dir) w1) in
      let (open_ok, w3) = ask env.fopen w2 in
      let line = print_info (codes "[UPLOAD] Receiving " ++ (path ++ codes "\n")) in
      let u : UploadCtx = record {
        fp = open_ok;
        path = snprintf (max_filename + save_dir_length + 2) path;
        size = 0;
      } in
      if open_ok
      then (
        storage_store,
        u,
        emit (logged line)
            (emit (release file_mutex) (emit (acquire file) (emit (opened path) w3))),
      )
      else (storage_abort, u, emit (release file_mutex) w3)

  unfoldable pub on_field_found :
      Option Bytes → ℕ → UploadCtx → World E.Db → FieldStorage × UploadCtx × World E.Db
  on_field_found none pathlen u w = (storage_get, u, w)
  on_field_found (some []) pathlen u w = (storage_get, u, w)
  on_field_found (some (c ∷ name)) pathlen u w = open_part (c ∷ name) pathlen w

  unfoldable pub on_field_store : UploadCtx → World E.Db → UploadCtx × World E.Db
  on_field_store u w =
      if u.fp
      then (
        record u { fp = false },
        emit (release file_mutex) (emit (release file) (emit (acquire file_mutex) w)),
      )
      else (u, w)

  -- One call; `on_field_get` does nothing.
  unfoldable pub form_call : FormCall → UploadCtx → World E.Db → UploadCtx × World E.Db
  form_call (field_found filename pathlen) u w =
      let (storage, u', w') = on_field_found filename pathlen u w in (u', w')
  form_call field_get u w = (u, w)
  form_call field_store u w = on_field_store u w

  -- All calls of `mg_handle_form_request`, in their order.
  unfoldable pub form_calls : List FormCall → UploadCtx → World E.Db → UploadCtx × World E.Db
  form_calls [] u w = (u, w)
  form_calls (c ∷ calls) u w = let (u', w') = form_call c u w in form_calls calls u' w'

  unfoldable pub close_part : UploadCtx → World E.Db → World E.Db
  close_part u w = if u.fp then emit (release file) w else w

  unfoldable pub upload_message : ℤ → Option Bytes → Bytes → Bytes → Message
  upload_message connection_id json path time = record {
    id = pos 0;
    connection_id = connection_id;
    message_status_id = status_id success;
    message_type_id = type_id MessageTypeId.file;
    direction_id = direction_id inbound;
    response = json;
    sending_time = some time;
    request = some path;
  }

  -- From the saved connection on.
  unfoldable pub deliver : ℤ → Bytes → World E.Db → World E.Db
  deliver connection_id path w =
      let (json, w1) = http_build_json E J "message" "File(s) received" w in
      let (time, w2) = ask env.now w1 in
      let m = upload_message connection_id json path time in
      let w3 = (save_message E env m (read_json E J json w2)).1 in
      free_json E J json (http_send_built_json E J 200 json w3)

  -- From the result of `mg_handle_form_request` on.
  unfoldable pub finish_upload : Form → Bytes → World E.Db → World E.Db
  finish_upload f [] w = http_send_error E J 400 "No file part" w
  finish_upload f (c ∷ path) w =
      let (connection_id, w1) = save_connection E env f.remote_addr w in
      if int_eq connection_id minus_one
      then http_send_error E J 500 "Data base error" w1
      else deliver connection_id (c ∷ path) w1

  unfoldable pub api_upload_handler : Form → World E.Db → World E.Db
  api_upload_handler f w =
      let (u, w1) = form_calls f.calls (record { fp = false; path = []; size = 0 }) w in
      let w2 = close_part u w1 in
      if bytes_eq f.request_method (codes "POST")
      then (if f.parsed
          then finish_upload f u.path w2
          else http_send_error E J 400 "Form parse error" w2)
      else http_send_error E J 405 "POST required" w
