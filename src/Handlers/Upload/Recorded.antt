-- ===== src/Handlers/Upload/Recorded.antt =====
-- What `api_upload_handler` records of a form that it takes.
use sending_system.Base.{
  ◌≡◌, ◌∙◌, refl, ap, subst, sym, if◌then◌else◌, Bool, true, false, Option, none, some, [], ◌∷◌,
  arith, Bytes, codes, bytes_eq, ℤ, pos, minus_one, int_eq, All,
}
use sending_system.Sqlite.{Sqlite}
use sending_system.System.{Env, World, Resource, file, file_mutex, schema, handle, ask}
use sending_system.System.Held.{same, held, responses, records}
use sending_system.Handlers.Json.{
  Cjson, response_of, http_build_json, http_send_built_json, http_send_error, read_json,
}
use sending_system.Handlers.Json.Resources.{
  http_build_json-log, http_send_built_json-log, free_json-log,
}
use sending_system.Database.Models.{
  Message, MessageTypeId, success, inbound, status_id, type_id, direction_id,
}
use sending_system.Handlers.Saving.{save_connection, save_message}
use sending_system.Handlers.Saving.Resources.{save_connection-held, save_connection-log}
use sending_system.Handlers.Saving.Working.{IsWorking, save_message-records, read_json-records}
use sending_system.Handlers.Upload.{
  UploadCtx, Form, form_calls, close_part, upload_message, deliver, finish_upload,
  api_upload_handler,
}
use sending_system.Handlers.Upload.Resources.{stores_each, form_calls-held, close_part-held}
use sending_system.Handlers.Upload.Logs.{form_calls-log, close_part-log, deliver-log}
use sending_system.Handlers.Upload.Paths.{HasRoom}
use sending_system.Handlers.Upload.Parts.{last_part, part_path, Notes, form_calls-Notes}

-- The row of the history: an inbound file, received, with its path for the request.
abbrev pub file_message : ℤ → Option Bytes → Bytes → Bytes → Message
file_message connection_id json path time = record {
  id = pos 0;
  connection_id = connection_id;
  message_status_id = status_id success;
  message_type_id = type_id MessageTypeId.file;
  direction_id = direction_id inbound;
  response = json;
  sending_time = some time;
  request = some path;
}

module _ (E : Sqlite) (J : Cjson) (env : Env E) where
  deliver-records :
      IsWorking E env
      → (connection_id : ℤ) (path : Bytes) (w : World E.Db)
      → let (text, w1) = http_build_json E J "message" "File(s) received" w in
        records (deliver E J env connection_id path w).log
        ≡ file_message connection_id text path (env.now w1.calls) ∷ records w.log
  unfolding deliver upload_message
  deliver-records works connection_id path w =
      let (text, w1) = http_build_json E J "message" "File(s) received" w in
      let (time, w2) = ask env.now w1 in
      let m = file_message connection_id text path time in
      let w3 = read_json E J text w2 in
      let w4 = (save_message E env m w3).1 in
      (free_json-log E J text (http_send_built_json E J 200 text w4)).1
      ∙ (http_send_built_json-log E J 200 text w4).1
      ∙ save_message-records E env works m w3
      ∙ ap (λ l. m ∷ l)
          (read_json-records E J text w2
            ∙ (http_build_json-log E J "message" "File(s) received" w).1)

  -- The world when `mg_handle_form_request` has returned.
  abbrev pub received : Form → World E.Db → UploadCtx × World E.Db
  received f w =
      let (u, w1) = form_calls E J env f.calls (record { fp = false; path = []; size = 0 }) w in
      (u, close_part E J env u w1)

  -- One response with the status 200, and one message, of that connection and with such a path.
  abbrev pub Recorded : ℤ → Bytes → World E.Db → World E.Db → Type 0
  Recorded connection_id name w w' =
      (compiled : Bool) × (text : Option Bytes) × (time : Bytes) × (responses w'.log
        ≡ response_of 200 text ∷ responses w.log)
      × (records w'.log
          ≡ file_message connection_id text (part_path compiled name) time ∷ records w.log)

  Recorded-after :
      (connection_id : ℤ) (name : Bytes) (w w1 w' : World E.Db)
      → responses w1.log ≡ responses w.log
      → records w1.log ≡ records w.log
      → Recorded connection_id name w1 w'
      → Recorded connection_id name w w'
  Recorded-after connection_id name w w1 w' p q r = rw (← p, ← q) r

  finish_upload-Recorded :
      (f : Form) (path name : Bytes) (compiled : Bool) (w : World E.Db)
      → IsWorking E env
      → ((r : Resource) → held r w.log ≡ some false)
      → path ≡ part_path compiled name
      → int_eq (save_connection E env f.remote_addr w).0 minus_one ≡ false
      → Recorded (save_connection E env f.remote_addr w).0 name w (finish_upload E J env f path w)
  unfolding finish_upload codes
  finish_upload-Recorded f [] name compiled w works free e saved = absurd (ground (arith, e))
  finish_upload-Recorded f (c ∷ path) name compiled w works free e saved =
      let (connection_id, w1) = save_connection E env f.remote_addr w in
      let kept =
        save_connection-held E env w f.remote_addr (free file) (free schema) (free handle) in
      let log = save_connection-log E env w f.remote_addr (free file) (free schema) (free handle) in
      let (text, w2) = http_build_json E J "message" "File(s) received" w1 in
      let time = env.now w2.calls in
      let w' = deliver E J env connection_id (c ∷ path) w1 in
      let delivered : Recorded connection_id name w1 w' = (
        compiled,
        text,
        time,
        (deliver-log E J env connection_id (c ∷ path) w1 (λ r. kept r ∙ free r)).0,
        deliver-records works connection_id (c ∷ path) w1
            ∙ ap (λ p. file_message connection_id text p time ∷ records w1.log) e,
      ) in
      rw (saved) (Recorded-after connection_id name w w1 w' log.0 log.1 delivered)

  -- From a state in which no resource is held, an upload by POST that stores every file part before
  -- the next one is found, whose form is parsed and has a file part, gets one response, with the
  -- status 200, and exactly one message is recorded: an inbound file with the status SUCCESS, of the
  -- connection saved for the sender, with the text of the response, and with the path of the last
  -- file part, its sanitized name in SAVE_DIR, as the request; where the buffers for the paths have
  -- 268 bytes at least, the connection could be saved, and the database can be opened and takes every
  -- message.
  pub api_upload_handler-records :
      (f : Form) (w : World E.Db) (name : Bytes)
      → IsWorking E env
      → ((r : Resource) → held r w.log ≡ some false)
      → stores_each false f.calls ≡ true
      → All HasRoom f.calls
      → bytes_eq f.request_method (codes "POST") ≡ true
      → f.parsed ≡ true
      → last_part none f.calls ≡ some name
      → int_eq (save_connection E env f.remote_addr (received f w).1).0 minus_one ≡ false
      → Recorded
          (save_connection E env f.remote_addr (received f w).1).0
          name
          w
          (api_upload_handler E J env f w)
  unfolding api_upload_handler
  api_upload_handler-records f w name works free ok rooms post parsed part saved =
      let none_open : UploadCtx = record { fp = false; path = []; size = 0 } in
      let (u, w1) = form_calls E J env f.calls none_open w in
      let w2 = close_part E J env u w1 in
      let got =
        form_calls-held E J env f.calls false none_open w ok (λ e. refl) (free file)
          (free file_mutex) in
      let closed = close_part-held E J env u w1 (unfold same in got file) in
      let free2 : (r : Resource) → held r w2.log ≡ some false =
        λ r. ground (arith, closed r, got r, free r) in
      let calls_log = form_calls-log E J env f.calls none_open w in
      let close_log = close_part-log E J env u w1 in
      let notes : Notes (some name) u =
        subst (λ last. Notes last u) part
          (form_calls-Notes E J env f.calls none none_open w rooms refl) in
      let finished = finish_upload-Recorded f u.path name notes.0 w2 works free2 notes.1 saved in
      let w' = finish_upload E J env f u.path w2 in
      let bad = http_send_error E J 400 "Form parse error" w2 in
      let other = http_send_error E J 405 "POST required" w in
      let whole : Recorded (save_connection E env f.remote_addr w2).0 name w w' =
        Recorded-after (save_connection E env f.remote_addr w2).0 name w w2 w'
          (close_log.0 ∙ calls_log.0) (close_log.1 ∙ calls_log.1) finished in
      let taken : api_upload_handler E J env f w ≡ w' =
        ap (λ b. if b then (if f.parsed then w' else bad) else other) post
        ∙ ap (λ b. if b then w' else bad) parsed in
      subst (Recorded (save_connection E env f.remote_addr w2).0 name w) (sym taken) whole
