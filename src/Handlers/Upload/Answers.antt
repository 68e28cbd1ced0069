-- ===== src/Handlers/Upload/Answers.antt =====
-- What `api_upload_handler` answers, records and opens.
use sending_system.Base.{
  ℕ, ◌≡◌, ◌∙◌, ◌⊎◌, refl, ap, true, false, Option, some, [], ◌∷◌, arith, Bytes, codes, bytes_eq,
  String, ℤ, minus_one, int_eq, Bool-cases, inl, inr,
}
use sending_system.Sqlite.{Sqlite}
use sending_system.System.{Env, World, Resource, file, schema, handle, file_mutex}
use sending_system.System.Held.{same, held, responses, records}
use sending_system.Database.Models.{
  Message, MessageTypeId, success, inbound, status_id, type_id, direction_id,
}
use sending_system.Handlers.Json.{Cjson, response_of, http_build_json, http_send_error}
use sending_system.Handlers.Json.Resources.{http_send_error-log}
use sending_system.Handlers.Saving.{save_connection}
use sending_system.Handlers.Saving.Resources.{save_connection-held, save_connection-log}
use sending_system.Handlers.Upload.{
  UploadCtx, Form, form_calls, close_part, upload_message, deliver, finish_upload,
  api_upload_handler,
}
use sending_system.Handlers.Upload.Resources.{stores_each, form_calls-held, close_part-held}
use sending_system.Handlers.Upload.Logs.{Idle, form_calls-log, close_part-log, deliver-log}

-- One response was sent. A message is recorded only with the status 200, and then one, of an inbound
-- file, with the text of the response.
pub record IsReceived {Db : Type 0} (w w' : World Db) : Type 0 where
  pub status : ℕ
  pub text : Option Bytes
  pub message : Message
  pub answers : responses w'.log ≡ response_of status text ∷ responses w.log
  pub recorded_once : (records w'.log ≡ records w.log) ⊎ (records w'.log ≡ message ∷ records w.log)
  pub only_received : (status ≡ 200) ⊎ (records w'.log ≡ records w.log)
  pub same_text : message.response ≡ text
  pub same_status : message.message_status_id ≡ status_id success
  pub same_type : message.message_type_id ≡ type_id MessageTypeId.file
  pub same_direction : message.direction_id ≡ direction_id inbound

module _ (E : Sqlite) (J : Cjson) (env : Env E) where
  error-IsReceived :
      (status : ℕ) (msg : String) (w0 w : World E.Db)
      → responses w.log ≡ responses w0.log
      → records w.log ≡ records w0.log
      → IsReceived w0 (http_send_error E J status msg w)
  unfolding upload_message
  error-IsReceived status msg w0 w same_responses same_records =
      let log = http_send_error-log E J status msg w in
      let text = (http_build_json E J "error" msg w).0 in
      record {
        status = status;
        text = text;
        message = upload_message E J env minus_one text [] [];
        answers = log.0 ∙ ap (◌∷◌ (response_of status text)) same_responses;
        recorded_once = inl (log.1 ∙ same_records);
        only_received = inr (log.1 ∙ same_records);
        same_text = refl;
        same_status = refl;
        same_type = refl;
        same_direction = refl;
      }

  deliver-IsReceived :
      (connection_id : ℤ) (path : Bytes) (w0 w : World E.Db)
      → Idle w
      → responses w.log ≡ responses w0.log
      → records w.log ≡ records w0.log
      → IsReceived w0 (deliver E J env connection_id path w)
  unfolding upload_message
  deliver-IsReceived connection_id path w0 w free same_responses same_records =
      let (text, w1) = http_build_json E J "message" "File(s) received" w in
      let log = deliver-log E J env connection_id path w free in
      record {
        status = 200;
        text = text;
        message = upload_message E J env connection_id text path (env.now w1.calls);
        answers = log.0 ∙ ap (◌∷◌ (response_of 200 text)) same_responses;
        recorded_once = rw (← same_records) log.1;
        only_received = inl refl;
        same_text = refl;
        same_status = refl;
        same_type = refl;
        same_direction = refl;
      }

  finish_upload-IsReceived :
      (f : Form) (path : Bytes) (w0 w : World E.Db)
      → Idle w
      → responses w.log ≡ responses w0.log
      → records w.log ≡ records w0.log
      → IsReceived w0 (finish_upload E J env f path w)
  unfolding finish_upload
  finish_upload-IsReceived f [] w0 w free same_responses same_records =
      error-IsReceived 400 "No file part" w0 w same_responses same_records
  finish_upload-IsReceived f (c ∷ path) w0 w free same_responses same_records =
      let kept =
        save_connection-held E env w f.remote_addr (free file) (free schema) (free handle) in
      let log = save_connection-log E env w f.remote_addr (free file) (free schema) (free handle) in
      let (connection_id, w1) = save_connection E env f.remote_addr w in
      elim (Bool-cases (int_eq connection_id minus_one)) [
        | inl lost ↦ rw lost (
            error-IsReceived 500 "Data base error" w0 w1 (log.0 ∙ same_responses)
              (log.1 ∙ same_records))
        | inr saved ↦ rw saved (
            deliver-IsReceived connection_id (c ∷ path) w0 w1 (λ r. kept r ∙ free r)
              (log.0 ∙ same_responses) (log.1 ∙ same_records))
      ]

  -- From a state in which no resource is held, an upload that stores every file part before the next
  -- one is found gets exactly one response, whatever calls fail. At most one message is recorded,
  -- only with the status 200, and it is an inbound file with the text of the response sent.
  pub api_upload_handler-IsReceived :
      (f : Form) (w : World E.Db)
      → stores_each false f.calls ≡ true
      → ((r : Resource) → held r w.log ≡ some false)
      → IsReceived w (api_upload_handler E J env f w)
  unfolding api_upload_handler finish_upload
  api_upload_handler-IsReceived f w ok free =
      let none_open : UploadCtx = record { fp = false; path = []; size = 0 } in
      let (u, w1) = form_calls E J env f.calls none_open w in
      let w2 = close_part E J env u w1 in
      let got =
        form_calls-held E J env f.calls false none_open w ok (λ e. refl) (free file)
          (free file_mutex) in
      let closed = close_part-held E J env u w1 (unfold same in got file) in
      let free2 : Idle w2 = λ r. ground (arith, closed r, got r, free r) in
      let calls_log = form_calls-log E J env f.calls none_open w in
      let close_log = close_part-log E J env u w1 in
      elim (Bool-cases (bytes_eq f.request_method (codes "POST"))) [
        | inr other ↦ rw other (error-IsReceived 405 "POST required" w w refl refl)
        | inl post ↦ elim (Bool-cases f.parsed) [
          | inr bad ↦
              rw (post, bad)
                (error-IsReceived 400 "Form parse error" w w2 (close_log.0 ∙ calls_log.0)
                  (close_log.1 ∙ calls_log.1))
          | inl parsed ↦
              rw (post, parsed)
                (finish_upload-IsReceived f u.path w w2 free2 (close_log.0 ∙ calls_log.0)
                  (close_log.1 ∙ calls_log.1))
        ]
      ]
