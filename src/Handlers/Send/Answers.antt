-- ===== src/Handlers/Send/Answers.antt =====
-- What `api_send_handler` answers, records and writes.
use sending_system.Base.{
  ℕ, ◌==◌, String, ◌≡◌, ◌⊎◌, refl, true, false, Option, some, [], ◌∷◌, arith, Bytes, codes,
  bytes_eq, ℤ, minus_one, length, if◌then◌else◌, Bool-cases, Option-cases, inl, inr,
}
use sending_system.Sqlite.{Sqlite}
use sending_system.System.{
  Env, World, Resource, print_mutex, file_mutex, body, root, document, json, schema, file, handle,
  emit, ask, acquire, release, access,
}
use sending_system.System.Held.{held, responses, records, written}
use sending_system.Database.Models.{
  Message, success, failed, raw_data, inbound, status_id, type_id, direction_id,
}
use sending_system.Handlers.Json.{Cjson, response_of, http_build_json, http_send_error}
use sending_system.Handlers.Json.Resources.{db-http_send_error, http_send_error-log}
use sending_system.Handlers.ContentLength.{content_length_of, accepted_length}
use sending_system.Handlers.Saving.{save_connection}
use sending_system.Handlers.Saving.Resources.{save_connection-held, save_connection-log}
use sending_system.Handlers.Saving.Paths.{InSaveDir}
use sending_system.Handlers.Send.Resources.Answered.{IsIdle, answer-held}
use sending_system.Handlers.Send.{
  Request, string_item, save_target, answer, message_for, process, parse_body, terminated, receive,
  api_send_handler,
}
use sending_system.Handlers.Send.Logs.{answer-log, conclude-log}

-- One response was sent. At most one message was recorded: an inbound text whose response is the
-- text of the response sent, and whose status is SUCCESS exactly for the status 200. At most one
-- file was written, in SAVE_DIR.
pub record IsAnswered {Db : Type 0} (w w' : World Db) : Type 0 where
  pub status : ℕ
  pub text : Option Bytes
  pub message : Message
  pub answers : responses w'.log ≡ response_of status text ∷ responses w.log
  pub recorded_once : (records w'.log ≡ records w.log) ⊎ (records w'.log ≡ message ∷ records w.log)
  pub same_text : message.response ≡ text
  pub same_status :
      message.message_status_id ≡ (if status == 200 then status_id success else status_id failed)
  pub same_type : message.message_type_id ≡ type_id raw_data
  pub same_direction : message.direction_id ≡ direction_id inbound
  pub written_once :
      (written w'.log ≡ written w.log)
      ⊎ ((path : Bytes) × (content : Bytes) × InSaveDir path
          × (written w'.log ≡ (path, content) ∷ written w.log))

module _ (E : Sqlite) (J : Cjson) (env : Env E) where
  -- What happens before the answer and leaves no trace in the three views does not matter.
  IsAnswered-after :
      {w w1 w' : World E.Db}
      → responses w1.log ≡ responses w.log
      → records w1.log ≡ records w.log
      → written w1.log ≡ written w.log
      → IsAnswered w1 w'
      → IsAnswered w w'
  IsAnswered-after {w} {w1} {w'} p q s a = record {
    status = a.status;
    text = a.text;
    message = a.message;
    answers = rw (← p) a.answers;
    recorded_once = rw (← q) a.recorded_once;
    same_text = a.same_text;
    same_status = a.same_status;
    same_type = a.same_type;
    same_direction = a.same_direction;
    written_once = rw (← s) a.written_once;
  }

  error-IsAnswered :
      (status : ℕ) (msg : String) (w : World E.Db) → IsAnswered w (http_send_error E J status msg w)
  unfolding message_for
  error-IsAnswered status msg w =
      let text = (http_build_json E J "error" msg w).0 in
      let log = http_send_error-log E J status msg w in
      record {
        status = status;
        text = text;
        message = message_for E J env minus_one status text [] [];
        answers = log.0;
        recorded_once = inl log.1;
        same_text = refl;
        same_status = refl;
        same_type = refl;
        same_direction = refl;
        written_once = inl log.2;
      }

  process-IsAnswered :
      (connection_id : ℤ) (request : Bytes) (object : J.Json) (w : World E.Db)
      → IsIdle w
      → held root w.log ≡ some true
      → IsAnswered w (process E J env connection_id request object w)
  unfolding process message_for held responses records written
  process-IsAnswered connection_id request object w idle hr =
      elim (Option-cases (string_item E J env object "data")) [
        | inl missing ↦
            rw (missing, process)
              (IsAnswered-after refl refl refl (
                error-IsAnswered 400 "Missing 'data'"
                  (emit (release body) (emit (release root) w))))
        | inr (text, found) ↦
            let target = save_target E J env (string_item E J env object "saveToPath") in
            let a = answer E J env target text w in
            let kept = answer-held E J env target text w idle hr in
            let log = answer-log E J env target text w in
            let end =
              conclude-log E J env connection_id request a.0 a.1 a.2 (ground (arith, kept file))
                (ground (arith, kept schema)) (ground (arith, kept handle)) in
            rw (found, process)
              (record {
                status = a.0;
                text = a.1;
                message = message_for E J env connection_id a.0 a.1 request (env.now a.2.calls);
                answers = rw (← log.0) end.0;
                recorded_once = rw (← log.1) end.1;
                same_text = refl;
                same_status = refl;
                same_type = refl;
                same_direction = refl;
                written_once = rw (end.2) (elim log.2 [
                  | inl none_more ↦ inl none_more
                  | inr (path, inside, more) ↦ inr (path, text, inside, more)
                ]);
              })
      ]

  parse_body-IsAnswered :
      (connection_id : ℤ) (request : Bytes) (w : World E.Db)
      → IsIdle w
      → held root w.log ≡ some false
      → IsAnswered w (parse_body E J env connection_id request w)
  unfolding parse_body held responses records written
  parse_body-IsAnswered connection_id request w idle hr = elim (Option-cases (J.parse request)) [
    | inl unparsed ↦
        rw (unparsed, parse_body)
          (IsAnswered-after refl refl refl
            (error-IsAnswered 400 "JSON parse error" (emit (release body) w)))
    | inr (object, parsed) ↦
        rw (parsed, parse_body)
          (IsAnswered-after refl refl refl (
            process-IsAnswered connection_id request object (emit (acquire root) w) (ground arith)
              (ground arith)))
  ]

  receive-IsAnswered :
      (rq : Request) (connection_id : ℤ) (n : ℕ) (w : World E.Db)
      → IsIdle w
      → held root w.log ≡ some false
      → IsAnswered w (receive E J env rq connection_id n w)
  unfolding receive held responses records written
  receive-IsAnswered rq connection_id n w idle hr =
      let w1 = (ask env.malloc w).1 in
      let w2 = emit (access body) (emit (acquire body) w1) in
      elim (Bool-cases (env.malloc w.calls)) [
        | inr refused ↦
            rw (refused, receive)
              (IsAnswered-after refl refl refl (error-IsAnswered 500 "Memory error" w1))
        | inl got ↦ elim (Bool-cases (length (rq.read n) == n)) [
          | inr short ↦
              rw (got, short, receive)
                (IsAnswered-after refl refl refl
                  (error-IsAnswered 400 "Incomplete body" (emit (release body) w2)))
          | inl whole ↦
              rw (got, whole, receive)
                (IsAnswered-after refl refl refl (
                  parse_body-IsAnswered connection_id (terminated E J env (rq.read n))
                    (emit (access body) w2) (ground arith) (ground arith)))
        ]
      ]

  -- From a state in which no resource is held, every request to /api/send gets exactly one response,
  -- whatever calls fail. At most one message is recorded, and it is an inbound text with the text of
  -- the response sent and the status SUCCESS exactly if the response has the status 200. At most one
  -- file is written, and it lies in SAVE_DIR under a safe name.
  pub api_send_handler-IsAnswered :
      (rq : Request) (w : World E.Db)
      → ((r : Resource) → held r w.log ≡ some false)
      → IsAnswered w (api_send_handler E J env rq w)
  unfolding api_send_handler
  api_send_handler-IsAnswered rq w free =
      let kept =
        save_connection-held E env w rq.remote_addr (free file) (free schema) (free handle) in
      let log =
        save_connection-log E env w rq.remote_addr (free file) (free schema) (free handle) in
      let saved = save_connection E env rq.remote_addr w in
      let free1 : (r : Resource) → held r saved.1.log ≡ some false =
        λ r. ground (arith, kept r, free r) in
      elim (Bool-cases (bytes_eq rq.request_method (codes "POST"))) [
        | inr other ↦ rw other (error-IsAnswered 405 "POST required" w)
        | inl post ↦ elim (Option-cases (accepted_length (content_length_of rq.content_length))) [
          | inl invalid ↦
              rw (post, invalid)
                (IsAnswered-after log.0 log.1 log.2
                  (error-IsAnswered 400 "Invalid Content-Length" saved.1))
          | inr (n, valid) ↦
              rw (post, valid)
                (IsAnswered-after log.0 log.1 log.2 (
                  receive-IsAnswered rq saved.0 n saved.1
                    (record {
                      print_mutex_free = free1 print_mutex;
                      file_mutex_free = free1 file_mutex;
                      document_free = free1 document;
                      json_free = free1 json;
                      schema_free = free1 schema;
                      file_free = free1 file;
                      handle_free = free1 handle;
                    })
                    (free1 root)))
        ]
      ]

  -- A request to /api/send with another method than POST gets one response with the status 405, and
  -- neither opens the database nor records a message nor writes a file.
  pub api_send_handler_other_method :
      (rq : Request) (w : World E.Db)
      → bytes_eq rq.request_method (codes "POST") ≡ false
      → let w' = api_send_handler E J env rq w in
        ((text : Option Bytes) × (responses w'.log ≡ response_of 405 text ∷ responses w.log))
        × (w'.db ≡ w.db)
        × (records w'.log ≡ records w.log)
        × (written w'.log ≡ written w.log)
  unfolding api_send_handler
  api_send_handler_other_method rq w other =
      let log = http_send_error-log E J 405 "POST required" w in
      rw other (
        ((http_build_json E J "error" "POST required" w).0, log.0),
        db-http_send_error E J 405 "POST required" w,
        log.1,
        log.2,
      )
