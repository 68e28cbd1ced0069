-- ===== src/Handlers/Send/Verdict.antt =====
-- What `api_send_handler` is to do with a request.
pub mod Carried
use sending_system.Base.{
  ℕ, ◌+◌, ◌==◌, String, ◌≡◌, ◌∙◌, ◌⊎◌, refl, ap, Bool, true, false, Option, none, some, List, ◌∷◌,
  ◌++◌, pos, arith, Bytes, codes, bytes_eq, ℤ, length, if◌then◌else◌, Bool-cases, Option-cases, inl,
  inr,
}
use sending_system.Sqlite.{Sqlite}
use sending_system.System.{
  Env, World, Resource, print_mutex, file_mutex, body, root, document, json, schema, file, handle,
  emit, ask, acquire, release, access,
}
use sending_system.System.Held.{held, responses, records, written}
use sending_system.Database.Models.{
  Message, success, failed, raw_data, inbound, status_id, type_id, direction_id,
}
use sending_system.Handlers.Json.{Cjson, response_of, http_build_json, http_send_error}
use sending_system.Handlers.Json.Resources.{http_build_json-log, http_send_error-log}
use sending_system.Handlers.ContentLength.{content_length_of, accepted_length}
use sending_system.Handlers.Saving.{
  save_dir, safe_name_of, save_path, save_connection, save_text_to_file,
}
use sending_system.FileService.Sanitize.{max_filename}
use sending_system.Handlers.Saving.Resources.{save_connection-held, save_connection-log}
use sending_system.Handlers.Send.Resources.Answered.{IsIdle, answer-held}
use sending_system.Handlers.Send.Logs.{answer-log, conclude-log}
use sending_system.Handlers.Send.{
  Request, string_item, save_target, answer, message_for, conclude, process, parse_body, terminated,
  receive, api_send_handler,
}

-- The file of a text: its sanitized name in SAVE_DIR.
abbrev pub text_path : Bool → Bytes → Bytes
text_path compiled path = save_dir ++ (codes "/" ++ safe_name_of compiled path)

-- The row of the history: an inbound text, with the status SUCCESS just if the response has 200.
abbrev pub text_message : ℤ → ℕ → Option Bytes → Bytes → Bytes → Message
text_message connection_id status response request time = record {
  id = pos 0;
  connection_id = connection_id;
  message_status_id = if status == 200 then status_id success else status_id failed;
  message_type_id = type_id raw_data;
  direction_id = direction_id inbound;
  response = response;
  sending_time = some time;
  request = some request;
}

module _ (E : Sqlite) (J : Cjson) (env : Env E) where
  -- The status and the message of a refusal, or the body of a request that is answered, its path and
  -- its text.
  pub data Verdict : Type 0 where
    refused : ℕ → String → Verdict
    accepted : Bytes → Option Bytes → Bytes → Verdict

  unfoldable pub verdict_object : Bytes → J.Json → Verdict
  verdict_object request object = elim (string_item E J env object "data") [
    | none ↦ refused 400 "Missing 'data'"
    | some text ↦
        accepted request (save_target E J env (string_item E J env object "saveToPath")) text
  ]

  unfoldable pub verdict_body : Bytes → Verdict
  unfolding verdict_object
  verdict_body request = elim (J.parse request) [
    | none ↦ refused 400 "JSON parse error"
    | some object ↦ verdict_object request object
  ]

  unfoldable pub verdict : Request → Verdict
  unfolding verdict_body
  verdict rq =
      if bytes_eq rq.request_method (codes "POST")
      then elim (accepted_length (content_length_of rq.content_length)) [
        | none ↦ refused 400 "Invalid Content-Length"
        | some n ↦
            if length (rq.read n) == n
            then verdict_body (terminated E J env (rq.read n))
            else refused 400 "Incomplete body"
      ]
      else refused 405 "POST required"

  -- What the request leaves in the list of files: a text is written to the file of its own, with the
  -- status 200, or not, with the status 500; without a path nothing is written.
  abbrev pub Wrote : Option Bytes → Bytes → ℕ → World E.Db → World E.Db → Type 0
  Wrote none text status w w' = (status ≡ 200) × (written w'.log ≡ written w.log)
  Wrote (some path) text status w w' =
      ((compiled : Bool) × (status ≡ 200)
        × (written w'.log ≡ (text_path compiled path, text) ∷ written w.log))
      ⊎ ((status ≡ 500) × (written w'.log ≡ written w.log))

  abbrev pub Refused : ℕ → String → World E.Db → World E.Db → Type 0
  Refused status msg w w' =
      ((w0 : World E.Db) × (responses w'.log
          ≡ response_of status (http_build_json E J "error" msg w0).0 ∷ responses w.log))
      × (records w'.log ≡ records w.log)
      × (written w'.log ≡ written w.log)

  module _ (connection_id : ℤ) (Noted : Message → List Message → List Message → Type 0) where
    -- The verdict is carried out. `Noted` says what becomes of the row of the history.
    abbrev pub Follows : Verdict → World E.Db → World E.Db → Type 0
    Follows (refused status msg) w w' = Refused status msg w w'
    Follows (accepted request target text) w w' =
        (status : ℕ) × (json : Option Bytes) × (time : Bytes) × (responses w'.log
          ≡ response_of status json ∷ responses w.log)
        × Noted (text_message connection_id status json request time) (records w.log)
            (records w'.log)
        × Wrote target text status w w'
