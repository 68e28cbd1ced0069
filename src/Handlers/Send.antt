-- ===== src/Handlers/Send.antt =====
-- `api_send_handler` of handlers/api_send.c. The C function returns 1 on every path; the model
-- returns the world.
pub mod Resources
pub mod Logs
pub mod Answers
pub mod Locks
pub mod Verdict
pub mod Outcome
use mathlib.Core.Option
use sending_system.Base.{
  ℕ, ◌==◌, String, Bool, true, false, Option, none, some, [], ◌∷◌, ◌++◌, Bytes, codes, c_string,
  bytes_eq, ℤ, minus_one, int_eq, pos, length, if◌then◌else◌,
}
use sending_system.Sqlite.{Sqlite}
use sending_system.System.{
  Env, World, emit, ask, print_mutex, body, root, acquire, release, access, logged,
}
use sending_system.Database.Models.{
  Message, success, failed, raw_data, inbound, status_id, type_id, direction_id,
}
use sending_system.Handlers.Json.{
  Cjson, http_build_json, http_send_built_json, http_send_error, free_json, read_json,
}
use sending_system.Console.{print_info}
use sending_system.Handlers.ContentLength.{content_length_of, accepted_length}
use sending_system.Handlers.Saving.{save_connection, save_message, save_text_to_file}

-- A request as CivetWeb presents it: `read n` is what `mg_read` delivers for `n` bytes.
pub record Request : Type 0 where
  pub request_method : Bytes
  pub remote_addr : Bytes
  pub content_length : Option Bytes
  pub read : ℕ → Bytes

module _ (E : Sqlite) (J : Cjson) (env : Env E) where
  -- The string under a key, if there is one.
  unfoldable pub string_item : J.Json → String → Option Bytes
  string_item object key = Option.bind (J.get_object_item object (codes key)) J.valuestring

  -- `saveToPath`, if the text is to be saved.
  unfoldable pub save_target : Option Bytes → Option Bytes
  save_target none = none
  save_target (some []) = none
  save_target (some (c ∷ path)) = some (c ∷ path)

  -- `print_info` of the text, which lies in the parsed object, under the mutex.
  unfoldable pub print_text : Bytes → World E.Db → World E.Db
  print_text text w =
      let w1 = emit (access root) (emit (acquire print_mutex) w) in
      let line = print_info (codes "[RAW_DATA]: " ++ (text ++ codes "\n")) in
      emit (release print_mutex) (emit (logged line) w1)

  -- The text is printed or saved, and the response is built: its status and its text.
  unfoldable pub answer : Option Bytes → Bytes → World E.Db → ℕ × Option Bytes × World E.Db
  unfolding print_text
  answer none text w =
      let (json, w1) = http_build_json E J "message" "OK" (print_text text w) in (200, json, w1)
  answer (some path) text w =
      let (saved, w1) = save_text_to_file E env text path (emit (access root) w) in
      let (good, w2) = http_build_json E J "message" "File saved" w1 in
      let (bad, w3) = http_build_json E J "error" "Cannot save file" w1 in
      if saved then (200, good, w2) else (500, bad, w3)

  -- The row of the history.
  unfoldable pub message_for : ℤ → ℕ → Option Bytes → Bytes → Bytes → Message
  unfolding status_id type_id direction_id
  message_for connection_id status json request time = record {
    id = pos 0;
    connection_id = connection_id;
    message_status_id = if status == 200 then status_id success else status_id failed;
    message_type_id = type_id raw_data;
    direction_id = direction_id inbound;
    response = json;
    sending_time = some time;
    request = some request;
  }

  -- The history row, if the connection was saved.
  unfoldable pub persist : ℤ → ℕ → Option Bytes → Bytes → World E.Db → World E.Db
  persist connection_id status json request w =
      let (time, w1) = ask env.now w in
      let m = message_for connection_id status json request time in
      if int_eq connection_id minus_one
      then w
      else (save_message E env m (emit (access body) (read_json E J json w1))).1

  -- The tail of the function: persist, send, free.
  unfoldable pub conclude : ℤ → Bytes → ℕ → Option Bytes → World E.Db → World E.Db
  conclude connection_id request status json w =
      let w1 = persist connection_id status json request w in
      let w2 = http_send_built_json E J status json w1 in
      emit (release root) (emit (release body) (free_json E J json w2))

  -- From the parsed object on.
  unfoldable pub process : ℤ → Bytes → J.Json → World E.Db → World E.Db
  process connection_id request object w = elim (string_item object "data") [
    | none ↦ http_send_error E J 400 "Missing 'data'" (emit (release body) (emit (release root) w))
    | some text ↦
        let (status, json, w1) = answer (save_target (string_item object "saveToPath")) text w in
        conclude connection_id request status json w1
  ]

  -- From the received body on.
  unfoldable pub parse_body : ℤ → Bytes → World E.Db → World E.Db
  parse_body connection_id request w = elim (J.parse request) [
    | none ↦ http_send_error E J 400 "JSON parse error" (emit (release body) w)
    | some object ↦ process connection_id request object (emit (acquire root) w)
  ]

  -- `body[content_length] = '\0'`: the string that the buffer then holds.
  unfoldable pub terminated : Bytes → Bytes
  unfolding c_string
  terminated request = Option.get_or (c_string (request ++ (0 ∷ []))) []

  -- From the accepted length on.
  unfoldable pub receive : Request → ℤ → ℕ → World E.Db → World E.Db
  receive rq connection_id n w =
      let (got, w1) = ask env.malloc w in
      let w2 = emit (access body) (emit (acquire body) w1) in
      let request = rq.read n in
      if got
      then (if length request == n
          then parse_body connection_id (terminated request) (emit (access body) w2)
          else http_send_error E J 400 "Incomplete body" (emit (release body) w2))
      else http_send_error E J 500 "Memory error" w1

  unfoldable pub api_send_handler : Request → World E.Db → World E.Db
  api_send_handler rq w =
      let (connection_id, w1) = save_connection E env rq.remote_addr w in
      if bytes_eq rq.request_method (codes "POST")
      then elim (accepted_length (content_length_of rq.content_length)) [
        | none ↦ http_send_error E J 400 "Invalid Content-Length" w1
        | some n ↦ receive rq connection_id n w1
      ]
      else http_send_error E J 405 "POST required" w
