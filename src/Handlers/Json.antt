-- ===== src/Handlers/Json.antt =====
-- handlers/http_json.c. The cJSON library is not part of the repository: its calls are a record.
pub mod Resources
use sending_system.Base.{
  take, negsuc, ℕ, String, Bool, Option, none, some, [], Bytes, codes, ℤ, pos, ◌==◌, to_int32,
  length, if◌then◌else◌,
}
use sending_system.Sqlite.{Sqlite, is_positive}
use sending_system.System.{
  Env, World, Response, emit, ask, document, json, acquire, release, access, sent,
}

pub record Cjson : Type 1 where
  pub Json : Type 0
  -- `cJSON_Parse`; `none` is NULL.
  pub parse : Bytes → Option Json
  pub get_object_item : Json → Bytes → Option Json
  -- `valuestring` of an item for which `cJSON_IsString` holds.
  pub valuestring : Json → Option Bytes
  pub create_object : ℕ → Json
  pub add_string : Json → Bytes → Bytes → Json
  -- `cJSON_PrintUnformatted`; `none` is NULL.
  pub print_unformatted : ℕ → Json → Option Bytes

unfoldable pub reason_of : ℕ → Bytes
reason_of status =
    if status == 200
    then codes "OK"
    else if status == 400
    then codes "Bad Request"
    else if status == 405
    then codes "Method Not Allowed"
    else if status == 500
    then codes "Internal Server Error"
    else codes "Error"

-- What `mg_write` sends of a text, given a length; nothing if it is not positive.
unfoldable pub bytes_sent : ℤ → Bytes → Bytes
bytes_sent (pos n) text = take n text
bytes_sent (negsuc n) text = []

-- The length that is announced, and the bytes that follow the head.
unfoldable pub response_of : ℕ → Option Bytes → Response
unfolding reason_of bytes_sent
response_of status none = record {
  status = status;
  reason = reason_of status;
  content_length = pos 0;
  content = [];
}
response_of status (some text) =
    let n = to_int32 (pos (length text)) in
    record {
      status = status;
      reason = reason_of status;
      content_length = n;
      content = bytes_sent n text;
    }

module _ (E : Sqlite) (J : Cjson) where
  -- The heap block of the text, if there is one.
  unfoldable pub hold_json : Option Bytes → World E.Db → World E.Db
  hold_json none w = w
  hold_json (some text) w = emit (acquire json) w

  -- `free(json)`, which does nothing for NULL.
  unfoldable pub free_json : Option Bytes → World E.Db → World E.Db
  free_json none w = w
  free_json (some text) w = emit (release json) w

  unfoldable pub http_build_json : String → String → World E.Db → Option Bytes × World E.Db
  http_build_json type payload w =
      let (empty, w1) = ask J.create_object w in
      let w2 = emit (acquire document) w1 in
      let typed = J.add_string empty (codes "type") (codes type) in
      let filled = J.add_string typed (codes "data") (codes payload) in
      let (text, w3) = ask (λ n. J.print_unformatted n filled) w2 in
      (text, emit (release document) (hold_json text w3))

  -- The text is read while it is sent.
  unfoldable pub read_json : Option Bytes → World E.Db → World E.Db
  read_json none w = w
  read_json (some text) w = emit (access json) w

  unfoldable pub http_send_built_json : ℕ → Option Bytes → World E.Db → World E.Db
  http_send_built_json status text w = emit (sent (response_of status text)) (read_json text w)

  unfoldable pub http_send_json : ℕ → String → String → World E.Db → World E.Db
  http_send_json status type payload w =
      let (text, w1) = http_build_json type payload w in
      free_json text (http_send_built_json status text w1)

  unfoldable pub http_send_error : ℕ → String → World E.Db → World E.Db
  http_send_error status msg = http_send_json status "error" msg
