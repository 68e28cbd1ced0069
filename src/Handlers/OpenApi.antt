-- ===== src/Handlers/OpenApi.antt =====
-- `api_openapi_handler` of handlers/api_openapi.c.
pub mod Document
pub mod Answers
pub mod Balance
use sending_system.Base.{
  ℕ, Bool, true, false, ◌&&◌, ◌||◌, Option, none, some, [], ◌∷◌, ◌++◌, Bytes, codes, bytes_eq,
  decimal, snprintf, ℤ, pos, to_int32, length, if◌then◌else◌,
}
use sending_system.Sqlite.{Sqlite, is_positive}
use sending_system.System.{World, Response, emit, sent}
use sending_system.Handlers.Json.{
  Cjson, bytes_sent, hold_json, read_json, free_json, http_send_error,
}
use sending_system.Handlers.OpenApi.Document.{CjsonHeap, k_endpoints, add_paths, add_components}

-- A request as CivetWeb presents it: the method and the header Host, `none` for NULL.
pub record Query : Type 0 where
  pub request_method : Bytes
  pub host : Option Bytes

-- SSL_ENCRYPT and CONNECTION_PORT of config.h
abbrev scheme : Bytes
scheme = codes "https"

abbrev port : ℕ
port = 5000

-- "%s://127.0.0.1:%d"
unfoldable pub loopback : ℕ → Bytes
unfolding decimal
loopback capacity = snprintf capacity (scheme ++ (codes "://127.0.0.1:" ++ decimal port))

-- The string that `build_server_url` leaves in a buffer of so many bytes.
unfoldable pub build_server_url : Option Bytes → ℕ → Bytes
unfolding loopback
build_server_url none capacity = loopback capacity
build_server_url (some []) capacity = loopback capacity
build_server_url (some (c ∷ host)) capacity =
    snprintf capacity (scheme ++ (codes "://" ++ (c ∷ host)))

-- The response: `json_length`, and the body for GET alone.
unfoldable pub document_response : Bool → Option Bytes → Response
unfolding bytes_sent
document_response is_get none = record {
  status = 200;
  reason = codes "OK";
  content_length = pos 0;
  content = [];
}
document_response is_get (some text) =
    let json_length = to_int32 (pos (length text)) in
    record {
      status = 200;
      reason = codes "OK";
      content_length = json_length;
      content = if is_get then bytes_sent json_length text else [];
    }

module _ (C : CjsonHeap) where
  -- The document, up to the call of cJSON_PrintUnformatted.
  unfoldable pub build_document : Option Bytes → C.Heap → C.Node × C.Heap
  unfolding build_server_url add_paths add_components
  build_document host h =
      let (root, h1) = C.create_object h in
      let h2 = C.add_string root (codes "openapi") (codes "3.1.0") h1 in
      let (info, h3) = C.add_object root (codes "info") h2 in
      let h4 = C.add_string info (codes "title") (codes "SendingSystem API") h3 in
      let h5 = C.add_string info (codes "version") (codes "1.0.0") h4 in
      let h6 =
        C.add_string info (codes "description")
          (codes
            "Public HTTP API of the SendingSystem server. Request and response bodies are JSON unless an operation says otherwise.")
          h5 in
      let server_url = build_server_url host 128 in
      let (servers, h7) = C.add_array root (codes "servers") h6 in
      let (server_entry, h8) = C.create_object h7 in
      let h9 = C.add_string server_entry (codes "url") server_url h8 in
      let h10 = C.add_element servers server_entry h9 in
      let (paths, h11) = C.add_object root (codes "paths") h10 in
      let h12 = add_paths C paths k_endpoints h11 in (root, add_components C root h12)

  module _ (E : Sqlite) (J : Cjson) where
    -- From the printed text on.
    unfoldable pub send_document : Bool → Option Bytes → World E.Db → World E.Db
    unfolding document_response
    send_document is_get json w =
        let w1 = hold_json E J json w in
        free_json E J json (emit (sent (document_response is_get json)) (read_json E J json w1))

    -- The heap of cJSON is passed on; `http_send_error` has the cJSON of `Cjson`.
    unfoldable pub api_openapi_handler : Query → World E.Db → C.Heap → World E.Db × C.Heap
    unfolding build_document send_document
    api_openapi_handler rq w h =
        let is_get = bytes_eq rq.request_method (codes "GET") in
        let is_head = bytes_eq rq.request_method (codes "HEAD") in
        let (root, h1) = build_document rq.host h in
        let (json, h2) = C.print_unformatted root h1 in
        if is_get || is_head
        then (send_document is_get json w, C.delete root h2)
        else (http_send_error E J 405 "GET required" w, h)
