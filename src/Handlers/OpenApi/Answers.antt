-- ===== src/Handlers/OpenApi/Answers.antt =====
-- What /api/openapi.json answers.
use sending_system.Base.{
  ℕ, ◌≡◌, ◌<◌, ◌^◌, refl, Bool, true, false, ◌||◌, Option, some, [], ◌∷◌, arith, Bytes, codes,
  bytes_eq, pos, to_int32, to_int32_fits, ap, ◌∙◌, length, take_of_length-le, if◌then◌else◌,
  Bool-cases, inl, inr,
}
use sending_system.Sqlite.{Sqlite}
use sending_system.System.{World, Response, Resource, document, json}
use sending_system.System.Held.{held, responses, records, written}
use sending_system.Handlers.Json.{
  Cjson, response_of, hold_json, read_json, free_json, http_build_json, http_send_error,
}
use sending_system.Handlers.Json.Resources.{
  http_send_error-held, http_send_error-log, db-http_send_error,
}
use sending_system.Handlers.OpenApi.Document.{CjsonHeap}
use sending_system.Handlers.OpenApi.{
  Query, document_response, build_document, send_document, api_openapi_handler,
}

-- The method is GET or HEAD.
abbrev pub is_read : Bytes → Bool
is_read method = bytes_eq method (codes "GET") || bytes_eq method (codes "HEAD")

-- The status 200 with the length of the one text, and the other as the body.
abbrev pub ok_response : Bytes → Bytes → Response
ok_response text content = record {
  status = 200;
  reason = codes "OK";
  content_length = pos (length text);
  content = content;
}

document_response_text :
    (text : Bytes)
    → length text < 2 ^ 31
    → (document_response true (some text) ≡ ok_response text text)
      × (document_response false (some text) ≡ ok_response text [])
unfolding document_response
document_response_text text short =
    let fits : to_int32 (pos (length text)) ≡ pos (length text) =
      to_int32_fits (pos (length text)) short in
    let whole = take_of_length-le (length text) text (omega arith) in
    (rw (fits, whole) refl, rw (fits) refl)

module _ (C : CjsonHeap) (E : Sqlite) (J : Cjson) where
  -- The text of the document, as it is printed.
  abbrev pub printed : Option Bytes → C.Heap → Option Bytes
  printed host h = let (root, h1) = build_document C host h in (C.print_unformatted root h1).0

  module _ (is_get : Bool) (text : Option Bytes) (w : World E.Db) where
    send_document-held :
        held document w.log ≡ some false
        → held json w.log ≡ some false
        → (r : Resource) → held r (send_document C E J is_get text w).log ≡ held r w.log
    unfolding send_document hold_json read_json free_json held
    send_document-held hd hj document = ground arith
    send_document-held hd hj r = ground arith

    send_document-log :
        (responses (send_document C E J is_get text w).log
          ≡ document_response is_get text ∷ responses w.log)
        × (records (send_document C E J is_get text w).log ≡ records w.log)
        × (written (send_document C E J is_get text w).log ≡ written w.log)
        × ((send_document C E J is_get text w).db ≡ w.db)
    unfolding send_document hold_json read_json free_json responses records written
    send_document-log = ground arith

    document_response_status : (document_response is_get text).status ≡ 200
    unfolding document_response
    document_response_status = ground arith

  -- One response was sent, with the status, and nothing else was left.
  pub record IsOnly (status : ℕ) (w w' : World E.Db) : Type 0 where
    pub response : Response
    pub is_sent : responses w'.log ≡ response ∷ responses w.log
    pub is_status : response.status ≡ status
    pub recorded_same : records w'.log ≡ records w.log
    pub written_same : written w'.log ≡ written w.log
    pub db_same : w'.db ≡ w.db
    pub held_same : (r : Resource) → held r w'.log ≡ held r w.log

  refused-IsOnly :
      (w : World E.Db)
      → held document w.log ≡ some false
      → held json w.log ≡ some false
      → IsOnly 405 w (http_send_error E J 405 "GET required" w)
  unfolding response_of
  refused-IsOnly w hd hj =
      let log = http_send_error-log E J 405 "GET required" w in
      record {
        response = response_of 405 (http_build_json E J "error" "GET required" w).0;
        is_sent = log.0;
        is_status = ground arith;
        recorded_same = log.1;
        written_same = log.2;
        db_same = db-http_send_error E J 405 "GET required" w;
        held_same = http_send_error-held E J 405 "GET required" w hd hj;
      }

  -- From a state in which no cJSON object and no text is held, a request to /api/openapi.json gets
  -- exactly one response, with the status 200 if its method is GET or HEAD and 405 otherwise. It
  -- changes neither the database nor a file, records no message, and frees every text that cJSON
  -- prints for it.
  pub api_openapi_handler-IsOnly :
      (rq : Query) (w : World E.Db) (h : C.Heap)
      → held document w.log ≡ some false
      → held json w.log ≡ some false
      → IsOnly
          (if is_read rq.request_method then 200 else 405)
          w
          (api_openapi_handler C E J rq w h).0
  unfolding api_openapi_handler
  api_openapi_handler-IsOnly rq w h hd hj =
      let is_get = bytes_eq rq.request_method (codes "GET") in
      let text = printed rq.host h in
      let log = send_document-log is_get text w in
      elim (Bool-cases (is_read rq.request_method)) [
        | inr other ↦ rw (other) (refused-IsOnly w hd hj)
        | inl read ↦ rw (read) (record {
          response = document_response is_get text;
          is_sent = log.0;
          is_status = document_response_status is_get text w;
          recorded_same = log.1;
          written_same = log.2;
          db_same = log.3;
          held_same = send_document-held is_get text w hd hj;
        })
      ]

  -- HEAD for a document whose text is shorter than 2^31 gets the status, the reason and the announced
  -- length of GET without a body, and GET gets the whole text; the calls of cJSON are the same.
  pub api_openapi_handler_head :
      (host : Option Bytes) (w : World E.Db) (h : C.Heap) (text : Bytes)
      → printed host h ≡ some text
      → length text < 2 ^ 31
      → let get =
          api_openapi_handler C E J (record { request_method = codes "GET"; host = host }) w h in
        let head =
          api_openapi_handler C E J (record { request_method = codes "HEAD"; host = host }) w h in
        (responses get.0.log ≡ ok_response text text ∷ responses w.log)
        × (responses head.0.log ≡ ok_response text [] ∷ responses w.log)
        × (get.1 ≡ head.1)
  unfolding api_openapi_handler codes bytes_eq
  api_openapi_handler_head host w h text e short =
      let got = send_document-log true (printed host h) w in
      let headed = send_document-log false (printed host h) w in
      let sizes = document_response_text text short in
      (
        got.0
            ∙ ap (λ o. document_response true o ∷ responses w.log) e
            ∙ ap (λ r. r ∷ responses w.log) sizes.0,
        headed.0
            ∙ ap (λ o. document_response false o ∷ responses w.log) e
            ∙ ap (λ r. r ∷ responses w.log) sizes.1,
        refl,
      )
