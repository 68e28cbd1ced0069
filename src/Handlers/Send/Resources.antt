-- ===== src/Handlers/Send/Resources.antt =====
-- `api_send_handler` gives back every resource that it takes, on every path.
pub mod Answered
use sending_system.Base.{
  ℕ, ◌≡◌, true, false, ◌&&◌, ◌||◌, Option, none, some, arith, Bytes, codes, bytes_eq, ℤ,
  if◌then◌else◌, Bool-cases, Option-cases, inl, inr,
}
use sending_system.Sqlite.{Sqlite}
use sending_system.System.{
  Env, World, Resource, print_mutex, file_mutex, body, root, document, json, schema, file, handle,
  emit, ask, acquire, release, access,
}
use sending_system.System.Held.{same, held, present}
use sending_system.Handlers.Json.{Cjson, http_send_built_json, read_json}
use sending_system.Handlers.Json.Resources.{
  http_build_json-held, http_send_built_json-held, http_send_error-held, free_json-held,
}
use sending_system.Handlers.ContentLength.{content_length_of, accepted_length}
use sending_system.Handlers.Saving.{save_connection, save_text_to_file}
use sending_system.Handlers.Saving.Resources.{
  save_connection-held, save_message-held, save_text_to_file-held,
}
use sending_system.Handlers.Send.{
  Request, string_item, save_target, answer, message_for, persist, conclude, process, parse_body,
  terminated, receive, api_send_handler,
}
-- Everything that a handler takes by itself is free.
use sending_system.Handlers.Send.Resources.Answered.{
  IsIdle, answer-held, persist-held, conclude-held,
}

module _ (E : Sqlite) (J : Cjson) (env : Env E) where
  process-held :
      (connection_id : ℤ) (request : Bytes) (object : J.Json) (w : World E.Db)
      → IsIdle w
      → held body w.log ≡ some true
      → held root w.log ≡ some true
      → (r : Resource)
      → held r (process E J env connection_id request object w).log
        ≡ (if same r body || same r root then some false else held r w.log)
  unfolding process held
  process-held connection_id request object w idle hb hr r =
      elim (Option-cases (string_item E J env object "data")) [
        | inl missing ↦
            let w1 = emit (release body) (emit (release root) w) in
            rw (missing, process)
              (ground (
                arith,
                http_send_error-held E J 400 "Missing 'data'" w1 (ground arith) (ground arith) r,
              ))
        | inr (text, found) ↦
            let target = save_target E J env (string_item E J env object "saveToPath") in
            let a = answer E J env target text w in
            let kept = answer-held E J env target text w idle hr in
            rw (found, process)
              (ground (
                arith,
                kept r,
                conclude-held E J env connection_id request a.0 a.1 a.2 (ground (arith, kept file))
                    (ground (arith, kept schema)) (ground (arith, kept handle))
                    (ground (arith, kept body)) (ground (arith, kept root))
                    (ground (arith, kept json)) r,
              ))
      ]

  parse_body-held :
      (connection_id : ℤ) (request : Bytes) (w : World E.Db)
      → IsIdle w
      → held body w.log ≡ some true
      → held root w.log ≡ some false
      → (r : Resource)
      → held r (parse_body E J env connection_id request w).log
        ≡ (if same r body then some false else held r w.log)
  unfolding parse_body held
  parse_body-held connection_id request w idle hb hr r = elim (Option-cases (J.parse request)) [
    | inl failed ↦
        rw (failed, parse_body)
          (ground (
            arith,
            http_send_error-held E J 400 "JSON parse error" (emit (release body) w) (ground arith)
                (ground arith) r,
          ))
    | inr (object, parsed) ↦
        let w1 = emit (acquire root) w in
        rw (parsed, parse_body)
          (ground (
            arith,
            process-held connection_id request object w1 (ground arith) (ground arith)
                (ground arith) r,
          ))
  ]

  receive-held :
      (rq : Request) (connection_id : ℤ) (n : ℕ) (w : World E.Db)
      → IsIdle w
      → held body w.log ≡ some false
      → held root w.log ≡ some false
      → (r : Resource) → held r (receive E J env rq connection_id n w).log ≡ held r w.log
  unfolding receive held
  receive-held rq connection_id n w idle hb hr r =
      let w1 = (ask env.malloc w).1 in
      let w2 = emit (access body) (emit (acquire body) w1) in
      let request = terminated E J env (rq.read n) in
      ground (
        arith,
        http_send_error-held E J 500 "Memory error" w1 (ground arith) (ground arith) r,
        http_send_error-held E J 400 "Incomplete body" (emit (release body) w2) (ground arith)
            (ground arith) r,
        parse_body-held connection_id request (emit (access body) w2) (ground arith) (ground arith)
            (ground arith) r,
      )

  -- From a state in which no resource is held, `api_send_handler` ends with none held, whatever the
  -- request and whatever calls fail: every lock is released, every block freed once and not used
  -- after, every file and database handle closed, and no lock is taken twice.
  pub api_send_handler-held :
      (rq : Request) (w : World E.Db)
      → ((r : Resource) → held r w.log ≡ some false)
      → (r : Resource) → held r (api_send_handler E J env rq w).log ≡ some false
  unfolding api_send_handler
  api_send_handler-held rq w free r =
      let kept =
        save_connection-held E env w rq.remote_addr (free file) (free schema) (free handle) in
      let w1 = (save_connection E env rq.remote_addr w).1 in
      let free1 : (r : Resource) → held r w1.log ≡ some false =
        λ r. ground (arith, kept r, free r) in
      let connection_id = (save_connection E env rq.remote_addr w).0 in
      elim (Bool-cases (bytes_eq rq.request_method (codes "POST"))) [
        | inr other ↦ rw other (
            ground (
              arith,
              http_send_error-held E J 405 "POST required" w (free document) (free json) r,
              free r,
            ))
        | inl post ↦ elim (Option-cases (accepted_length (content_length_of rq.content_length))) [
          | inl invalid ↦
              rw (post, invalid)
                (ground (
                  arith,
                  http_send_error-held E J 400 "Invalid Content-Length" w1 (free1 document)
                      (free1 json) r,
                  free1 r,
                ))
          | inr (n, valid) ↦
              rw (post, valid)
                (ground (
                  arith,
                  receive-held rq connection_id n w1
                      (record {
                        print_mutex_free = free1 print_mutex;
                        file_mutex_free = free1 file_mutex;
                        document_free = free1 document;
                        json_free = free1 json;
                        schema_free = free1 schema;
                        file_free = free1 file;
                        handle_free = free1 handle;
                      })
                      (free1 body) (free1 root) r,
                  free1 r,
                ))
        ]
      ]
