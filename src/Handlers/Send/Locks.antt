-- ===== src/Handlers/Send/Locks.antt =====
-- `api_send_handler` holds one mutex at a time.
use sending_system.Base.{
  ℕ, ◌≡◌, ◌∙◌, Option, none, some, arith, Bytes, bytes_eq, codes, ℤ, Bool-cases, Option-cases, inl,
  inr,
}
use sending_system.Sqlite.{Sqlite}
use sending_system.System.{Env, World, ask, emit, acquire, release, access, body, root, json}
use sending_system.System.Locks.{lock, unlocked}
use sending_system.Handlers.Json.{Cjson, read_json, http_send_built_json}
use sending_system.Handlers.ContentLength.{content_length_of, accepted_length}
use sending_system.Handlers.Saving.{save_connection, save_text_to_file}
use sending_system.Handlers.Send.{
  Request, string_item, save_target, message_for, terminated, answer, print_text, persist, conclude,
  process, parse_body, receive, api_send_handler,
}
use sending_system.Handlers.Locks.{
  lock-save_connection, lock-save_message, lock-http_build_json, lock-http_send_built_json,
  lock-free_json, lock-http_send_error, lock-save_text_to_file,
}

module _ (E : Sqlite) (J : Cjson) (env : Env E) where
  lock-answer :
      (target : Option Bytes) (text : Bytes) (w : World E.Db)
      → lock w.log ≡ unlocked
      → lock (answer E J env target text w).2.log ≡ unlocked
  unfolding answer lock
  lock-answer none text w free =
      let w1 = print_text E J env text w in
      ground (arith, lock-http_build_json E J env "message" "OK" w1)
  lock-answer (some path) text w free =
      let w1 = emit (access root) w in
      let w2 = (save_text_to_file E env text path w1).1 in
      ground (
        arith,
        lock-save_text_to_file E J env text path w1,
        lock-http_build_json E J env "message" "File saved" w2,
        lock-http_build_json E J env "error" "Cannot save file" w2,
      )

  lock-persist :
      (connection_id : ℤ) (status : ℕ) (text : Option Bytes) (request : Bytes) (w : World E.Db)
      → lock (persist E J env connection_id status text request w).log ≡ lock w.log
  unfolding persist read_json lock
  lock-persist connection_id status none request w =
      let (time, w1) = ask env.now w in
      let m = message_for E J env connection_id status none request time in
      ground (arith, lock-save_message E J env m (emit (access body) w1))
  lock-persist connection_id status (some t) request w =
      let (time, w1) = ask env.now w in
      let m = message_for E J env connection_id status (some t) request time in
      ground (arith, lock-save_message E J env m (emit (access body) (emit (access json) w1)))

  lock-conclude :
      (connection_id : ℤ) (request : Bytes) (status : ℕ) (text : Option Bytes) (w : World E.Db)
      → lock (conclude E J env connection_id request status text w).log ≡ lock w.log
  unfolding conclude lock
  lock-conclude connection_id request status text w =
      let w1 = persist E J env connection_id status text request w in
      let w2 = http_send_built_json E J status text w1 in
      ground (
        arith,
        lock-persist connection_id status text request w,
        lock-http_send_built_json E J env status text w1,
        lock-free_json E J env text w2,
      )

  lock-process :
      (connection_id : ℤ) (request : Bytes) (object : J.Json) (w : World E.Db)
      → lock w.log ≡ unlocked
      → lock (process E J env connection_id request object w).log ≡ unlocked
  unfolding process lock
  lock-process connection_id request object w free =
      elim (Option-cases (string_item E J env object "data")) [
        | inl missing ↦
            rw (missing, process)
              (lock-http_send_error E J env 400 "Missing 'data'"
                  (emit (release body) (emit (release root) w))
                ∙ free)
        | inr (text, found) ↦
            let target = save_target E J env (string_item E J env object "saveToPath") in
            let (status, built, w1) = answer E J env target text w in
            rw (found, process)
              (lock-conclude connection_id request status built w1 ∙ lock-answer target text w free)
      ]

  lock-parse_body :
      (connection_id : ℤ) (request : Bytes) (w : World E.Db)
      → lock w.log ≡ unlocked
      → lock (parse_body E J env connection_id request w).log ≡ unlocked
  unfolding parse_body lock
  lock-parse_body connection_id request w free = elim (Option-cases (J.parse request)) [
    | inl bad ↦
        rw (bad, parse_body)
          (lock-http_send_error E J env 400 "JSON parse error" (emit (release body) w) ∙ free)
    | inr (object, parsed) ↦
        rw (parsed, parse_body)
          (lock-process connection_id request object (emit (acquire root) w) free)
  ]

  lock-receive :
      (rq : Request) (connection_id : ℤ) (n : ℕ) (w : World E.Db)
      → lock w.log ≡ unlocked
      → lock (receive E J env rq connection_id n w).log ≡ unlocked
  unfolding receive lock
  lock-receive rq connection_id n w free =
      let w1 = (ask env.malloc w).1 in
      let w2 = emit (access body) (emit (acquire body) w1) in
      ground (
        arith,
        lock-parse_body connection_id (terminated E J env (rq.read n)) (emit (access body) w2) free,
        lock-http_send_error E J env 400 "Incomplete body" (emit (release body) w2),
        lock-http_send_error E J env 500 "Memory error" w1,
        free,
      )

  -- A request to /api/send that starts without a mutex ends without one, and never takes a second
  -- one while it holds one.
  pub api_send_handler-unlocked :
      (rq : Request) (w : World E.Db)
      → lock w.log ≡ unlocked
      → lock (api_send_handler E J env rq w).log ≡ unlocked
  unfolding api_send_handler
  api_send_handler-unlocked rq w free =
      let (connection_id, w1) = save_connection E env rq.remote_addr w in
      let free1 : lock w1.log ≡ unlocked = lock-save_connection E J env rq.remote_addr w ∙ free in
      elim (Bool-cases (bytes_eq rq.request_method (codes "POST"))) [
        | inr other ↦ rw (other) (lock-http_send_error E J env 405 "POST required" w ∙ free)
        | inl post ↦ elim (Option-cases (accepted_length (content_length_of rq.content_length))) [
          | inl invalid ↦
              rw (post, invalid)
                (lock-http_send_error E J env 400 "Invalid Content-Length" w1 ∙ free1)
          | inr (n, valid) ↦ rw (post, valid) (lock-receive rq connection_id n w1 free1)
        ]
      ]
