-- ===== src/Handlers/History/Texts.antt =====
-- A request to /api/send keeps the table of messages a history of what was recorded.
use sending_system.Base.{
  ℕ, refl, Option, none, some, arith, Bytes, codes, bytes_eq, ℤ, minus_one, int_eq, length, ◌==◌,
  Bool-cases, Option-cases, inl, inr,
}
use sending_system.Sqlite.{Sqlite}
use sending_system.Sqlite.Table.{Rows, IsTable}
use sending_system.System.{Env, World, body, root, emit, ask, acquire, release, access}
use sending_system.System.Held.{records}
use sending_system.Repository.Messages.{message_sql}
use sending_system.Handlers.Json.{Cjson, http_send_built_json, free_json, read_json}
use sending_system.Handlers.ContentLength.{content_length_of, accepted_length}
use sending_system.Handlers.Saving.{save_connection, save_text_to_file}
use sending_system.Handlers.Send.{
  Request, string_item, save_target, answer, message_for, persist, conclude, process, parse_body,
  terminated, receive, api_send_handler,
}
use sending_system.Handlers.History.{
  IsApart, IsHistory, Kept, Kept-IsHistory, save_connection-Kept, save_message-IsHistory,
}
use sending_system.Handlers.History.Quiet.{
  http_build_json-Kept, save_text_to_file-Kept, send_free-Kept, read_json-Kept, error-IsHistory,
}

module _ (E : Sqlite) (J : Cjson) (env : Env E) (T : IsTable E message_sql) where
  answer-Kept :
      (target : Option Bytes) (text : Bytes) (w : World E.Db)
      → Kept E env T w (answer E J env target text w).2
  unfolding answer records
  answer-Kept none text w = http_build_json-Kept E J env T "message" "OK" _
  answer-Kept (some path) text w =
      let w1 = emit (access root) w in
      let (saved, w2) = save_text_to_file E env text path w1 in
      let kept = save_text_to_file-Kept E J env T text path w1 in
      let good = http_build_json-Kept E J env T "message" "File saved" w2 in
      let bad = http_build_json-Kept E J env T "error" "Cannot save file" w2 in
      ground (arith, kept, good, bad)

  module _ (apart : IsApart E env T) (base : Rows) where
    abbrev History : World E.Db → Type 0
    History w = IsHistory E env T base w

    kept : (w w' : World E.Db) → Kept E env T w w' → History w → History w'
    kept = Kept-IsHistory E env T base

    persist-IsHistory :
        (connection_id : ℤ) (status : ℕ) (text : Option Bytes) (request : Bytes) (w : World E.Db)
        → History w
        → History (persist E J env connection_id status text request w)
    unfolding persist records
    persist-IsHistory connection_id status text request w h =
        let (time, w1) = ask env.now w in
        let m = message_for E J env connection_id status text request time in
        let w2 = read_json E J text w1 in
        let h1 : History w1 = kept w w1 (refl, refl) h in
        let h2 : History w2 = kept w1 w2 (read_json-Kept E J env T text w1) h1 in
        let w3 = emit (access body) w2 in
        let h3 : History w3 = kept w2 w3 (refl, refl) h2 in
        elim (Bool-cases (int_eq connection_id minus_one)) [
          | inl lost ↦ rw (lost) h
          | inr saved ↦ rw (saved) (save_message-IsHistory E env T apart base m w3 h3)
        ]

    process-IsHistory :
        (connection_id : ℤ) (request : Bytes) (object : J.Json) (w : World E.Db)
        → History w
        → History (process E J env connection_id request object w)
    unfolding process conclude records
    process-IsHistory connection_id request object w h =
        elim (Option-cases (string_item E J env object "data")) [
          | inl missing ↦
              let w1 = emit (release body) (emit (release root) w) in
              rw (missing, process)
                (error-IsHistory E J env T base 400 "Missing 'data'" w1 (kept w w1 (refl, refl) h))
          | inr (text, found) ↦
              let target = save_target E J env (string_item E J env object "saveToPath") in
              let (status, json, w1) = answer E J env target text w in
              let h1 = kept w w1 (answer-Kept target text w) h in
              let w2 = persist E J env connection_id status json request w1 in
              let h2 = persist-IsHistory connection_id status json request w1 h1 in
              let w3 = free_json E J json (http_send_built_json E J status json w2) in
              let h3 : History w3 = kept w2 w3 (send_free-Kept E J env T status json w2) h2 in
              rw (found, process) (kept w3 _ (refl, refl) h3)
        ]

    receive-IsHistory :
        (rq : Request) (connection_id : ℤ) (n : ℕ) (w : World E.Db)
        → History w
        → History (receive E J env rq connection_id n w)
    unfolding receive parse_body records
    receive-IsHistory rq connection_id n w h =
        let w1 = (ask env.malloc w).1 in
        let h1 : History w1 = kept w w1 (refl, refl) h in
        let w2 = emit (access body) (emit (acquire body) w1) in
        let w3 = emit (release body) w2 in
        let w4 = emit (access body) w2 in
        let request = terminated E J env (rq.read n) in
        elim (Bool-cases (env.malloc w.calls)) [
          | inr refused ↦
              rw (refused, receive) (error-IsHistory E J env T base 500 "Memory error" w1 h1)
          | inl got ↦ elim (Bool-cases (length (rq.read n) == n)) [
            | inr short ↦
                rw (got, short, receive)
                  (error-IsHistory E J env T base 400 "Incomplete body" w3
                    (kept w1 w3 (refl, refl) h1))
            | inl whole ↦ elim (Option-cases (J.parse request)) [
              | inl unparsed ↦
                  let w5 = emit (release body) w4 in
                  rw (got, whole, unparsed, receive, parse_body)
                    (error-IsHistory E J env T base 400 "JSON parse error" w5
                      (kept w1 w5 (refl, refl) h1))
              | inr (object, parsed) ↦
                  let w5 = emit (acquire root) w4 in
                  rw (got, whole, parsed, receive, parse_body)
                    (process-IsHistory connection_id request object w5 (kept w1 w5 (refl, refl) h1))
            ]
          ]
        ]

    pub api_send_handler-IsHistory :
        (rq : Request) (w : World E.Db) → History w → History (api_send_handler E J env rq w)
    unfolding api_send_handler
    api_send_handler-IsHistory rq w h =
        let (connection_id, w1) = save_connection E env rq.remote_addr w in
        let h1 = kept w w1 (save_connection-Kept E env T apart rq.remote_addr w) h in
        elim (Bool-cases (bytes_eq rq.request_method (codes "POST"))) [
          | inr other ↦ rw (other) (error-IsHistory E J env T base 405 "POST required" w h)
          | inl post ↦ elim (Option-cases (accepted_length (content_length_of rq.content_length))) [
            | inl invalid ↦
                rw (post, invalid)
                  (error-IsHistory E J env T base 400 "Invalid Content-Length" w1 h1)
            | inr (n, valid) ↦ rw (post, valid) (receive-IsHistory rq connection_id n w1 h1)
          ]
        ]
