-- ===== src/Handlers/Send/Verdict/Carried.antt =====
-- `api_send_handler` carries out the verdict on a request, where memory suffices.
use sending_system.Base.{
  ℕ, ◌+◌, ◌==◌, String, ◌≡◌, ◌∙◌, refl, ap, true, false, Option, none, some, List, ◌∷◌, arith,
  Bytes, codes, bytes_eq, ℤ, length, if◌then◌else◌, Bool-cases, Option-cases, inl, inr,
}
use sending_system.Sqlite.{Sqlite}
use sending_system.System.{
  Env, World, Resource, print_mutex, file_mutex, body, root, document, json, schema, file, handle,
  emit, ask, acquire, release, access,
}
use sending_system.System.Held.{held, responses, records, written}
use sending_system.Database.Models.{Message}
use sending_system.Handlers.Json.{Cjson, response_of, http_build_json, http_send_error}
use sending_system.Handlers.Json.Resources.{http_build_json-log, http_send_error-log}
use sending_system.Handlers.ContentLength.{content_length_of, accepted_length}
use sending_system.FileService.Sanitize.{max_filename}
use sending_system.Handlers.Saving.{
  save_dir_length, safe_name_of, save_path, save_connection, save_text_to_file,
}
use sending_system.Handlers.Saving.Resources.{save_connection-held, save_connection-log}
use sending_system.Handlers.Send.Resources.Answered.{IsIdle, answer-held}
use sending_system.Handlers.Send.Logs.{answer-log, conclude-log}
use sending_system.Handlers.Send.{
  Request, string_item, save_target, answer, print_text, conclude, process, parse_body, terminated,
  receive, api_send_handler,
}
use sending_system.Handlers.Send.Verdict.{
  Verdict, refused, accepted, verdict_object, verdict_body, verdict, text_path, text_message, Wrote,
  Refused, Follows,
}
use sending_system.Handlers.Saving.Paths.{safe_name_of_lem, save_path_whole}

module _ (E : Sqlite) (J : Cjson) (env : Env E) where
  answer-Wrote :
      (target : Option Bytes) (text : Bytes) (w : World E.Db)
      → let a = answer E J env target text w in Wrote E J env target text a.0 w a.2
  unfolding answer save_text_to_file written
  answer-Wrote none text w =
      let w1 = print_text E J env text w in (refl, (http_build_json-log E J "message" "OK" w1).2)
  answer-Wrote (some path) text w =
      let compiled = env.regcomp w.calls in
      let (safe, is_safe, good_name, fits) = safe_name_of_lem compiled path in
      let whole : save_path (max_filename + save_dir_length + 2) (safe_name_of compiled path)
          ≡ text_path compiled path =
        rw (is_safe) (save_path_whole safe fits) in
      let w1 = emit (access root) w in
      let (saved, w2) = save_text_to_file E env text path w1 in
      let good = http_build_json-log E J "message" "File saved" w2 in
      let bad = http_build_json-log E J "error" "Cannot save file" w2 in
      elim (Bool-cases (env.fopen (w.calls + 1))) [
        | inl ok ↦ inl (compiled, ground (arith, good), ground (arith, good, whole))
        | inr failed ↦ inr (ground (arith, bad), ground (arith, bad))
      ]

  Wrote-same :
      (target : Option Bytes) (text : Bytes) (status : ℕ) (w w1 w2 : World E.Db)
      → written w2.log ≡ written w1.log
      → Wrote E J env target text status w w1
      → Wrote E J env target text status w w2
  Wrote-same none text status w w1 w2 e h = rw (e) h
  Wrote-same (some path) text status w w1 w2 e h = rw (e) h

  module _ (connection_id : ℤ) (Noted : Message → List Message → List Message → Type 0) where
    Follows-after :
        (v : Verdict E J env) (w w1 w' : World E.Db)
        → responses w1.log ≡ responses w.log
        → records w1.log ≡ records w.log
        → written w1.log ≡ written w.log
        → Follows E J env connection_id Noted v w1 w'
        → Follows E J env connection_id Noted v w w'
    Follows-after (refused status msg) w w1 w' p q s f = rw (← p, ← q, ← s) f
    Follows-after (accepted request none text) w w1 w' p q s f = rw (← p, ← q, ← s) f
    Follows-after (accepted request (some path) text) w w1 w' p q s f = rw (← p, ← q, ← s) f

    error-Follows :
        (status : ℕ) (msg : String) (w w1 : World E.Db)
        → responses w1.log ≡ responses w.log
        → records w1.log ≡ records w.log
        → written w1.log ≡ written w.log
        → Refused E J env status msg w (http_send_error E J status msg w1)
    error-Follows status msg w w1 p q s =
        let log = http_send_error-log E J status msg w1 in
        (
          (w1, log.0 ∙ ap (λ l. response_of status (http_build_json E J "error" msg w1).0 ∷ l) p),
          log.1 ∙ q,
          log.2 ∙ s,
        )

    module _
        (concludes : (request : Bytes) (status : ℕ) (text : Option Bytes) (w : World E.Db)
          → Noted
              (text_message connection_id status text request (env.now w.calls))
              (records w.log)
              (records (conclude E J env connection_id request status text w).log)) where
      process-Follows :
          (request : Bytes) (object : J.Json) (w : World E.Db)
          → IsIdle w
          → held root w.log ≡ some true
          → Follows E J env connection_id Noted
              (verdict_object E J env request object)
              w
              (process E J env connection_id request object w)
      unfolding process verdict_object held responses records written
      process-Follows request object w idle hr =
          elim (Option-cases (string_item E J env object "data")) [
            | inl missing ↦
                let w1 = emit (release body) (emit (release root) w) in
                rw (missing, process, verdict_object)
                  (error-Follows 400 "Missing 'data'" w w1 refl refl refl)
            | inr (text, found) ↦
                let target = save_target E J env (string_item E J env object "saveToPath") in
                let a = answer E J env target text w in
                let kept = answer-held E J env target text w idle hr in
                let log = answer-log E J env target text w in
                let end =
                  conclude-log E J env connection_id request a.0 a.1 a.2 (ground (arith, kept file))
                    (ground (arith, kept schema)) (ground (arith, kept handle)) in
                rw (found, process, verdict_object)
                  (
                    a.0,
                    a.1,
                    env.now a.2.calls,
                    rw (← log.0) end.0,
                    rw (← log.1) (concludes request a.0 a.1 a.2),
                    Wrote-same target text a.0 w a.2 _ end.2 (answer-Wrote target text w),
                  )
          ]

      receive-Follows :
          (rq : Request) (n : ℕ) (w : World E.Db)
          → IsIdle w
          → held root w.log ≡ some false
          → env.malloc w.calls ≡ true
          → Follows E J env connection_id Noted
              (if length (rq.read n) == n
                then verdict_body E J env (terminated E J env (rq.read n))
                else refused 400 "Incomplete body")
              w
              (receive E J env rq connection_id n w)
      unfolding receive parse_body verdict_body held responses records written
      receive-Follows rq n w idle hr got =
          let w1 = (ask env.malloc w).1 in
          let w2 = emit (access body) (emit (acquire body) w1) in
          let w3 = emit (access body) w2 in
          let request = terminated E J env (rq.read n) in
          elim (Bool-cases (length (rq.read n) == n)) [
            | inr short ↦
                let w4 = emit (release body) w2 in
                rw (got, short, receive) (error-Follows 400 "Incomplete body" w w4 refl refl refl)
            | inl whole ↦ elim (Option-cases (J.parse request)) [
              | inl unparsed ↦
                  let w4 = emit (release body) w3 in
                  rw (got, whole, unparsed, receive, parse_body, verdict_body)
                    (error-Follows 400 "JSON parse error" w w4 refl refl refl)
              | inr (object, parsed) ↦
                  let w4 = emit (acquire root) w3 in
                  rw (got, whole, parsed, receive, parse_body, verdict_body)
                    (Follows-after (verdict_object E J env request object) w w4 _ refl refl refl
                      (process-Follows request object w4 (ground arith) (ground arith)))
            ]
          ]

      pub handler-Follows :
          (rq : Request) (w : World E.Db)
          → ((r : Resource) → held r w.log ≡ some false)
          → ((n : ℕ) → env.malloc n ≡ true)
          → (save_connection E env rq.remote_addr w).0 ≡ connection_id
          → Follows E J env connection_id Noted
              (verdict E J env rq)
              w
              (api_send_handler E J env rq w)
      unfolding verdict api_send_handler
      handler-Follows rq w free ok same =
          let saved = save_connection E env rq.remote_addr w in
          let kept =
            save_connection-held E env w rq.remote_addr (free file) (free schema) (free handle) in
          let log =
            save_connection-log E env w rq.remote_addr (free file) (free schema) (free handle) in
          let free1 : (r : Resource) → held r saved.1.log ≡ some false = λ r. kept r ∙ free r in
          elim (Bool-cases (bytes_eq rq.request_method (codes "POST"))) [
            | inr other ↦ rw (other) (error-Follows 405 "POST required" w w refl refl refl)
            | inl post ↦
                elim (Option-cases (accepted_length (content_length_of rq.content_length))) [
                  | inl invalid ↦
                      rw (post, invalid)
                        (error-Follows 400 "Invalid Content-Length" w saved.1 log.0 log.1 log.2)
                  | inr (n, valid) ↦
                      let w2 = receive E J env rq connection_id n saved.1 in
                      let whole =
                        receive-Follows rq n saved.1
                          (record {
                            print_mutex_free = free1 print_mutex;
                            file_mutex_free = free1 file_mutex;
                            document_free = free1 document;
                            json_free = free1 json;
                            schema_free = free1 schema;
                            file_free = free1 file;
                            handle_free = free1 handle;
                          })
                          (free1 root) (ok saved.1.calls) in
                      rw (post, valid, same) (Follows-after _ w saved.1 w2 log.0 log.1 log.2 whole)
                ]
          ]
