-- ===== src/Handlers/Send/Resources/Answered.antt =====
-- How the answer to a text gives back what it took: the file, the connection, the row.
use sending_system.Base.{
  ℕ, ◌≡◌, true, false, ◌&&◌, ◌||◌, Option, none, some, arith, Bytes, ℤ, if◌then◌else◌,
}
use sending_system.Sqlite.{Sqlite}
use sending_system.System.{
  Env, World, Resource, print_mutex, file_mutex, body, root, document, json, schema, file, handle,
  emit, ask, access,
}
use sending_system.System.Held.{same, held, present}
use sending_system.Handlers.Json.{Cjson, http_send_built_json, read_json}
use sending_system.Handlers.Json.Resources.{
  http_build_json-held, http_send_built_json-held, free_json-held,
}
use sending_system.Handlers.Saving.{save_text_to_file}
use sending_system.Handlers.Saving.Resources.{save_message-held, save_text_to_file-held}
use sending_system.Handlers.Send.{answer, print_text, message_for, persist, conclude}

-- Everything that a handler takes by itself is free.
pub record IsIdle {Db : Type 0} (w : World Db) : Type 0 where
  pub print_mutex_free : held print_mutex w.log ≡ some false
  pub file_mutex_free : held file_mutex w.log ≡ some false
  pub document_free : held document w.log ≡ some false
  pub json_free : held json w.log ≡ some false
  pub schema_free : held schema w.log ≡ some false
  pub file_free : held file w.log ≡ some false
  pub handle_free : held handle w.log ≡ some false

module _ (E : Sqlite) (J : Cjson) (env : Env E) where
  pub answer-held :
      (target : Option Bytes) (text : Bytes) (w : World E.Db)
      → IsIdle w
      → held root w.log ≡ some true
      → (r : Resource)
      → held r (answer E J env target text w).2.log ≡ (
          if present (answer E J env target text w).1 && same r json
          then some true
          else held r w.log)
  unfolding answer held
  answer-held none text w idle hr r =
      let w1 = print_text E J env text w in
      ground (arith, http_build_json-held E J "message" "OK" w1 (ground arith) (ground arith) r)
  answer-held (some path) text w idle hr r =
      let w1 = emit (access root) w in
      let kept = save_text_to_file-held E env w1 text path (ground arith) (ground arith) in
      let w2 = (save_text_to_file E env text path w1).1 in
      ground (
        arith,
        kept r,
        http_build_json-held E J "message" "File saved" w2 (ground (arith, kept document))
            (ground (arith, kept json)) r,
        http_build_json-held E J "error" "Cannot save file" w2 (ground (arith, kept document))
            (ground (arith, kept json)) r,
      )

  pub persist-held :
      (connection_id : ℤ) (status : ℕ) (text : Option Bytes) (request : Bytes) (w : World E.Db)
      → held file w.log ≡ some false
      → held schema w.log ≡ some false
      → held handle w.log ≡ some false
      → held body w.log ≡ some true
      → held json w.log ≡ some (present text)
      → (r : Resource)
      → held r (persist E J env connection_id status text request w).log ≡ held r w.log
  unfolding persist read_json held
  persist-held connection_id status none request w hf hs hh hb hj r =
      let (time, w1) = ask env.now w in
      let m = message_for E J env connection_id status none request time in
      let w2 = emit (access body) w1 in
      ground (arith, save_message-held E env w2 m (ground arith) (ground arith) (ground arith) r)
  persist-held connection_id status (some t) request w hf hs hh hb hj r =
      let (time, w1) = ask env.now w in
      let m = message_for E J env connection_id status (some t) request time in
      let w2 = emit (access body) (emit (access json) w1) in
      ground (arith, save_message-held E env w2 m (ground arith) (ground arith) (ground arith) r)

  pub conclude-held :
      (connection_id : ℤ) (request : Bytes) (status : ℕ) (text : Option Bytes) (w : World E.Db)
      → held file w.log ≡ some false
      → held schema w.log ≡ some false
      → held handle w.log ≡ some false
      → held body w.log ≡ some true
      → held root w.log ≡ some true
      → held json w.log ≡ some (present text)
      → (r : Resource)
      → held r (conclude E J env connection_id request status text w).log
        ≡ (if same r body || same r root || same r json then some false else held r w.log)
  unfolding conclude held
  conclude-held connection_id request status text w hf hs hh hb hr hj r =
      let w1 = persist E J env connection_id status text request w in
      let kept = persist-held connection_id status text request w hf hs hh hb hj in
      let w2 = http_send_built_json E J status text w1 in
      let kept2 = http_send_built_json-held E J status text w1 (ground (arith, kept json)) in
      let freed = free_json-held E J text w2 (ground (arith, kept json, kept2 json)) in
      ground (
        arith,
        kept r,
        kept2 r,
        freed r,
        kept body,
        kept2 body,
        freed body,
        kept root,
        kept2 root,
        freed root,
      )
