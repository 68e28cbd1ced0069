-- ===== src/Handlers/Send/Logs.antt =====
-- What the parts of `api_send_handler` send, record and write.
use sending_system.Base.{ℕ, ◌≡◌, ◌⊎◌, false, Option, none, some, ◌∷◌, arith, Bytes, ℤ, inl, inr}
use sending_system.Sqlite.{Sqlite}
use sending_system.System.{Env, World, body, root, json, schema, file, handle, emit, ask, access}
use sending_system.System.Held.{same, held, responses, records, written}
use sending_system.Handlers.Json.{Cjson, response_of, http_send_built_json, read_json}
use sending_system.Handlers.Json.Resources.{
  http_build_json-log, http_send_built_json-log, free_json-log,
}
use sending_system.Handlers.Saving.{save_text_to_file}
use sending_system.Handlers.Saving.Resources.{save_message-log, save_text_to_file-log}
use sending_system.Handlers.Saving.Paths.{InSaveDir, save_text_to_file-InSaveDir}
use sending_system.Handlers.Send.{answer, print_text, message_for, persist, conclude}

module _ (E : Sqlite) (J : Cjson) (env : Env E) where
  pub answer-log :
      (target : Option Bytes) (text : Bytes) (w : World E.Db)
      → let w' = (answer E J env target text w).2 in
        (responses w'.log ≡ responses w.log)
        × (records w'.log ≡ records w.log)
        × ((written w'.log ≡ written w.log)
            ⊎ ((path : Bytes) × InSaveDir path × (written w'.log ≡ (path, text) ∷ written w.log)))
  unfolding answer responses records written
  answer-log none text w =
      let w1 = print_text E J env text w in
      let built = http_build_json-log E J "message" "OK" w1 in
      (ground (arith, built), ground (arith, built), inl (ground (arith, built)))
  answer-log (some path) text w =
      let w1 = emit (access root) w in
      let w2 = (save_text_to_file E env text path w1).1 in
      let saved = save_text_to_file-log E env w1 text path in
      let good = http_build_json-log E J "message" "File saved" w2 in
      let bad = http_build_json-log E J "error" "Cannot save file" w2 in
      (
        ground (arith, saved, good, bad),
        ground (arith, saved, good, bad),
        elim (save_text_to_file-InSaveDir E env text path w1) [
          | inl same ↦ inl (ground (arith, same, good, bad))
          | inr (p, inside, more) ↦ inr (p, inside, ground (arith, more, good, bad))
        ],
      )

  pub persist-log :
      (connection_id : ℤ) (status : ℕ) (text : Option Bytes) (request : Bytes) (w : World E.Db)
      → held file w.log ≡ some false
      → held schema w.log ≡ some false
      → held handle w.log ≡ some false
      → let w' = persist E J env connection_id status text request w in
        let m = message_for E J env connection_id status text request (env.now w.calls) in
        (responses w'.log ≡ responses w.log)
        × ((records w'.log ≡ records w.log) ⊎ (records w'.log ≡ m ∷ records w.log))
        × (written w'.log ≡ written w.log)
  unfolding persist read_json responses records written
  persist-log connection_id status none request w hf hs hh =
      let (time, w1) = ask env.now w in
      let m = message_for E J env connection_id status none request time in
      let saved =
        save_message-log E env (emit (access body) w1) m (unfold held in ground arith)
          (unfold held in ground arith) (unfold held in ground arith) in
      ground (arith, saved)
  persist-log connection_id status (some t) request w hf hs hh =
      let (time, w1) = ask env.now w in
      let m = message_for E J env connection_id status (some t) request time in
      let saved =
        save_message-log E env (emit (access body) (emit (access json) w1)) m
          (unfold held in ground arith) (unfold held in ground arith)
          (unfold held in ground arith) in
      ground (arith, saved)

  pub conclude-log :
      (connection_id : ℤ) (request : Bytes) (status : ℕ) (text : Option Bytes) (w : World E.Db)
      → held file w.log ≡ some false
      → held schema w.log ≡ some false
      → held handle w.log ≡ some false
      → let w' = conclude E J env connection_id request status text w in
        let m = message_for E J env connection_id status text request (env.now w.calls) in
        (responses w'.log ≡ response_of status text ∷ responses w.log)
        × ((records w'.log ≡ records w.log) ⊎ (records w'.log ≡ m ∷ records w.log))
        × (written w'.log ≡ written w.log)
  unfolding conclude responses records written
  conclude-log connection_id request status text w hf hs hh =
      let w1 = persist E J env connection_id status text request w in
      let w2 = http_send_built_json E J status text w1 in
      ground (
        arith,
        persist-log connection_id status text request w hf hs hh,
        http_send_built_json-log E J status text w1,
        free_json-log E J text w2,
      )
