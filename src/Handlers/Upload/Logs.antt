-- ===== src/Handlers/Upload/Logs.antt =====
-- What the parts of an upload add to the log: before the answer no response and no row.
use sending_system.Base.{
  ℕ, ◌≡◌, ◌∙◌, ◌⊎◌, refl, false, Option, none, some, List, [], ◌∷◌, arith, Bytes, ℤ,
}
use sending_system.Sqlite.{Sqlite}
use sending_system.System.{Env, World, Resource, file, schema, handle, document, json, ask}
use sending_system.System.Held.{same, held, responses, records}
use sending_system.Handlers.Json.{
  Cjson, response_of, http_build_json, http_send_built_json, read_json,
}
use sending_system.Handlers.Json.Resources.{
  http_build_json-held, http_build_json-log, http_send_built_json-log, free_json-log,
}
use sending_system.Handlers.Saving.{save_message}
use sending_system.Handlers.Saving.Resources.{save_message-log}
use sending_system.Handlers.Upload.{
  UploadCtx, FormCall, field_found, field_get, field_store, open_part, on_field_found,
  on_field_store, form_call, form_calls, close_part, upload_message, deliver,
}
use sending_system.Handlers.Upload.Resources.{read_json-held}

-- No resource is held.
abbrev pub Idle : {Db : Type 0} → World Db → Type 0
Idle w = (r : Resource) → held r w.log ≡ some false

module _ (E : Sqlite) (J : Cjson) (env : Env E) where
  pub open_part-log :
      (name : Bytes) (n : ℕ) (w : World E.Db)
      → (responses (open_part E J env name n w).2.log ≡ responses w.log)
        × (records (open_part E J env name n w).2.log ≡ records w.log)
  unfolding open_part responses records
  open_part-log name n w = ground arith

  on_field_store-log :
      (u : UploadCtx) (w : World E.Db)
      → (responses (on_field_store E J env u w).1.log ≡ responses w.log)
        × (records (on_field_store E J env u w).1.log ≡ records w.log)
  unfolding on_field_store responses records
  on_field_store-log u w = ground arith

  pub form_calls-log :
      (calls : List FormCall) (u : UploadCtx) (w : World E.Db)
      → (responses (form_calls E J env calls u w).1.log ≡ responses w.log)
        × (records (form_calls E J env calls u w).1.log ≡ records w.log)
  unfolding form_calls form_call on_field_found
  form_calls-log [] u w = (refl, refl)
  form_calls-log (field_found none n ∷ calls) u w = form_calls-log calls u w
  form_calls-log (field_found (some []) n ∷ calls) u w = form_calls-log calls u w
  form_calls-log (field_found (some (c ∷ name)) n ∷ calls) u w =
      let (storage, u', w') = open_part E J env (c ∷ name) n w in
      let step = open_part-log (c ∷ name) n w in
      let rest = form_calls-log calls u' w' in (rest.0 ∙ step.0, rest.1 ∙ step.1)
  form_calls-log (field_get ∷ calls) u w = form_calls-log calls u w
  form_calls-log (field_store ∷ calls) u w =
      let (u', w') = on_field_store E J env u w in
      let step = on_field_store-log u w in
      let rest = form_calls-log calls u' w' in (rest.0 ∙ step.0, rest.1 ∙ step.1)

  pub close_part-log :
      (u : UploadCtx) (w : World E.Db)
      → (responses (close_part E J env u w).log ≡ responses w.log)
        × (records (close_part E J env u w).log ≡ records w.log)
  unfolding close_part responses records
  close_part-log u w = ground arith

  pub read_json-log :
      (text : Option Bytes) (w : World E.Db)
      → (responses (read_json E J text w).log ≡ responses w.log)
        × (records (read_json E J text w).log ≡ records w.log)
  unfolding read_json responses records
  read_json-log none w = (refl, refl)
  read_json-log (some t) w = (refl, refl)

  -- The response is sent with the status 200, and at most its row is recorded.
  pub deliver-log :
      (connection_id : ℤ) (path : Bytes) (w : World E.Db)
      → Idle w
      → let (text, w1) = http_build_json E J "message" "File(s) received" w in
        let m = upload_message E J env connection_id text path (env.now w1.calls) in
        let w' = deliver E J env connection_id path w in
        (responses w'.log ≡ response_of 200 text ∷ responses w.log)
        × ((records w'.log ≡ records w.log) ⊎ (records w'.log ≡ m ∷ records w.log))
  unfolding deliver
  deliver-log connection_id path w free =
      let (text, w1) = http_build_json E J "message" "File(s) received" w in
      let built =
        http_build_json-held E J "message" "File(s) received" w (free document) (free json) in
      let built_log = http_build_json-log E J "message" "File(s) received" w in
      let (time, w2) = ask env.now w1 in
      let m = upload_message E J env connection_id text path time in
      let w3 = read_json E J text w2 in
      let read =
        read_json-held E J env text w2 (unfold same in ground (arith, built json, free json)) in
      let read_log = read_json-log text w2 in
      let saved =
        save_message-log E env w3 m
          (unfold same in ground (arith, read file, built file, free file))
          (unfold same in ground (arith, read schema, built schema, free schema))
          (unfold same in ground (arith, read handle, built handle, free handle)) in
      let w4 = (save_message E env m w3).1 in
      let sent_log = http_send_built_json-log E J 200 text w4 in
      let freed = free_json-log E J text (http_send_built_json E J 200 text w4) in
      (
        ground (arith, freed, sent_log, saved, read_log, built_log),
        ground (arith, freed, sent_log, saved, read_log, built_log),
      )
