-- ===== src/Handlers/Upload/Resources.antt =====
-- What an upload takes and gives back.
use sending_system.Base.{
  ℕ, ℤ, ◌∙◌, ap, sym, if◌then◌else◌, ◌≡◌, refl, Bool, true, false, Option, none, some, List, [],
  ◌∷◌, arith, Bytes,
}
use sending_system.Sqlite.{Sqlite}
use sending_system.System.{
  Env, World, Resource, Event, file_mutex, document, json, schema, file, handle, ask,
}
use sending_system.System.Held.{same, held, present}
use sending_system.Handlers.Json.{Cjson, http_build_json, http_send_built_json, read_json}
use sending_system.Handlers.Json.Resources.{
  http_build_json-held, http_send_built_json-held, http_send_error-held, free_json-held,
}
use sending_system.Handlers.Saving.{save_connection, save_message}
use sending_system.Handlers.Saving.Resources.{save_connection-held, save_message-held}
use sending_system.Handlers.Upload.{
  UploadCtx, FormCall, field_found, field_get, field_store, Form, open_part, on_field_found,
  on_field_store, form_call, form_calls, close_part, upload_message, deliver, finish_upload,
  api_upload_handler,
}

-- Every file part is stored before the next one is found. `pending` says that one is not stored yet.
unfoldable pub stores_each : Bool → List FormCall → Bool
stores_each pending [] = true
stores_each pending (field_found none n ∷ calls) = stores_each pending calls
stores_each pending (field_found (some []) n ∷ calls) = stores_each pending calls
stores_each true (field_found (some (c ∷ name)) n ∷ calls) = false
stores_each false (field_found (some (c ∷ name)) n ∷ calls) = stores_each true calls
stores_each pending (field_get ∷ calls) = stores_each pending calls
stores_each pending (field_store ∷ calls) = stores_each false calls

held_but_file :
    (log : List Event) (b : Bool)
    → held file log ≡ some b
    → (r : Resource) → held r log ≡ (if same r file then some b else held r log)
unfolding same
held_but_file log b h file = h
held_but_file log b h r = refl

module _ (E : Sqlite) (J : Cjson) (env : Env E) where
  pub open_part-held :
      (name : Bytes) (n : ℕ) (w : World E.Db)
      → held file w.log ≡ some false
      → held file_mutex w.log ≡ some false
      → (r : Resource)
      → held r (open_part E J env name n w).2.log
        ≡ (if same r file then some (open_part E J env name n w).1.fp else held r w.log)
  unfolding open_part held
  open_part-held name n w hf hm file = ground arith
  open_part-held name n w hf hm r = ground arith

  on_field_store-held :
      (u : UploadCtx) (w : World E.Db)
      → held file w.log ≡ some u.fp
      → held file_mutex w.log ≡ some false
      → (r : Resource)
      → held r (on_field_store E J env u w).1.log
        ≡ (if same r file then some false else held r w.log)
  unfolding on_field_store held
  on_field_store-held u w hf hm file = ground arith
  on_field_store-held u w hf hm r = ground arith

  on_field_store_closed :
      (u : UploadCtx) (w : World E.Db) → (on_field_store E J env u w).0.fp ≡ false
  unfolding on_field_store
  on_field_store_closed u w = ground arith

  -- The calls of a form leave at most the last file open, and then `fp` says so.
  pub form_calls-held :
      (calls : List FormCall) (pending : Bool) (u : UploadCtx) (w : World E.Db)
      → stores_each pending calls ≡ true
      → (pending ≡ false → u.fp ≡ false)
      → held file w.log ≡ some u.fp
      → held file_mutex w.log ≡ some false
      → (r : Resource)
      → held r (form_calls E J env calls u w).1.log
        ≡ (if same r file then some (form_calls E J env calls u w).0.fp else held r w.log)
  unfolding form_calls form_call on_field_found stores_each same
  form_calls-held [] pending u w ok closed hf hm r = held_but_file w.log u.fp hf r
  form_calls-held (field_found none n ∷ calls) pending u w ok closed hf hm r =
      form_calls-held calls pending u w ok closed hf hm r
  form_calls-held (field_found (some []) n ∷ calls) pending u w ok closed hf hm r =
      form_calls-held calls pending u w ok closed hf hm r
  form_calls-held (field_found (some (c ∷ name)) n ∷ calls) true u w ok closed hf hm r =
      absurd (ground arith)
  form_calls-held (field_found (some (c ∷ name)) n ∷ calls) false u w ok closed hf hm r =
      let step = open_part-held (c ∷ name) n w (ground arith) hm in
      let (storage, u', w') = open_part E J env (c ∷ name) n w in
      ground (
        arith,
        step r,
        form_calls-held calls true u' w' ok (ground arith) (step file) (step file_mutex ∙ hm) r,
      )
  form_calls-held (field_get ∷ calls) pending u w ok closed hf hm r =
      form_calls-held calls pending u w ok closed hf hm r
  form_calls-held (field_store ∷ calls) pending u w ok closed hf hm r =
      let step = on_field_store-held u w hf hm in
      let (u', w') = on_field_store E J env u w in
      let shut = on_field_store_closed u w in
      ground (
        arith,
        step r,
        form_calls-held calls false u' w' ok (λ e. shut) (step file ∙ ap some (sym shut))
            (step file_mutex ∙ hm) r,
      )

  pub close_part-held :
      (u : UploadCtx) (w : World E.Db)
      → held file w.log ≡ some u.fp
      → (r : Resource)
      → held r (close_part E J env u w).log ≡ (if same r file then some false else held r w.log)
  unfolding close_part held
  close_part-held u w hf file = ground arith
  close_part-held u w hf r = ground arith

  pub read_json-held :
      (text : Option Bytes) (w : World E.Db)
      → held json w.log ≡ some (present text)
      → (r : Resource) → held r (read_json E J text w).log ≡ held r w.log
  unfolding read_json held
  read_json-held none w h r = refl
  read_json-held (some t) w h document = ground arith
  read_json-held (some t) w h r = ground arith

  deliver-held :
      (connection_id : ℤ) (path : Bytes) (w : World E.Db)
      → ((r : Resource) → held r w.log ≡ some false)
      → (r : Resource) → held r (deliver E J env connection_id path w).log ≡ some false
  unfolding deliver same
  deliver-held connection_id path w free r =
      let (text, w1) = http_build_json E J "message" "File(s) received" w in
      let built =
        http_build_json-held E J "message" "File(s) received" w (free document) (free json) in
      let (time, w2) = ask env.now w1 in
      let m = upload_message E J env connection_id text path time in
      let has : held json w1.log ≡ some (present text) = ground (arith, built json, free json) in
      let w3 = read_json E J text w2 in
      let read = read_json-held text w2 has in
      let saved =
        save_message-held E env w3 m (ground (arith, read file, built file, free file))
          (ground (arith, read schema, built schema, free schema))
          (ground (arith, read handle, built handle, free handle)) in
      let w4 = (save_message E env m w3).1 in
      let sent = http_send_built_json-held E J 200 text w4 (saved json ∙ read json ∙ has) in
      let w5 = http_send_built_json E J 200 text w4 in
      let freed = free_json-held E J text w5 (sent json ∙ saved json ∙ read json ∙ has) in
      ground (arith, freed r, sent r, saved r, read r, built r, free r)

  finish_upload-held :
      (f : Form) (path : Bytes) (w : World E.Db)
      → ((r : Resource) → held r w.log ≡ some false)
      → (r : Resource) → held r (finish_upload E J env f path w).log ≡ some false
  unfolding finish_upload
  finish_upload-held f [] w free r =
      http_send_error-held E J 400 "No file part" w (free document) (free json) r ∙ free r
  finish_upload-held f (c ∷ path) w free r =
      let kept =
        save_connection-held E env w f.remote_addr (free file) (free schema) (free handle) in
      let (connection_id, w1) = save_connection E env f.remote_addr w in
      let free1 : (r : Resource) → held r w1.log ≡ some false = λ r. kept r ∙ free r in
      ground (
        arith,
        http_send_error-held E J 500 "Data base error" w1 (free1 document) (free1 json) r,
        free1 r,
        deliver-held connection_id (c ∷ path) w1 free1 r,
      )

  -- From a state in which no resource is held, an upload that stores every file part before the
  -- next one is found gives back all that it takes, whatever calls fail: every file and database
  -- handle is closed, every block freed once and not used after that, every mutex unlocked.
  pub api_upload_handler-held :
      (f : Form) (w : World E.Db)
      → stores_each false f.calls ≡ true
      → ((r : Resource) → held r w.log ≡ some false)
      → (r : Resource) → held r (api_upload_handler E J env f w).log ≡ some false
  unfolding api_upload_handler same
  api_upload_handler-held f w ok free r =
      let (u, w1) = form_calls E J env f.calls (record { fp = false; path = []; size = 0 }) w in
      let got =
        form_calls-held f.calls false (record { fp = false; path = []; size = 0 }) w ok (λ e. refl)
          (free file) (free file_mutex) in
      let w2 = close_part E J env u w1 in
      let closed = close_part-held u w1 (got file) in
      let free2 : (r : Resource) → held r w2.log ≡ some false =
        λ r. ground (arith, closed r, got r, free r) in
      ground (
        arith,
        http_send_error-held E J 405 "POST required" w (free document) (free json) r,
        http_send_error-held E J 400 "Form parse error" w2 (free2 document) (free2 json) r,
        free r,
        free2 r,
        finish_upload-held f u.path w2 free2 r,
      )
