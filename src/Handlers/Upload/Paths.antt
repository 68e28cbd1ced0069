-- ===== src/Handlers/Upload/Paths.antt =====
-- Where an upload opens files, and what becomes of a file that cannot be opened.
use mathlib.Core.List.{append_assoc}
use sending_system.Base.{
  ℕ, ◌+◌, ◌-◌, ◌≤◌, ◌≡◌, ◌∙◌, refl, ap, Bool, true, false, Option, none, some, List, [], ◌∷◌, ◌++◌,
  arith, Bytes, codes, bytes_eq_refl, minus_one, int_eq, if◌then◌else◌, Bool-cases, inl, inr, All,
  All-append, take, drop, length-append, take_of_length-le,
}
use sending_system.Sqlite.{Sqlite}
use sending_system.System.{
  Resource, file, schema, handle, file_mutex, Env, World, Event, acquire, release, access, make_dir,
  logged, opened, wrote, recorded, sent,
}
use sending_system.System.Held.{same, held, responses}
use sending_system.Handlers.Json.{http_build_json, Cjson, response_of}
use sending_system.Handlers.Saving.{save_connection, save_dir, save_path, safe_name_of}
use sending_system.Handlers.Saving.Resources.{save_connection-held, save_connection-log}
use sending_system.Handlers.Saving.Paths.{
  InSaveDir, safe_name_of_lem, length-save_dir, length-slash,
}
use sending_system.Handlers.Upload.{
  UploadCtx, FormCall, field_found, field_get, field_store, Form, open_part, on_field_found,
  on_field_store, form_call, form_calls, close_part, finish_upload, api_upload_handler,
}
use sending_system.Handlers.Upload.Resources.{open_part-held}
use sending_system.Handlers.Upload.Logs.{open_part-log, deliver-log}

-- The paths of the files opened, the newest first.
unfoldable pub opens : List Event → List Bytes
opens [] = []
opens (opened path ∷ log) = path ∷ opens log
opens (acquire _ ∷ log) = opens log
opens (release _ ∷ log) = opens log
opens (access _ ∷ log) = opens log
opens (make_dir _ ∷ log) = opens log
opens (logged _ ∷ log) = opens log
opens (wrote _ _ ∷ log) = opens log
opens (recorded _ ∷ log) = opens log
opens (sent _ ∷ log) = opens log

-- The buffers for the paths have room for every path in SAVE_DIR.
unfoldable pub HasRoom : FormCall → Type 0
HasRoom (field_found filename pathlen) = 268 ≤ pathlen
HasRoom field_get = Unit
HasRoom field_store = Unit

save_path-InSaveDir :
    (compiled : Bool) (name : Bytes) (n : ℕ)
    → 268 ≤ n
    → InSaveDir (save_path n (safe_name_of compiled name))
unfolding save_path
save_path-InSaveDir compiled name n room =
    let (safe, is_safe, good, fits) = safe_name_of_lem compiled name in
    (
      safe,
      good,
      rw is_safe (
          take_of_length-le (n - 1) (save_dir ++ (codes "/" ++ safe)) (
            omega (
              arith,
              length-append save_dir (codes "/" ++ safe),
              length-append (codes "/") safe,
              length-save_dir,
              length-slash,
            ))),
    )

-- A form with one file part, parsed without an error.
abbrev pub one_part : Bytes → Bytes → ℕ → Form
one_part remote_addr name pathlen = record {
  request_method = codes "POST";
  remote_addr = remote_addr;
  calls = field_found (some name) pathlen ∷ [];
  parsed = true;
}

module _ (E : Sqlite) (J : Cjson) (env : Env E) where
  open_part-opens :
      (name : Bytes) (n : ℕ) (w : World E.Db)
      → opens (open_part E J env name n w).2.log ≡ (
          if env.fopen (w.calls + 1)
          then save_path n (safe_name_of (env.regcomp w.calls) name) ∷ opens w.log
          else opens w.log)
  unfolding open_part opens
  open_part-opens name n w = ground arith

  on_field_store-opens :
      (u : UploadCtx) (w : World E.Db) → opens (on_field_store E J env u w).1.log ≡ opens w.log
  unfolding on_field_store opens
  on_field_store-opens u w = ground arith

  -- Whatever names the parts of a form have, every file that the callbacks open lies in SAVE_DIR
  -- under a safe name, if the buffers for the paths have 268 bytes at least.
  pub form_calls-InSaveDir :
      (calls : List FormCall) (u : UploadCtx) (w : World E.Db)
      → All HasRoom calls
      → (paths : List Bytes) × (opens (form_calls E J env calls u w).1.log ≡ paths ++ opens w.log)
        × All InSaveDir paths
  unfolding form_calls form_call on_field_found HasRoom
  form_calls-InSaveDir [] u w rooms = ([], refl, tt)
  form_calls-InSaveDir (field_found none n ∷ calls) u w (room, rooms) =
      form_calls-InSaveDir calls u w rooms
  form_calls-InSaveDir (field_found (some []) n ∷ calls) u w (room, rooms) =
      form_calls-InSaveDir calls u w rooms
  form_calls-InSaveDir (field_found (some (c ∷ name)) n ∷ calls) u w (room, rooms) =
      let (storage, u', w') = open_part E J env (c ∷ name) n w in
      let (paths, later, inside) = form_calls-InSaveDir calls u' w' rooms in
      let here = open_part-opens (c ∷ name) n w in
      let path = save_path n (safe_name_of (env.regcomp w.calls) (c ∷ name)) in
      elim (Bool-cases (env.fopen (w.calls + 1))) [
        | inl open_ok ↦ (
          paths ++ (path ∷ []),
          ground (arith, later, here, append_assoc paths (path ∷ []) (opens w.log)),
          All-append InSaveDir paths (path ∷ []) inside
              (save_path-InSaveDir (env.regcomp w.calls) (c ∷ name) n room, tt),
        )
        | inr refused ↦ (paths, ground (arith, later, here), inside)
      ]
  form_calls-InSaveDir (field_get ∷ calls) u w (room, rooms) = form_calls-InSaveDir calls u w rooms
  form_calls-InSaveDir (field_store ∷ calls) u w (room, rooms) =
      let (u', w') = on_field_store E J env u w in
      let (paths, later, inside) = form_calls-InSaveDir calls u' w' rooms in
      (paths, later ∙ ap (λ log. paths ++ log) (on_field_store-opens u w), inside)

  -- The path of a part is noted before its file is opened.
  open_part_path :
      (c : ℕ) (name : Bytes) (n : ℕ) (w : World E.Db)
      → 268 ≤ n
      → env.fopen (w.calls + 1) ≡ false
      → (byte : ℕ) × (path : Bytes) × ((open_part E J env (c ∷ name) n w).1
          ≡ record { fp = false; path = byte ∷ path; size = 0 })
  unfolding open_part codes
  open_part_path c name n w room refused =
      let (safe, good, whole) = save_path-InSaveDir (env.regcomp w.calls) (c ∷ name) n room in
      (98, take 266 (drop 1 (save_dir ++ (codes "/" ++ safe))), rw (refused, whole) refl)

  -- From a state in which no resource is held, a single file part whose file cannot be opened is
  -- still answered with the status 200, if its path buffer has 268 bytes at least,
  -- `mg_handle_form_request` is not negative then and the connection is saved.
  pub api_upload_handler_unopened :
      (remote_addr : Bytes) (c : ℕ) (name : Bytes) (n : ℕ) (w : World E.Db)
      → 268 ≤ n
      → env.fopen (w.calls + 1) ≡ false
      → int_eq (save_connection E env remote_addr (open_part E J env (c ∷ name) n w).2).0 minus_one
        ≡ false
      → ((r : Resource) → held r w.log ≡ some false)
      → (text : Option Bytes) × (responses
            (api_upload_handler E J env (one_part remote_addr (c ∷ name) n) w).log
          ≡ response_of 200 text ∷ responses w.log)
  unfolding api_upload_handler form_calls form_call on_field_found close_part finish_upload same
  api_upload_handler_unopened remote_addr c name n w room refused saved free =
      let (byte, path, noted) = open_part_path c name n w room refused in
      let w1 = (open_part E J env (c ∷ name) n w).2 in
      let shut = ap (λ (u : UploadCtx). u.fp) noted in
      let free1 : (r : Resource) → held r w1.log ≡ some false = λ r. ground (
        arith,
        open_part-held E J env (c ∷ name) n w (free file) (free file_mutex) r,
        shut,
        free r,
      ) in
      let kept =
        save_connection-held E env w1 remote_addr (free1 file) (free1 schema) (free1 handle) in
      let log =
        save_connection-log E env w1 remote_addr (free1 file) (free1 schema) (free1 handle) in
      let w2 = (save_connection E env remote_addr w1).1 in
      let answered =
        deliver-log E J env (save_connection E env remote_addr w1).0 (byte ∷ path) w2
          (λ r. kept r ∙ free1 r) in
      (
        (http_build_json E J "message" "File(s) received" w2).0,
        rw (bytes_eq_refl (codes "POST"), noted, saved)
            (answered.0
              ∙ ap
                  (λ rs.
                    response_of 200 (http_build_json E J "message" "File(s) received" w2).0 ∷ rs)
                  (log.0 ∙ (open_part-log E J env (c ∷ name) n w).0)),
      )
