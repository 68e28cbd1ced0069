-- ===== src/Handlers/Upload/Parts.antt =====
-- The path that the callbacks of an upload note.
use sending_system.Base.{
  ℕ, ◌-◌, ◌≤◌, ◌≡◌, ◌∙◌, ap, Bool, Option, none, some, List, [], ◌∷◌, ◌++◌, arith, Bytes, codes,
  length, length-append, take_of_length-le, snprintf, All,
}
use sending_system.Sqlite.{Sqlite}
use sending_system.System.{Env, World}
use sending_system.Handlers.Json.{Cjson}
use sending_system.Handlers.Saving.{save_dir, safe_name_of, save_path}
use sending_system.Handlers.Saving.Paths.{safe_name_of_lem, length-save_dir, length-slash}
use sending_system.Handlers.Upload.{
  UploadCtx, FormCall, field_found, field_get, field_store, open_part, on_field_found,
  on_field_store, form_call, form_calls,
}
use sending_system.Handlers.Upload.Paths.{HasRoom}

-- The name of the last file part of a form, `last` being that of the parts before.
unfoldable pub last_part : Option Bytes → List FormCall → Option Bytes
last_part last [] = last
last_part last (field_found none n ∷ calls) = last_part last calls
last_part last (field_found (some []) n ∷ calls) = last_part last calls
last_part last (field_found (some (c ∷ name)) n ∷ calls) = last_part (some (c ∷ name)) calls
last_part last (field_get ∷ calls) = last_part last calls
last_part last (field_store ∷ calls) = last_part last calls

-- The path of a part in SAVE_DIR.
abbrev pub part_path : Bool → Bytes → Bytes
part_path compiled name = save_dir ++ (codes "/" ++ safe_name_of compiled name)

length-part_path : (compiled : Bool) (name : Bytes) → length (part_path compiled name) ≤ 267
length-part_path compiled name =
    let (safe, is_safe, good, fits) = safe_name_of_lem compiled name in
    omega (
      arith,
      ap length is_safe,
      length-append save_dir (codes "/" ++ safe_name_of compiled name),
      length-append (codes "/") (safe_name_of compiled name),
      length-save_dir,
      length-slash,
    )

save_path-part_path :
    (compiled : Bool) (name : Bytes) (n : ℕ)
    → 268 ≤ n
    → snprintf 268 (save_path n (safe_name_of compiled name)) ≡ part_path compiled name
unfolding save_path
save_path-part_path compiled name n room =
    let short = length-part_path compiled name in
    ap (snprintf 268) (take_of_length-le (n - 1) (part_path compiled name) (omega arith))
    ∙ take_of_length-le 267 (part_path compiled name) short

-- The context has the path of the part, or none.
abbrev pub Notes : Option Bytes → UploadCtx → Type 0
Notes none u = u.path ≡ []
Notes (some name) u = (compiled : Bool) × (u.path ≡ part_path compiled name)

module _ (E : Sqlite) (J : Cjson) (env : Env E) where
  open_part-Notes :
      (name : Bytes) (n : ℕ) (w : World E.Db)
      → 268 ≤ n
      → Notes (some name) (open_part E J env name n w).1
  unfolding open_part
  open_part-Notes name n w room =
      let compiled = env.regcomp w.calls in
      (compiled, ground (arith, save_path-part_path compiled name n room))

  on_field_store-Notes :
      (last : Option Bytes) (u : UploadCtx) (w : World E.Db)
      → Notes last u
      → Notes last (on_field_store E J env u w).0
  unfolding on_field_store
  on_field_store-Notes none u w h = ground (arith, h)
  on_field_store-Notes (some name) u w (compiled, h) = (compiled, ground (arith, h))

  pub form_calls-Notes :
      (calls : List FormCall) (last : Option Bytes) (u : UploadCtx) (w : World E.Db)
      → All HasRoom calls
      → Notes last u
      → Notes (last_part last calls) (form_calls E J env calls u w).0
  unfolding form_calls form_call on_field_found last_part HasRoom
  form_calls-Notes [] last u w rooms h = h
  form_calls-Notes (field_found none n ∷ calls) last u w (room, rooms) h =
      form_calls-Notes calls last u w rooms h
  form_calls-Notes (field_found (some []) n ∷ calls) last u w (room, rooms) h =
      form_calls-Notes calls last u w rooms h
  form_calls-Notes (field_found (some (c ∷ name)) n ∷ calls) last u w (room, rooms) h =
      let (storage, u', w') = open_part E J env (c ∷ name) n w in
      form_calls-Notes calls (some (c ∷ name)) u' w' rooms (open_part-Notes (c ∷ name) n w room)
  form_calls-Notes (field_get ∷ calls) last u w (room, rooms) h =
      form_calls-Notes calls last u w rooms h
  form_calls-Notes (field_store ∷ calls) last u w (room, rooms) h =
      let (u', w') = on_field_store E J env u w in
      form_calls-Notes calls last u' w' rooms (on_field_store-Notes last u w h)
