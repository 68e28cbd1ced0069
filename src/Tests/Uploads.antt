-- ===== src/Tests/Uploads.antt =====
-- Requests to /api/upload.
use sending_system.Base.{
  ◌≡◌, ◌==◌, refl, true, false, Option, none, some, List, [], ◌∷◌, ◌++◌, arith, Bytes, codes, All,
}
use sending_system.System.{Env, file}
use sending_system.System.Held.{held, responses}
use sending_system.Handlers.Json.{response_of}
use sending_system.Handlers.Saving.{save_connection}
use sending_system.Handlers.Saving.Paths.{InSaveDir}
use sending_system.Sqlite.Memory.{run_query, run_exec}
use sending_system.Database.Open.{database_open}
use sending_system.Repository.Connections.{connection_get_or_create}
use sending_system.Repository.Connections.Index.{peer_ids, conflicts}
use sending_system.Handlers.Upload.{
  open_part, FormCall, field_found, field_get, field_store, Form, form_calls, api_upload_handler,
}
use sending_system.Handlers.Upload.Resources.{stores_each, api_upload_handler-held}
use sending_system.Handlers.Upload.Answers.{IsReceived, api_upload_handler-IsReceived}
use sending_system.Handlers.Upload.Paths.{
  opens, HasRoom, one_part, form_calls-InSaveDir, api_upload_handler_unopened,
}
use sending_system.Tests.Samples.{connections, healthy, start, flat_json}

abbrev calls : List FormCall
calls =
    field_found none 512
    ∷ field_get
    ∷ field_found (some (codes "../a.txt")) 512
    ∷ field_store
    ∷ field_found (some (codes "b.txt")) 512
    ∷ []

abbrev form : Form
form = record {
  request_method = codes "POST";
  remote_addr = codes "10.0.0.1";
  calls = calls;
  parsed = true;
}

-- `fopen` fails for the part, and succeeds for the schema.
abbrev full_disk : Env connections
full_disk = record (healthy connections) {
  fopen = λ n. elim (n == 1) [ true ↦ false | false ↦ true ];
}

api_upload_handler-held_example :
    held file (api_upload_handler connections (flat_json none) (healthy connections) form start).log
    ≡ some false
unfolding held stores_each codes
api_upload_handler-held_example =
    api_upload_handler-held connections (flat_json none) (healthy connections) form start refl
      (λ r. refl) file

api_upload_handler-IsReceived_example :
    IsReceived start
      (api_upload_handler connections (flat_json none) (healthy connections) form start)
unfolding held stores_each codes
api_upload_handler-IsReceived_example =
    api_upload_handler-IsReceived connections (flat_json none) (healthy connections) form start refl
      (λ r. refl)

form_calls-InSaveDir_example :
    (paths : List Bytes) × (opens
        (form_calls connections
          (flat_json none)
          (healthy connections)
          calls
          (record { fp = false; path = []; size = 0 })
          start).1.log
      ≡ paths ++ opens start.log)
    × All InSaveDir paths
unfolding HasRoom
form_calls-InSaveDir_example =
    form_calls-InSaveDir connections (flat_json none) (healthy connections) calls
      (record { fp = false; path = []; size = 0 }) start
      (omega arith, (tt, (omega arith, (tt, (omega arith, tt)))))

api_upload_handler_unopened_example :
    (text : Option Bytes) × (responses
        (api_upload_handler connections
          (flat_json none)
          full_disk
          (one_part (49 ∷ []) (97 ∷ []) 512)
          start).log
      ≡ response_of 200 text ∷ responses start.log)
unfolding held save_connection database_open open_part connection_get_or_create run_query peer_ids
    run_exec conflicts
api_upload_handler_unopened_example =
    api_upload_handler_unopened connections (flat_json none) full_disk (49 ∷ []) 97 [] 512 start
      (omega arith) refl refl (λ r. refl)
