-- ===== src/Handlers/Json/Resources.antt =====
-- The JSON helpers free the objects that they make, and send one response each.
use sending_system.Base.{
  ℕ, String, ◌≡◌, true, false, ◌&&◌, Option, some, ◌∷◌, arith, Bytes, if◌then◌else◌,
}
use sending_system.Sqlite.{Sqlite}
use sending_system.System.{World, Resource, document, json}
use sending_system.System.Held.{same, held, responses, records, written, present}
use sending_system.Handlers.Json.{
  Cjson, response_of, hold_json, free_json, read_json, http_build_json, http_send_built_json,
  http_send_json, http_send_error,
}

module _ (E : Sqlite) (J : Cjson) where
  module _ (type payload : String) (w : World E.Db) where
    -- `http_build_json` leaves the text, if there is one, and no cJSON object.
    pub http_build_json-held :
        held document w.log ≡ some false
        → held json w.log ≡ some false
        → (r : Resource)
        → held r (http_build_json E J type payload w).1.log ≡ (
            if present (http_build_json E J type payload w).0 && same r json
            then some true
            else held r w.log)
    unfolding http_build_json hold_json held
    http_build_json-held hd hj document = ground arith
    http_build_json-held hd hj r = ground arith

    pub http_build_json-log :
        (responses (http_build_json E J type payload w).1.log ≡ responses w.log)
        × (records (http_build_json E J type payload w).1.log ≡ records w.log)
        × (written (http_build_json E J type payload w).1.log ≡ written w.log)
    unfolding http_build_json hold_json responses records written
    http_build_json-log = ground arith

  module _ (status : ℕ) (text : Option Bytes) (w : World E.Db) where
    pub http_send_built_json-held :
        held json w.log ≡ some (present text)
        → (r : Resource) → held r (http_send_built_json E J status text w).log ≡ held r w.log
    unfolding http_send_built_json read_json held
    http_send_built_json-held hj document = ground arith
    http_send_built_json-held hj r = ground arith

    pub http_send_built_json-log :
        (responses (http_send_built_json E J status text w).log
          ≡ response_of status text ∷ responses w.log)
        × (records (http_send_built_json E J status text w).log ≡ records w.log)
        × (written (http_send_built_json E J status text w).log ≡ written w.log)
    unfolding http_send_built_json read_json responses records written
    http_send_built_json-log = ground arith

  module _ (text : Option Bytes) (w : World E.Db) where
    pub free_json-held :
        held json w.log ≡ some (present text)
        → (r : Resource)
        → held r (free_json E J text w).log ≡ (if same r json then some false else held r w.log)
    unfolding free_json held
    free_json-held hj document = ground arith
    free_json-held hj r = ground arith

    pub free_json-log :
        (responses (free_json E J text w).log ≡ responses w.log)
        × (records (free_json E J text w).log ≡ records w.log)
        × (written (free_json E J text w).log ≡ written w.log)
    unfolding free_json responses records written
    free_json-log = ground arith

  module _ (status : ℕ) (msg : String) (w : World E.Db) where
    -- `http_send_error` frees all that it makes.
    pub http_send_error-held :
        held document w.log ≡ some false
        → held json w.log ≡ some false
        → (r : Resource) → held r (http_send_error E J status msg w).log ≡ held r w.log
    unfolding http_send_error http_send_json http_build_json hold_json http_send_built_json
        read_json free_json held
    http_send_error-held hd hj document = ground arith
    http_send_error-held hd hj r = ground arith

    -- One response with the given status, and no other trace.
    pub http_send_error-log :
        (responses (http_send_error E J status msg w).log
          ≡ response_of status (http_build_json E J "error" msg w).0 ∷ responses w.log)
        × (records (http_send_error E J status msg w).log ≡ records w.log)
        × (written (http_send_error E J status msg w).log ≡ written w.log)
    unfolding http_send_error http_send_json http_build_json hold_json http_send_built_json
        read_json free_json responses records written
    http_send_error-log = ground arith

    pub db-http_send_error : (http_send_error E J status msg w).db ≡ w.db
    unfolding http_send_error http_send_json http_build_json hold_json http_send_built_json
        read_json free_json
    db-http_send_error = ground arith
