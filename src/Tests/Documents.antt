-- ===== src/Tests/Documents.antt =====
-- The API document.
use sending_system.Base.{ℕ, suc, ◌-◌, some, ◌≡◌, refl, none, [], ◌∷◌, codes, if◌then◌else◌, arith}
use sending_system.System.Held.{held, responses}
use sending_system.Handlers.OpenApi.{Query, build_server_url, api_openapi_handler}
use sending_system.Handlers.OpenApi.Answers.{
  is_read, IsOnly, ok_response, api_openapi_handler-IsOnly, api_openapi_handler_head,
}
use sending_system.Handlers.OpenApi.Document.{CjsonHeap}
use sending_system.Tests.Samples.{blank, roles, flat_json, start}

abbrev posted : Query
posted = record { request_method = codes "POST"; host = none }

api_openapi_handler-IsOnly_example :
    IsOnly blank roles
      (flat_json none)
      (if is_read posted.request_method then 200 else 405)
      start
      (api_openapi_handler blank roles (flat_json none) posted start tt).0
unfolding held
api_openapi_handler-IsOnly_example =
    api_openapi_handler-IsOnly blank roles (flat_json none) posted start tt refl refl

api_openapi_handler_head_example :
    let get =
      api_openapi_handler blank roles
        (flat_json none)
        (record { request_method = codes "GET"; host = none })
        start
        tt in
    let head =
      api_openapi_handler blank roles
        (flat_json none)
        (record { request_method = codes "HEAD"; host = none })
        start
        tt in
    (responses get.0.log ≡ ok_response (codes "{}") (codes "{}") ∷ responses start.log)
    × (responses head.0.log ≡ ok_response (codes "{}") [] ∷ responses start.log)
    × (get.1 ≡ head.1)
unfolding codes
api_openapi_handler_head_example =
    api_openapi_handler_head blank roles (flat_json none) none start tt (codes "{}") refl
      (omega arith)

-- A cJSON that counts the nodes that belong to no other.
abbrev counting : CjsonHeap
counting = record {
  Heap = ℕ;
  Node = Unit;
  create_object = λ h. (tt, suc h);
  create_string = λ s h. (tt, suc h);
  add_string = λ o key s h. h;
  add_bool = λ o key b h. h;
  add_object = λ o key h. (tt, h);
  add_array = λ o key h. (tt, h);
  add_item = λ o key item h. h - 1;
  add_element = λ a item h. h - 1;
  parse = λ s h. (some tt, suc h);
  get_object_item = λ o key h. none;
  print_unformatted = λ o h. (some (codes "{}"), h);
  delete = λ o h. h - 1;
}

loopback_url : build_server_url none 128 ≡ codes "https://127.0.0.1:5000"
unfolding build_server_url codes
loopback_url = refl
