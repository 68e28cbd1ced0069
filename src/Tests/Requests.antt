-- ===== src/Tests/Requests.antt =====
-- Requests to /api/send.
use sending_system.Base.{◌≡◌, refl, false, some, Bytes, codes, take}
use sending_system.System.{body}
use sending_system.System.Held.{held}
use sending_system.Handlers.Send.{Request, api_send_handler}
use sending_system.Handlers.Send.Resources.{api_send_handler-held}
use sending_system.Handlers.Send.Answers.{IsAnswered, api_send_handler-IsAnswered}
use sending_system.Tests.Samples.{connections, healthy, start, flat_json}

abbrev request : Bytes → Request
request method = record {
  request_method = method;
  remote_addr = codes "10.0.0.1";
  content_length = some (codes "16");
  read = λ n. take n (codes "{\"data\":\"hello\"}");
}

api_send_handler-held_example :
    held body
      (api_send_handler connections
        (flat_json (some (codes "../x")))
        (healthy connections)
        (request (codes "POST"))
        start).log
    ≡ some false
unfolding held
api_send_handler-held_example =
    api_send_handler-held connections (flat_json (some (codes "../x"))) (healthy connections)
      (request (codes "POST")) start (λ r. refl) body

api_send_handler-IsAnswered_example : IsAnswered start (
    api_send_handler connections
      (flat_json (some (codes "../x")))
      (healthy connections)
      (request (codes "POST"))
      start)
unfolding held
api_send_handler-IsAnswered_example =
    api_send_handler-IsAnswered connections (flat_json (some (codes "../x"))) (healthy connections)
      (request (codes "POST")) start (λ r. refl)
