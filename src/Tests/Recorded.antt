-- ===== src/Tests/Recorded.antt =====
-- Requests to /api/send on a database of two tables: what is refused, and what is recorded.
use mathlib.Core.Option
use sending_system.Base.{
  ℕ, ◌≡◌, ◌++◌, ◌⊎◌, refl, true, false, Option, none, some, [], ◌∷◌, map, arith, decimal, Bytes,
  codes, bytes_eq, c_string, take, minus_one, int_eq,
}
use sending_system.Sqlite.Rows.{rows}
use sending_system.Sqlite.Table.{full_row}
use sending_system.Sqlite.Memory.{run_query, run_exec}
use sending_system.System.{World}
use sending_system.System.Held.{held, responses, records}
use sending_system.Database.Open.{database_open}
use sending_system.Repository.Connections.{connection_get_or_create, bind_peer}
use sending_system.Repository.Connections.Index.{peer_ids, conflicts}
use sending_system.Repository.Messages.{message_get_all}
use sending_system.Repository.Messages.Crud.{message_from, stored}
use sending_system.Handlers.Json.{response_of}
use sending_system.Handlers.ContentLength.{content_length_of, accepted_length}
use sending_system.Handlers.Saving.{save_connection}
use sending_system.Handlers.Send.{Request, string_item, save_target, terminated, api_send_handler}
use sending_system.Handlers.Send.Verdict.{refused, accepted, verdict, text_message, Refused, Wrote}
use sending_system.Handlers.Saving.Working.{IsWorking}
use sending_system.Handlers.Send.Outcome.{api_send_handler-Refused, api_send_handler-records}
use sending_system.Handlers.ContentLength.Decimal.{accepted_length-decimal}
use sending_system.Handlers.Upload.{
  field_found, field_get, field_store, Form, form_calls, form_call, on_field_found, on_field_store,
  open_part, close_part, api_upload_handler,
}
use sending_system.Handlers.Upload.Resources.{stores_each}
use sending_system.Handlers.Upload.Paths.{HasRoom}
use sending_system.Handlers.Upload.Parts.{last_part}
use sending_system.Handlers.Upload.Recorded.{received, Recorded, api_upload_handler-records}
use sending_system.Handlers.History.{IsHistory}
use sending_system.Server.{
  to_send, Server, advance, dispatch, Runs, begin, main_step, beside, requested, initial,
  open_database, start_context, IsProper,
}
use sending_system.Server.History.{reached-IsHistory}
use sending_system.Tests.Samples.{healthy, flat_json, blank}
use sending_system.Tests.Lifecycle.{host}
use sending_system.Tests.TwoTables.{Two, two, two_empty, two_table, two_apart}

abbrev start : World Two
start = record { db = two_empty; log = []; calls = 0 }

abbrev request : Bytes → Request
request announced = record {
  request_method = codes "POST";
  remote_addr = codes "10.0.0.1";
  content_length = some announced;
  read = λ n. take n (codes "{\"data\":\"hello\"}");
}

incomplete :
    verdict two (flat_json none) (healthy two) (request (codes "17"))
    ≡ refused 400 "Incomplete body"
unfolding verdict codes content_length_of accepted_length bytes_eq
incomplete = refl

api_send_handler-Refused_example :
    let w' = api_send_handler two (flat_json none) (healthy two) (request (codes "17")) start in
    Refused two (flat_json none) (healthy two) 400 "Incomplete body" start w'
    × ((bytes_eq (codes "POST") (codes "POST") ≡ true) ⊎ (w'.db ≡ start.db))
unfolding held
api_send_handler-Refused_example =
    api_send_handler-Refused two (flat_json none) (healthy two) (request (codes "17")) start 400
      "Incomplete body" (λ r. refl) (λ n. refl) incomplete

always_opens : (w : World Two) → (database_open two (healthy two) w).0 ≡ true
unfolding database_open
always_opens w = refl

two_works : IsWorking two (healthy two)
unfolding run_exec
two_works = record { opens = always_opens; prepares = λ db. refl; inserts = λ db vs. refl }

first_peer : int_eq (save_connection two (healthy two) (codes "10.0.0.1") start).0 minus_one ≡ false
unfolding save_connection database_open connection_get_or_create run_query run_exec peer_ids
    conflicts bind_peer
first_peer = refl

to_a_file :
    verdict two (flat_json (some (codes "../x"))) (healthy two) (request (codes "16"))
    ≡ accepted (codes "{\"data\":\"hello\"}") (some (codes "../x")) (codes "hello")
unfolding verdict codes content_length_of accepted_length bytes_eq c_string string_item terminated
    save_target Option.bind
to_a_file = refl

api_send_handler-records_example :
    let w' =
      api_send_handler two
        (flat_json (some (codes "../x")))
        (healthy two)
        (request (codes "16"))
        start in
    let connection_id = (save_connection two (healthy two) (codes "10.0.0.1") start).0 in
    (status : ℕ) × (json : Option Bytes) × (time : Bytes) × (responses w'.log
      ≡ response_of status json ∷ responses start.log)
    × (records w'.log
        ≡ text_message connection_id status json (codes "{\"data\":\"hello\"}") time
          ∷ records start.log)
    × Wrote two
        (flat_json (some (codes "../x")))
        (healthy two)
        (some (codes "../x"))
        (codes "hello")
        status
        start
        w'
unfolding held
api_send_handler-records_example =
    api_send_handler-records two (flat_json (some (codes "../x"))) (healthy two) two_works
      (request (codes "16")) start (codes "{\"data\":\"hello\"}") (codes "hello")
      (some (codes "../x")) (λ r. refl) (λ n. refl) first_peer to_a_file

accepted_length-decimal_example :
    (accepted_length (content_length_of (some (decimal 16))) ≡ some 16)
    × (accepted_length (content_length_of none) ≡ none)
accepted_length-decimal_example = accepted_length-decimal 16

abbrev form : Form
form = record {
  request_method = codes "POST";
  remote_addr = codes "10.0.0.1";
  calls = field_get ∷ field_found (some (codes "../a.txt")) 512 ∷ field_store ∷ [];
  parsed = true;
}

one_part : last_part none form.calls ≡ some (codes "../a.txt")
unfolding last_part codes
one_part = refl

sender_saved :
    int_eq
      (save_connection two
        (healthy two)
        (codes "10.0.0.1")
        (received two (flat_json none) (healthy two) form start).1).0
      minus_one
    ≡ false
unfolding codes bytes_eq save_connection database_open connection_get_or_create run_query run_exec
    peer_ids conflicts bind_peer form_calls form_call on_field_found on_field_store open_part
    close_part
sender_saved = refl

api_upload_handler-records_example :
    Recorded two
      (flat_json none)
      (healthy two)
      (save_connection two
        (healthy two)
        (codes "10.0.0.1")
        (received two (flat_json none) (healthy two) form start).1).0
      (codes "../a.txt")
      start
      (api_upload_handler two (flat_json none) (healthy two) form start)
unfolding held stores_each HasRoom codes bytes_eq
api_upload_handler-records_example =
    api_upload_handler-records two (flat_json none) (healthy two) form start (codes "../a.txt")
      two_works (λ r. refl) refl (tt, (omega arith, (tt, tt))) refl refl one_part sender_saved

abbrev State : Type 0
State = Server two blank

abbrev step : State → State
step s = advance two blank (flat_json none) (healthy two) host s.phase s

abbrev begun : State
begun = initial two blank two_empty tt

abbrev up : State
up = step (step (step (step begun)))

abbrev served : State
served = dispatch two blank (flat_json none) (healthy two) host (to_send (request (codes "16"))) up

up_serves : up.context ≡ true
unfolding initial advance open_database start_context database_open
up_serves = refl

Run-served : Runs two blank (flat_json none) (healthy two) host begun 4 served
unfolding IsProper
Run-served =
    beside (main_step (main_step (main_step (main_step begin))))
      (requested (to_send (request (codes "16"))) tt up_serves)

reached-IsHistory_example :
    (k : IsHistory two (healthy two) two_table (two_table.view two_empty) served.requests)
    × ((message_get_all two (λ n. true) served.requests.db 0).0
        ≡ rows (
            map (message_from two) (map full_row (two_table.view two_empty))
            ++ map (λ e. stored e.0 e.1) k.entries))
reached-IsHistory_example =
    reached-IsHistory two blank (flat_json none) (healthy two) host two_table two_apart two_empty tt
      4 served (λ n. true) Run-served (λ i. refl) refl
