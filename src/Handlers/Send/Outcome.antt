-- ===== src/Handlers/Send/Outcome.antt =====
-- Which requests `api_send_handler` refuses and how, and that it records the others.
use sending_system.Base.{
  ℕ, String, ◌≡◌, ◌∙◌, ◌⊎◌, refl, ap, subst, true, false, Option, some, List, ◌∷◌, Bytes, codes,
  bytes_eq, ℤ, minus_one, int_eq, Bool-cases, inl, inr,
}
use sending_system.Sqlite.{Sqlite}
use sending_system.System.{Env, World, Resource, body, emit, ask, access}
use sending_system.System.Held.{held, responses, records}
use sending_system.Database.Models.{Message}
use sending_system.Handlers.Json.{Cjson, response_of, http_send_built_json, read_json}
use sending_system.Handlers.Json.Resources.{http_send_built_json-log, free_json-log}
use sending_system.Handlers.Saving.Working.{IsWorking, save_message-records, read_json-records}
use sending_system.Handlers.Saving.{save_connection}
use sending_system.Handlers.Send.{Request, message_for, persist, conclude, api_send_handler}
use sending_system.Handlers.Send.Answers.{api_send_handler_other_method}
use sending_system.Handlers.Send.Verdict.Carried.{handler-Follows}
use sending_system.Handlers.Send.Verdict.{
  refused, accepted, verdict, text_message, Wrote, Refused, Follows,
}

module _ (E : Sqlite) (J : Cjson) (env : Env E) where
  -- A request that the verdict refuses, for its method, its Content-Length, an incomplete body, a
  -- body that is no JSON or one without "data", gets exactly the response of the refusal; no message
  -- is recorded and no file written, and after a wrong method the database is as it was; from a state
  -- in which no resource is held, and where every allocation succeeds.
  pub api_send_handler-Refused :
      (rq : Request) (w : World E.Db) (status : ℕ) (msg : String)
      → ((r : Resource) → held r w.log ≡ some false)
      → ((n : ℕ) → env.malloc n ≡ true)
      → verdict E J env rq ≡ refused status msg
      → let w' = api_send_handler E J env rq w in
        Refused E J env status msg w w'
        × ((bytes_eq rq.request_method (codes "POST") ≡ true) ⊎ (w'.db ≡ w.db))
  api_send_handler-Refused rq w status msg free ok said =
      let c = (save_connection E env rq.remote_addr w).0 in
      let anything = λ (m : Message) (old new : List Message). Unit {0} in
      let follows =
        handler-Follows E J env c anything (λ request st text w1. tt) rq w free ok refl in
      (
        subst (λ v. Follows E J env c anything v w (api_send_handler E J env rq w)) said follows,
        elim (Bool-cases (bytes_eq rq.request_method (codes "POST"))) [
          | inl post ↦ inl post
          | inr other ↦ inr (api_send_handler_other_method E J env rq w other).1
        ],
      )

  module _ (works : IsWorking E env) where
    conclude-records :
        (connection_id : ℤ) (request : Bytes) (status : ℕ) (text : Option Bytes) (w : World E.Db)
        → int_eq connection_id minus_one ≡ false
        → records (conclude E J env connection_id request status text w).log
          ≡ text_message connection_id status text request (env.now w.calls) ∷ records w.log
    unfolding conclude persist message_for read_json records
    conclude-records connection_id request status text w saved =
        let (time, w1) = ask env.now w in
        let m = text_message connection_id status text request time in
        let w2 = emit (access body) (read_json E J text w1) in
        let read : records w2.log ≡ records w.log = read_json-records E J text w1 in
        let w3 = persist E J env connection_id status text request w in
        let noted : records w3.log ≡ m ∷ records w.log =
          rw (saved, persist) (save_message-records E env works m w2 ∙ ap (λ l. m ∷ l) read) in
        (free_json-log E J text (http_send_built_json E J status text w3)).1
        ∙ (http_send_built_json-log E J status text w3).1
        ∙ noted

    -- From a state in which no resource is held, and where every allocation succeeds, the connection
    -- could be saved, and the database can be opened and takes every message, a request that is not
    -- refused gets one response, and exactly one message is recorded: an inbound text, with the
    -- connection, the body received, and the status and the text of this response. If the request
    -- names no path, the status is 200 and no file is written. If it does, either exactly the text
    -- under "data" is written, to the file of that name in SAVE_DIR, with the status 200, or the
    -- status is 500 and no file is written.
    pub api_send_handler-records :
        (rq : Request) (w : World E.Db) (request text : Bytes) (target : Option Bytes)
        → ((r : Resource) → held r w.log ≡ some false)
        → ((n : ℕ) → env.malloc n ≡ true)
        → int_eq (save_connection E env rq.remote_addr w).0 minus_one ≡ false
        → verdict E J env rq ≡ accepted request target text
        → let w' = api_send_handler E J env rq w in
          let connection_id = (save_connection E env rq.remote_addr w).0 in
          (status : ℕ) × (json : Option Bytes) × (time : Bytes) × (responses w'.log
            ≡ response_of status json ∷ responses w.log)
          × (records w'.log ≡ text_message connection_id status json request time ∷ records w.log)
          × Wrote E J env target text status w w'
    api_send_handler-records rq w request text target free ok saved said =
        let c = (save_connection E env rq.remote_addr w).0 in
        let noted = λ (m : Message) (old new : List Message). new ≡ m ∷ old in
        let follows =
          handler-Follows E J env c noted
            (λ body status text w1. conclude-records c body status text w1 saved) rq w free ok
            refl in
        subst (λ v. Follows E J env c noted v w (api_send_handler E J env rq w)) said follows
