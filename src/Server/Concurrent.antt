-- ===== src/Server/Concurrent.antt =====
-- Requests that run at the same time: the handlers take the mutexes of Server.c without a deadlock.
use sending_system.Base.{
  ◌≡◌, ◌⊎◌, ◌∙◌, refl, ap, Bool, List, [], ◌∷◌, ◌++◌, map, arith, Option, All, Bytes, bytes_eq,
  codes, Bool-cases, inl, inr,
}
use sending_system.Sqlite.{Sqlite}
use sending_system.System.{Env, World, Event}
use sending_system.System.Locks.{Lock, unlocked, lock, lock_step}
use sending_system.System.Threads.{Thread, ending, IsOrderly}
use sending_system.System.Progress.{Some, IsDone, CanGo, Turns, Turns-IsOrderly, orderly_progress}
use sending_system.Handlers.Json.{Cjson, hold_json, read_json, free_json}
use sending_system.Handlers.Locks.{lock-http_send_error}
use sending_system.Handlers.Send.{api_send_handler}
use sending_system.Handlers.Send.Locks.{api_send_handler-unlocked}
use sending_system.Handlers.Upload.{api_upload_handler}
use sending_system.Handlers.Upload.Locks.{api_upload_handler-unlocked}
use sending_system.Handlers.OpenApi.{Query, send_document, api_openapi_handler}
use sending_system.Handlers.OpenApi.Document.{CjsonHeap}
use sending_system.Handlers.OpenApi.Answers.{is_read, printed}
use sending_system.Server.{Arrival, to_send, to_upload, to_openapi}

-- The oldest event first.
unfoldable pub reversed : List Event → List Event
reversed [] = []
reversed (e ∷ log) = reversed log ++ (e ∷ [])

-- A thread that is to do what a log says.
abbrev pub script : List Event → Thread
script log = record { past = []; next = reversed log }

ending-append :
    (l : Lock) (next : List Event) (e : Event)
    → ending l (next ++ (e ∷ [])) ≡ lock_step e (ending l next)
unfolding ending
ending-append l [] e = refl
ending-append l (d ∷ next) e = ending-append (lock_step d l) next e

ending-reversed : (log : List Event) → ending unlocked (reversed log) ≡ lock log
unfolding ending reversed lock
ending-reversed [] = refl
ending-reversed (e ∷ log) =
    ending-append unlocked (reversed log) e ∙ ap (lock_step e) (ending-reversed log)

module _ (E : Sqlite) (C : CjsonHeap) (J : Cjson) where
  -- A request, with what its handler finds: the database, and the outcomes of its calls.
  pub record Job : Type 0 where
    pub arrival : Arrival
    pub env : Env E
    pub db : E.Db
    pub documents : C.Heap

  -- What a handler adds to a log.
  unfoldable pub handle_on : Arrival → Env E → World E.Db → C.Heap → List Event
  unfolding api_send_handler api_upload_handler api_openapi_handler
  handle_on (to_send rq) env w h = (api_send_handler E J env rq w).log
  handle_on (to_upload f) env w h = (api_upload_handler E J env f w).log
  handle_on (to_openapi rq) env w h = (api_openapi_handler C E J rq w h).0.log

  -- What the handler of a request does, the newest event first.
  abbrev pub handled : Job → List Event
  handled j = handle_on j.arrival j.env (record { db = j.db; log = []; calls = 0 }) j.documents

  lock-send_document :
      (is_get : Bool) (text : Option Bytes) (w : World E.Db)
      → lock (send_document C E J is_get text w).log ≡ lock w.log
  unfolding send_document hold_json read_json free_json lock
  lock-send_document is_get text w = ground arith

  lock-api_openapi_handler :
      (rq : Query) (env : Env E) (w : World E.Db) (h : C.Heap)
      → lock (api_openapi_handler C E J rq w h).0.log ≡ lock w.log
  unfolding api_openapi_handler
  lock-api_openapi_handler rq env w h =
      let text = printed C E J rq.host h in
      elim (Bool-cases (is_read rq.request_method)) [
        | inl read ↦
            rw (read) (lock-send_document (bytes_eq rq.request_method (codes "GET")) text w)
        | inr other ↦ rw (other) (lock-http_send_error E J env 405 "GET required" w)
      ]

  lock-handle_on :
      (a : Arrival) (env : Env E) (w : World E.Db) (h : C.Heap)
      → lock w.log ≡ unlocked
      → lock (handle_on a env w h) ≡ unlocked
  unfolding handle_on
  lock-handle_on (to_send rq) env w h free = api_send_handler-unlocked E J env rq w free
  lock-handle_on (to_upload f) env w h free = api_upload_handler-unlocked E J env f w free
  lock-handle_on (to_openapi rq) env w h free = lock-api_openapi_handler rq env w h ∙ free

  jobs-IsOrderly : (jobs : List Job) → All IsOrderly (map (λ j. script (handled j)) jobs)
  unfolding lock
  jobs-IsOrderly [] = tt
  jobs-IsOrderly (j ∷ jobs) =
      let fresh : World E.Db = record { db = j.db; log = []; calls = 0 } in
      (
        ending-reversed (handled j) ∙ lock-handle_on j.arrival j.env fresh j.documents refl,
        jobs-IsOrderly jobs,
      )

  -- Any number of requests, whose handlers run at the same time and wait for a mutex while another one
  -- holds it, never reach a deadlock: in every state that some order of their events leads to, all
  -- are done, or one has an event before it that does not have to wait.
  pub jobs_progress :
      (jobs : List Job) (threads : List Thread)
      → Turns (map (λ j. script (handled j)) jobs) threads
      → (All IsDone threads) ⊎ Some (CanGo threads) threads
  jobs_progress jobs threads turns =
      orderly_progress threads (Turns-IsOrderly turns (jobs-IsOrderly jobs))
