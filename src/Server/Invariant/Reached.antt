-- ===== src/Server/Invariant/Reached.antt =====
-- Requests, signals and the thread keep the program consistent, and so every run does.
use sending_system.Base.{ℕ, suc, ◌≡◌, ◌∙◌, refl, ap, false, some, arith, length}
use sending_system.Sqlite.{Sqlite}
use sending_system.System.{Env, Resource, document, json}
use sending_system.System.Held.{held, responses}
use sending_system.Handlers.Json.{Cjson}
use sending_system.Handlers.Send.Resources.{api_send_handler-held}
use sending_system.Handlers.Send.Answers.{api_send_handler-IsAnswered}
use sending_system.Handlers.Upload.Resources.{api_upload_handler-held}
use sending_system.Handlers.Upload.Answers.{api_upload_handler-IsReceived}
use sending_system.Handlers.OpenApi.Document.{CjsonHeap}
use sending_system.Handlers.OpenApi.Answers.{api_openapi_handler-IsOnly}
use sending_system.Server.{
  Arrival, to_send, to_upload, to_openapi, IsProper, Server, on_signal, dispatch, report,
  print_next, Beside, signalled, requested, reported, printing, Runs, begin, main_step, beside,
  initial,
}
use sending_system.Server.Worker.{Host}
use sending_system.Server.Invariant.{IsConsistent, initial-IsConsistent}
use sending_system.Server.Invariant.Thread.{log_addresses_worker-held}
use sending_system.Server.Invariant.Main.{advance-IsConsistent}

module _ (E : Sqlite) (C : CjsonHeap) (J : Cjson) (env : Env E) (host : Host) where
  -- One more request is answered, and nothing is left held.
  dispatch-IsServed :
      (a : Arrival) (s : Server E C)
      → IsProper a
      → ((r : Resource) → held r s.requests.log ≡ some false)
      → length (responses s.requests.log) ≡ s.served
      → ((r : Resource) → held r (dispatch E C J env host a s).requests.log ≡ some false)
        × (length (responses (dispatch E C J env host a s).requests.log) ≡ suc s.served)
  unfolding dispatch IsProper
  dispatch-IsServed (to_send rq) s ok free n = (
    api_send_handler-held E J env rq s.requests free,
    ap length (api_send_handler-IsAnswered E J env rq s.requests free).answers ∙ ap suc n,
  )
  dispatch-IsServed (to_upload f) s ok free n = (
    api_upload_handler-held E J env f s.requests ok free,
    ap length (api_upload_handler-IsReceived E J env f s.requests ok free).answers ∙ ap suc n,
  )
  dispatch-IsServed (to_openapi rq) s ok free n =
      let only =
        api_openapi_handler-IsOnly C E J rq s.requests s.documents (free document) (free json) in
      (λ r. only.held_same r ∙ free r, ap length only.is_sent ∙ ap suc n)

  dispatch-IsConsistent :
      (a : Arrival) (s : Server E C)
      → IsProper a
      → IsConsistent E C s.phase s
      → let t = dispatch E C J env host a s in IsConsistent E C t.phase t
  unfolding dispatch
  dispatch-IsConsistent (to_send rq) s ok c =
      let (free, n) = dispatch-IsServed (to_send rq) s ok c.requests_held c.answered in
      record {
        library_ok = c.library_ok;
        context_ok = c.context_ok;
        handlers_ok = c.handlers_ok;
        own_held = c.own_held;
        requests_held = free;
        thread_held = c.thread_held;
        answered = n;
        ended = c.ended;
      }
  dispatch-IsConsistent (to_upload f) s ok c =
      let (free, n) = dispatch-IsServed (to_upload f) s ok c.requests_held c.answered in
      record {
        library_ok = c.library_ok;
        context_ok = c.context_ok;
        handlers_ok = c.handlers_ok;
        own_held = c.own_held;
        requests_held = free;
        thread_held = c.thread_held;
        answered = n;
        ended = c.ended;
      }
  dispatch-IsConsistent (to_openapi rq) s ok c =
      let (free, n) = dispatch-IsServed (to_openapi rq) s ok c.requests_held c.answered in
      record {
        library_ok = c.library_ok;
        context_ok = c.context_ok;
        handlers_ok = c.handlers_ok;
        own_held = c.own_held;
        requests_held = free;
        thread_held = c.thread_held;
        answered = n;
        ended = c.ended;
      }

  Beside-IsConsistent :
      {s t : Server E C}
      → Beside E C J env host s t
      → IsConsistent E C s.phase s
      → IsConsistent E C t.phase t
  unfolding on_signal report print_next
  Beside-IsConsistent {s} (signalled later) c = record {
    library_ok = c.library_ok;
    context_ok = c.context_ok;
    handlers_ok = c.handlers_ok;
    own_held = c.own_held;
    requests_held = c.requests_held;
    thread_held = c.thread_held;
    answered = c.answered;
    ended = ground arith;
  }
  Beside-IsConsistent (requested a ok running) c = dispatch-IsConsistent a _ ok c
  Beside-IsConsistent (reported pending) c = record {
    library_ok = c.library_ok;
    context_ok = c.context_ok;
    handlers_ok = c.handlers_ok;
    own_held = c.own_held;
    requests_held = c.requests_held;
    thread_held = log_addresses_worker-held host _ c.thread_held;
    answered = c.answered;
    ended = c.ended;
  }
  Beside-IsConsistent (printing o rest e) c = record {
    library_ok = c.library_ok;
    context_ok = c.context_ok;
    handlers_ok = c.handlers_ok;
    own_held = c.own_held;
    requests_held = c.requests_held;
    thread_held = c.thread_held;
    answered = c.answered;
    ended = c.ended;
  }

  pub Runs-IsConsistent :
      {s t : Server E C} {n : ℕ}
      → Runs E C J env host s n t
      → IsConsistent E C s.phase s
      → IsConsistent E C t.phase t
  Runs-IsConsistent begin c = c
  Runs-IsConsistent (main_step r) c =
      advance-IsConsistent E C J env host _ _ refl (Runs-IsConsistent r c)
  Runs-IsConsistent (beside r b) c = Beside-IsConsistent b (Runs-IsConsistent r c)

  -- Whatever signals and requests arrive in between, where CivetWeb stores every file part of an
  -- upload before it finds the next one, in every state that the program reaches the database handle
  -- of `main` and CivetWeb are open exactly in the phases between their start and their end, the
  -- database outlasting CivetWeb, and while CivetWeb runs the paths with a handler are those of the
  -- catalogue of the API; between requests no resource is held, and the address thread has given
  -- back the list of local addresses and all that its lookups of the public address took; each request got exactly one response; and `main` is on its way to EXIT_SUCCESS
  -- only after a signal.
  pub reached-IsConsistent :
      (db : E.Db) (h : C.Heap) (n : ℕ) (s : Server E C)
      → Runs E C J env host (initial E C db h) n s
      → IsConsistent E C s.phase s
  unfolding initial
  reached-IsConsistent db h n s r = Runs-IsConsistent r (initial-IsConsistent E C db h)
