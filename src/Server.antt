-- ===== src/Server.antt =====
-- Server.c: `main` as a machine that moves from phase to phase, while signals arrive, CivetWeb calls
-- the handlers and the thread that logs the addresses runs. CivetWeb calls a handler only between
-- `mg_start` and the end of `mg_stop`; requests are taken one at a time.
pub mod Worker
pub mod Messages
pub mod Phases
pub mod Invariant
pub mod Shutdown
pub mod Concurrent
pub mod History
pub mod Transcript
use sending_system.Base.{
  ℕ, suc, ◌+◌, ◌≡◌, ◌≢◌, Bool, true, false, ◌&&◌, List, [], ◌∷◌, ◌++◌, Bytes, codes, decimal,
  snprintf, ℤ, pos, negsuc, if◌then◌else◌,
}
use sending_system.Sqlite.{Sqlite}
use sending_system.System.{Env, World}
use sending_system.Database.Open.{database_open, database_close}
use sending_system.Console.{Output, print_lines}
use sending_system.Server.Worker.{Host, log_addresses_worker}
use sending_system.Server.Messages.{
  install_signals_failed, get_cpu_count_output, database_failed, mg_start_failed, server_started,
  server_stopping,
}
use sending_system.FileService.Files.{print_pwd}
use sending_system.Handlers.Json.{Cjson}
use sending_system.Handlers.Send.{Request, api_send_handler}
use sending_system.Handlers.Upload.{Form, api_upload_handler}
use sending_system.Handlers.Upload.Resources.{stores_each}
use sending_system.Handlers.OpenApi.{Query, api_openapi_handler}
use sending_system.Handlers.OpenApi.Document.{CjsonHeap}

-- Where `main` stands: at the call that the phase is named after. `closing`, `exiting` and `exited`
-- have the exit code.
pub data Phase : Type 0 where
  installing initialising opening starting serving stopping : Phase
  closing exiting exited : ℕ → Phase

-- EXIT_SUCCESS and EXIT_FAILURE
abbrev pub exit_success : ℕ
exit_success = 0

abbrev pub exit_failure : ℕ
exit_failure = 1

-- The paths with a handler.
abbrev pub routes : List Bytes
routes = codes "/api/send" ∷ codes "/api/upload" ∷ codes "/api/openapi.json" ∷ []

-- "%ld"
unfoldable pub long_decimal : ℤ → Bytes
unfolding decimal
long_decimal (pos n) = decimal n
long_decimal (negsuc n) = b'-' ∷ decimal (n + 1)

-- The names and values of `options`, with SSL_ENCRYPT, for the CPU count.
unfoldable pub options : ℤ → List (Bytes × Bytes)
unfolding long_decimal
options nprocs =
    (codes "listening_ports", snprintf 64 (decimal 5000 ++ codes "s"))
    ∷ (codes "num_threads", snprintf 23 (long_decimal nprocs))
    ∷ (codes "request_timeout_ms", codes "30000")
    ∷ (codes "enable_keep_alive", codes "yes")
    ∷ (codes "document_root", codes "frontend")
    ∷ (codes "ssl_certificate", codes "server.pem")
    ∷ []

-- Whether `main` goes on.
unfoldable pub install_signals : Host → Bool
install_signals host = host.sigaction_int && host.sigaction_term

-- The number of processors, with -1 passed on.
unfoldable pub get_cpu_count : Host → ℤ
get_cpu_count host = host.sysconf

-- A call of one of the three handlers.
pub data Arrival : Type 0 where
  to_send : Request → Arrival
  to_upload : Form → Arrival
  to_openapi : Query → Arrival

-- Of an upload, every file part is stored before the next one is found. CivetWeb does not promise it:
-- after a failed store it does not call `on_field_store`.
unfoldable pub IsProper : Arrival → Type 0
IsProper (to_send rq) = Unit
IsProper (to_upload f) = stores_each false f.calls ≡ true
IsProper (to_openapi rq) = Unit

module _ (E : Sqlite) (C : CjsonHeap) where
  -- `library` and `context` say whether CivetWeb is initialised and running, `handlers` are the paths
  -- of the context; `own` is what `main`
  -- does itself, `requests` what the handlers do, and `documents` the heap of cJSON; `worker` says
  -- whether the thread is yet to report, and
  -- `thread` what it does. `pending` is what it has yet to
  -- print. `printed` is what Server.c and `print_pwd` print; what `database_open`
  -- and the handlers print is in the logs.
  pub record Server : Type 0 where
    pub phase : Phase
    pub keep_running : Bool
    pub library : Bool
    pub context : Bool
    pub handlers : List Bytes
    pub own : World E.Db
    pub requests : World E.Db
    pub documents : C.Heap
    pub served : ℕ
    pub worker : Bool
    pub thread : World Unit
    pub printed : List Output
    pub pending : List Output

  module _ (J : Cjson) (env : Env E) (host : Host) where
    -- The database is opened; the handlers start from the state that this leaves.
    unfoldable pub open_database : Server → Server
    unfolding database_open
    open_database s =
        let (open_ok, w) = database_open E env s.own in
        record s {
          phase = if open_ok then starting else exiting exit_failure;
          own = w;
          printed = s.printed ++ (if open_ok then [] else database_failed host);
          requests = record s.requests { db = w.db; calls = w.calls };
        }

    unfoldable pub start_context : Server → Server
    unfolding options get_cpu_count
    start_context s =
        let nprocs = get_cpu_count host in
        let counted = s.printed ++ get_cpu_count_output host nprocs in
        if host.mg_start (options nprocs)
        then record s {
          phase = serving;
          context = true;
          handlers = routes;
          printed = counted ++ server_started;
        }
        else record s { phase = closing exit_failure; printed = counted ++ mg_start_failed host }

    -- The next step of `main`; a turn of the loop leaves the state as it is.
    unfoldable pub advance : Phase → Server → Server
    unfolding install_signals open_database start_context database_close
    advance installing s =
        if install_signals host then record s { phase = initialising } else record s {
          phase = exited exit_failure;
          printed = s.printed ++ install_signals_failed host;
        }
    advance initialising s = record s {
      phase = opening;
      library = true;
      worker = host.pthread_create;
      printed =
          s.printed
          ++ print_pwd host.getcwd (host.last_error (codes "print_pwd")) host.file_service_file;
    }
    advance opening s = open_database s
    advance starting s = start_context s
    advance serving s = if s.keep_running then s else record s { phase = stopping }
    advance stopping s = record s {
      phase = closing exit_success;
      context = false;
      handlers = [];
      printed = s.printed ++ server_stopping;
    }
    advance (closing code) s = record s { phase = exiting code; own = database_close E env s.own }
    advance (exiting code) s = record s { phase = exited code; library = false }
    advance (exited code) s = s

    unfoldable pub on_signal : Server → Server
    on_signal s = record s { keep_running = false }

    -- A handler runs on the state of the requests.
    unfoldable pub dispatch : Arrival → Server → Server
    unfolding api_send_handler api_upload_handler api_openapi_handler
    dispatch (to_send rq) s = record s {
      requests = api_send_handler E J env rq s.requests;
      served = suc s.served;
    }
    dispatch (to_upload f) s = record s {
      requests = api_upload_handler E J env f s.requests;
      served = suc s.served;
    }
    dispatch (to_openapi rq) s =
        let (w, h) = api_openapi_handler C E J rq s.requests s.documents in
        record s { requests = w; documents = h; served = suc s.served }

    -- The thread runs, and has then to print what it found. What it does shares nothing with `main` and
    -- the requests but the output.
    unfoldable pub report : Server → Server
    unfolding log_addresses_worker print_lines
    report s =
        let (lines, w) = log_addresses_worker host s.thread in
        record s { worker = false; thread = w; pending = print_lines lines }

    -- The thread makes its next call of printf.
    unfoldable pub print_next : Output → List Output → Server → Server
    print_next o rest s = record s { printed = s.printed ++ (o ∷ []); pending = rest }

    -- What happens besides the steps of `main`: a signal once its handler is installed, a call of a
    -- handler while CivetWeb runs, the run of the thread, and its calls of printf, one by one.
    pub data Beside (s : Server) : Server → Type 0 where
      signalled : s.phase ≢ installing → Beside s (on_signal s)
      requested : (a : Arrival) → IsProper a → s.context ≡ true → Beside s (dispatch a s)
      reported : s.worker ≡ true → Beside s (report s)
      printing :
          (o : Output) (rest : List Output) → s.pending ≡ o ∷ rest → Beside s (print_next o rest s)

    -- The runs of the program: `n` counts the steps of `main`.
    pub data Runs (s : Server) : ℕ → Server → Type 0 where
      begin : Runs s 0 s
      main_step : {n : ℕ} {t : Server} → Runs s n t → Runs s (suc n) (advance t.phase t)
      beside : {n : ℕ} {t u : Server} → Runs s n t → Beside t u → Runs s n u

  -- The program before its first step.
  unfoldable pub initial : E.Db → C.Heap → Server
  initial db heap = record {
    phase = installing;
    keep_running = true;
    library = false;
    context = false;
    handlers = [];
    own = record { db = db; log = []; calls = 0 };
    requests = record { db = db; log = []; calls = 0 };
    documents = heap;
    served = 0;
    worker = false;
    thread = record { db = tt; log = []; calls = 0 };
    printed = [];
    pending = [];
  }
