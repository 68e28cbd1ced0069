-- ===== src/Server/Invariant.antt =====
-- What holds in every state that the program reaches, phase by phase.
pub mod Main
pub mod Thread
pub mod Reached
use sending_system.Base.{
  ◌≡◌, ◌==◌, refl, Bool, true, false, ◌&&◌, some, length, map, [], if◌then◌else◌,
}
use sending_system.Sqlite.{Sqlite}
use sending_system.System.{Resource, handle}
use sending_system.System.Held.{same, held, responses}
use sending_system.Handlers.OpenApi.Document.{CjsonHeap, k_endpoints}
use sending_system.Server.{
  Phase, installing, initialising, starting, serving, stopping, closing, exiting, exited, Server,
  initial,
}

-- CivetWeb is initialised, it runs, and the database is open.
abbrev pub library_in : Phase → Bool
library_in installing = false
library_in initialising = false
library_in (exited code) = false
library_in _ = true

abbrev pub context_in : Phase → Bool
context_in serving = true
context_in stopping = true
context_in _ = false

abbrev pub handle_in : Phase → Bool
handle_in starting = true
handle_in serving = true
handle_in stopping = true
handle_in (closing code) = true
handle_in _ = false

-- `main` is past its loop, and will return EXIT_SUCCESS.
abbrev pub ends_well : Phase → Bool
ends_well stopping = true
ends_well (closing code) = code == 0
ends_well (exiting code) = code == 0
ends_well (exited code) = code == 0
ends_well _ = false

module _ (E : Sqlite) (C : CjsonHeap) where
  -- In the phase `p`: CivetWeb, the database handle of `main` and the resources of the requests are
  -- as the phase says, there is one response for each request, and `main` ends well only after a
  -- signal.
  pub record IsConsistent (p : Phase) (s : Server E C) : Type 0 where
    pub library_ok : s.library ≡ library_in p
    pub context_ok : s.context ≡ context_in p
    pub handlers_ok :
        s.handlers ≡ (if context_in p then map (λ e. e.endpoint_path) k_endpoints else [])
    pub own_held : (r : Resource) → held r s.own.log ≡ some (handle_in p && same r handle)
    pub requests_held : (r : Resource) → held r s.requests.log ≡ some false
    pub thread_held : (r : Resource) → held r s.thread.log ≡ some false
    pub answered : length (responses s.requests.log) ≡ s.served
    pub ended : (ends_well p && s.keep_running) ≡ false

  pub initial-IsConsistent : (db : E.Db) (h : C.Heap) → IsConsistent installing (initial E C db h)
  unfolding initial held responses
  initial-IsConsistent db h = record {
    library_ok = refl;
    context_ok = refl;
    handlers_ok = refl;
    own_held = λ r. refl;
    requests_held = λ r. refl;
    thread_held = λ r. refl;
    answered = refl;
    ended = refl;
  }
