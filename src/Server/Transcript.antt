-- ===== src/Server/Transcript.antt =====
-- Server.c: what the program prints over a run, and its exit code, by the outcomes of its calls.
pub mod Announced
pub mod Main
pub mod Reached
use sending_system.Base.{
  ℕ, ◌==◌, ◌≡◌, ◌⊎◌, Bool, true, false, ◌&&◌, List, [], ◌∷◌, ◌++◌, codes, if◌then◌else◌,
}
use sending_system.Sqlite.{Sqlite}
use sending_system.System.{Env, World}
use sending_system.Database.Open.{database_open}
use sending_system.Console.{Output, print_lines}
use sending_system.FileService.Files.{print_pwd}
use sending_system.Server.{
  Phase, installing, initialising, opening, starting, serving, stopping, closing, exiting, exited,
  exit_success, exit_failure, install_signals, get_cpu_count, options,
}
use sending_system.Server.Messages.{
  install_signals_failed, get_cpu_count_output, database_failed, mg_start_failed, server_started,
  server_stopping,
}
use sending_system.Server.Worker.{Host, log_addresses_worker}

-- What the program starts with.
abbrev pub fresh : {A : Type 0} → A → World A
fresh db = record { db = db; log = []; calls = 0 }

-- `main` has not created the thread.
abbrev pub before_thread : Phase → Bool
before_thread installing = true
before_thread initialising = true
before_thread _ = false

-- What the thread prints.
abbrev pub addresses : Host → List Output
addresses host = print_lines (log_addresses_worker host (fresh tt)).0

-- The calls of printf of `main` and of the thread, each in its order, make up the output.
pub data Interleaved : (main thread output : List Output) → Type 0 where
  silence : Interleaved [] [] []
  of_main :
      {main thread output : List Output} (o : Output)
      → Interleaved main thread output
      → Interleaved (o ∷ main) thread (o ∷ output)
  of_thread :
      {main thread output : List Output} (o : Output)
      → Interleaved main thread output
      → Interleaved main (o ∷ thread) (o ∷ output)

-- CivetWeb starts.
abbrev pub starts : Host → Bool
starts host = host.mg_start (options (get_cpu_count host))

module _ (E : Sqlite) (env : Env E) (host : Host) (db : E.Db) where
  -- The database can be opened.
  abbrev pub opens : Bool
  opens = (database_open E env (fresh db)).0

  -- The exit code: EXIT_SUCCESS just if the signal handlers could be installed, the database opened
  -- and CivetWeb started.
  unfoldable pub final_code : ℕ
  final_code = if install_signals host && (opens && starts host) then exit_success else exit_failure

  -- The phases that these outcomes allow.
  unfoldable pub is_allowed : Phase → Bool
  is_allowed installing = true
  is_allowed initialising = install_signals host
  is_allowed opening = install_signals host
  is_allowed starting = install_signals host && opens
  is_allowed serving = install_signals host && (opens && starts host)
  is_allowed stopping = install_signals host && (opens && starts host)
  is_allowed (closing code) = install_signals host && (opens && (code == final_code))
  is_allowed (exiting code) = install_signals host && (code == final_code)
  is_allowed (exited code) = code == final_code

  -- What `main` prints until it is done with CivetWeb, by the first call that fails.
  abbrev pub directory : List Output
  directory = print_pwd host.getcwd (host.last_error (codes "print_pwd")) host.file_service_file

  abbrev pub counted : List Output
  counted = directory ++ get_cpu_count_output host (get_cpu_count host)

  unfoldable pub whole : List Output
  whole =
      if install_signals host
      then if opens
        then if starts host
          then (counted ++ server_started) ++ server_stopping
          else counted ++ mg_start_failed host
        else directory ++ database_failed host
      else install_signals_failed host

  -- What `main` has printed when it stands at a phase.
  unfoldable pub transcript : Phase → List Output
  transcript installing = []
  transcript initialising = []
  transcript opening = directory
  transcript starting = directory
  transcript serving = counted ++ server_started
  transcript stopping = counted ++ server_started
  transcript (closing code) = whole
  transcript (exiting code) = whole
  transcript (exited code) = whole

  -- What was printed: what `main` has said, and between it, call by call, what the thread has said,
  -- which is nothing before the thread has run, and otherwise all that it has to say but what is
  -- pending.
  abbrev pub IsHeard : Phase → (pending printed : List Output) → Type 0
  IsHeard p pending printed =
      (said : List Output) × Interleaved (transcript p) said printed
      × (((said ≡ []) × (pending ≡ [])) ⊎ (said ++ pending ≡ addresses host))
