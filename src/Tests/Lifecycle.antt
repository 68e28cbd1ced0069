-- ===== src/Tests/Lifecycle.antt =====
-- A run of the server: it starts, answers a request, gets a signal and ends.
use sending_system.Base.{
  ℕ, ◌≤◌, ◌++◌, ◌≡◌, ◌≢◌, refl, true, false, ◌&&◌, not, none, some, [], ◌∷◌, codes, c_string,
  length, ◌==◌, if◌then◌else◌, pos, arith,
}
use sending_system.Database.Open.{database_open}
use sending_system.Sqlite.Memory.{empty}
use sending_system.Server.{
  install_signals, options, get_cpu_count, serving, installing, exited, Arrival, to_openapi, Server,
  advance, on_signal, dispatch, Runs, begin, main_step, beside, requested, signalled, initial,
  open_database, start_context, IsProper,
}
use sending_system.Server.Worker.{Host, log_addresses_worker}
use sending_system.Server.Invariant.{IsConsistent}
use sending_system.Server.Invariant.Reached.{reached-IsConsistent}
use sending_system.Server.Transcript.{final_code}
use sending_system.Server.Shutdown.{remaining, started, HasEnded, signalled-HasEnded}
use sending_system.System.{World, buffer}
use sending_system.System.Held.{held, same, present}
use sending_system.PublicIp.{Curl, Upnp, get_public_ip_http, get_public_ip_upnp}
use sending_system.PublicIp.Trim.{rtrim}
use sending_system.PublicIp.Http.{joined, get_public_ip_http-rtrim}
use sending_system.PublicIp.Released.{get_public_ip-held}
use sending_system.Console.{on_stdout, print_lines}
use sending_system.Tests.Samples.{roles, healthy, flat_json, blank}

-- A service that answers in two pieces, and no router.
abbrev pub answering : Curl
answering = record {
  curl_easy_init = λ n. true;
  pieces = λ n. codes "1.2." ∷ codes "3.4 \n" ∷ [];
  transferred = λ n. true;
}

abbrev pub silent : Upnp
silent = record {
  upnp_discover = λ n. false;
  get_valid_igd = λ n. pos 0;
  external_address = λ n. none;
}

abbrev pub host : Host
host = record {
  sigaction_int = true;
  sigaction_term = true;
  pthread_create = true;
  sysconf = pos 8;
  mg_start = λ options. true;
  interfaces = none;
  ntop4 = λ ip. none;
  ntop6 = λ ip. none;
  list_malloc = λ n. true;
  text_malloc = λ n. true;
  curl = answering;
  upnp = silent;
  getcwd = some (codes "/srv");
  last_error = λ function n. (0, codes "Success");
  server_file = codes "Server.c";
  file_service_file = codes "FileService.c";
}

abbrev State : Type 0
State = Server roles blank

abbrev Run : State → ℕ → State → Type 0
Run s n t = Runs roles blank (flat_json none) (healthy roles) host s n t

abbrev step : State → State
step s = advance roles blank (flat_json none) (healthy roles) host s.phase s

abbrev begun : State
begun = initial roles blank empty tt

abbrev up : State
up = step (step (step (step begun)))

-- A HEAD request for the document.
abbrev head_request : Arrival
head_request = to_openapi (record { request_method = codes "HEAD"; host = none })

abbrev served : State
served = dispatch roles blank (flat_json none) (healthy roles) host head_request up

abbrev stopped : State
stopped = on_signal roles blank (flat_json none) (healthy roles) host served

abbrev down : State
down = step (step (step (step stopped)))

Run-up : Run begun 4 up
Run-up = main_step (main_step (main_step (main_step begin)))

up_serves : up.context ≡ true
unfolding initial advance open_database start_context database_open
up_serves = refl

Run-served : Run begun 4 served
unfolding IsProper
Run-served = beside Run-up (requested head_request tt up_serves)

not_installing : serving ≢ installing
not_installing e = ground arith

Run-stopped : Run begun 4 stopped
unfolding initial advance open_database start_context database_open dispatch
Run-stopped = beside Run-served (signalled not_installing)

Run-down : Run stopped 4 down
Run-down = main_step (main_step (main_step (main_step begin)))

reached-IsConsistent_example : IsConsistent roles blank served.phase served
reached-IsConsistent_example =
    reached-IsConsistent roles blank (flat_json none) (healthy roles) host empty tt 4 served
      Run-served

-- The server of this host ends well.
down_code : final_code roles (healthy roles) host empty ≡ 0
unfolding final_code install_signals options get_cpu_count database_open
down_code = refl

few_left : remaining stopped.phase ≤ 4
unfolding initial advance open_database start_context database_open dispatch on_signal
few_left = omega arith

signalled-HasEnded_example :
    HasEnded roles blank down × ((started stopped.phase && not (started down.phase)) ≡ false)
unfolding on_signal
signalled-HasEnded_example =
    signalled-HasEnded roles blank (flat_json none) (healthy roles) host empty tt 4 stopped
      Run-stopped refl 4 down Run-down few_left

well_ended : down.phase ≡ exited 0
unfolding initial advance open_database start_context database_open dispatch on_signal
well_ended = refl

worker_lines :
    (log_addresses_worker host (record { db = tt; log = []; calls = 0 })).0
    ≡ codes "Local IP addresses: none found\n" ∷ codes "Public IP (HTTP): 1.2.3.4\n" ∷ []
unfolding log_addresses_worker codes c_string
worker_lines = refl

abbrev alone : World Unit
alone = record { db = tt; log = []; calls = 0 }

get_public_ip-held_example :
    (held buffer (get_public_ip_http host.text_malloc answering alone).1.log ≡ (
      if present (get_public_ip_http host.text_malloc answering alone).0 && same buffer buffer
      then some true
      else held buffer alone.log))
    × (held buffer (get_public_ip_upnp host.text_malloc silent alone).1.log ≡ (
        if present (get_public_ip_upnp host.text_malloc silent alone).0 && same buffer buffer
        then some true
        else held buffer alone.log))
unfolding held
get_public_ip-held_example =
    get_public_ip-held host.text_malloc answering silent alone refl refl refl refl buffer

get_public_ip_http-rtrim_example :
    let text = rtrim (joined (codes "1.2." ∷ codes "3.4 \n" ∷ [])) in
    (get_public_ip_http host.text_malloc answering alone).0
    ≡ (if length text == 0 then none else some text)
unfolding codes
get_public_ip_http-rtrim_example =
    get_public_ip_http-rtrim host.text_malloc (λ n. refl) answering
      (codes "1.2." ∷ codes "3.4 \n" ∷ []) alone
      (
        (λ e. omega arith, (λ e. omega arith, (λ e. omega arith, (λ e. omega arith, tt)))),
        (
          (
            λ e. omega arith,
            (λ e. omega arith, (λ e. omega arith, (λ e. omega arith, (λ e. omega arith, tt)))),
          ),
          tt,
        ),
      )
      (λ n. refl) (λ n. refl) (λ n. refl)

info_text :
    on_stdout (print_lines (codes "ok" ∷ [])) ≡ 27 ∷ codes "[33m[INFO] ok" ++ (27 ∷ codes "[0m")
unfolding on_stdout print_lines codes
info_text = refl
