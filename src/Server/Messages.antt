-- ===== src/Server/Messages.antt =====
-- Server.c: what `main` and the functions that it calls there print.
use sending_system.Base.{zero, suc, List, [], ◌∷◌, ◌++◌, Bytes, codes, decimal, ℤ, pos, negsuc}
use sending_system.Console.{Output, print_info, print_success, print_failure, print_lines}
use sending_system.Server.Worker.{Host}

-- FAILED_SIGNAL_HANDLERS_MESSAGE
abbrev failed_signal_handlers_message : Bytes
failed_signal_handlers_message = codes "Failed to set up signal handlers\n"

-- When a signal handler cannot be installed.
unfoldable pub install_signals_failed : Host → List Output
unfolding print_failure codes
install_signals_failed host =
    print_failure (host.last_error (codes "install_signals")) failed_signal_handlers_message
      host.server_file (codes "100") (codes "install_signals")

-- For the number of processors; `sysconf` fails with -1.
unfoldable pub get_cpu_count_output : Host → ℤ → List Output
unfolding print_failure codes decimal
get_cpu_count_output host (negsuc zero) =
    let last_error = host.last_error (codes "get_cpu_count") in
    print_failure last_error
      (codes "Failed to get CPU count: "
        ++ (decimal (last_error 0).0 ++ (codes ", " ++ ((last_error 0).1 ++ codes "\n"))))
      host.server_file (codes "124") (codes "get_cpu_count")
get_cpu_count_output host (negsuc (suc n)) = []
get_cpu_count_output host (pos n) = []

unfoldable pub database_failed : Host → List Output
unfolding print_failure codes
database_failed host =
    print_failure (host.last_error (codes "main")) (codes "Failed to open database\n")
      host.server_file (codes "208") (codes "main")

unfoldable pub mg_start_failed : Host → List Output
unfolding print_failure codes
mg_start_failed host =
    print_failure (host.last_error (codes "main")) (codes "mg_start failed\n") host.server_file
      (codes "242") (codes "main")

-- With CONNECTION_PORT, SSL_ENCRYPT and PUBLIC_KEY_FILE.
unfoldable pub server_started : List Output
unfolding print_success print_lines codes
server_started =
    print_success (codes "Server started\n")
    ++ print_lines (
        codes "  POST http://0.0.0.0:5000/api/send\n"
        ∷ codes "  POST http://0.0.0.0:5000/api/openapi.json\n"
        ∷ codes "  POST http://0.0.0.0:5000/api/upload\n"
        ∷ codes "  HTTPS on port 5000 (cert: server.pem)\n"
        ∷ [])

unfoldable pub server_stopping : List Output
unfolding print_info codes
server_stopping = print_info (codes "Stopping...\n")
