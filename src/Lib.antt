-- ===== src/Lib.antt =====
-- Sending System, the desktop server: a model of its C sources and the theorems about it.
--
-- The server receives texts (POST /api/send) and files (POST /api/upload) over HTTP, logs the texts
-- or saves them to a file, and keeps the history of connections and messages in an SQLite database.
-- It describes its API (GET /api/openapi.json), and logs its addresses when it starts.
-- Paths are below Server/DesktopServer/src.
--
-- Base: Boolean tests, lists, C integers (`int` keeps its wrap-around), C strings and buffers. The
--   digits of a number have one more than the number as fuel.
-- Sqlite: the calls of SQLite as a record of unknown functions. Rows has `db_dup_col` and the loops
--   of the `*_get_all` functions, with an allocator that may fail at any call. Table states what
--   the program relies on of SELECT, INSERT, UPDATE and DELETE by id; Memory is a table for which
--   these assumptions hold.
-- System: the log of what a request does (resources taken, used and given back, files, rows, texts
--   printed, responses) and the calls into the environment, whose outcomes are arbitrary functions of
--   the number of the call. Held says when a resource is held, and notices a second free, a use after
--   free and a double lock. Locks is the state of a run with respect to the two mutexes, and Threads
--   several runs whose events alternate, each waiting for a mutex that another one holds.
-- FileService: FileService/FileService.c, `sanitize_filename` loop by loop (the fuel of each loop is
--   the length of its string and one more), `file_exists`, `read_file_full`, `touch_file` on POSIX
--   and on Windows, and `print_pwd`.
-- Database: database/Database.c and database/model, opening and closing of the database, the
--   structs, and the functions that free them.
-- Repository: the seven files database/*_repository.c. The four of the reference tables differ in
--   their statements alone, and are instances of Reference.
-- Handlers: handlers/http_json.c, api_send.c, api_upload.c, api_openapi.c, save_connection.c and
--   save_message.c. A handler is composed of the parts between its early returns. Send/Verdict says
--   of a request what it is refused for, and Upload/Parts which file an upload is about, both without
--   the code; History is the list of the messages that were recorded, beside the rows of the table.
-- Addresses: util/get_server_ip_addresses.c. Subnet has the prefix of a mask and the keys of subnets,
--   Enumerate the walk over the interfaces on POSIX, and Windows the one over the adapters. The loop
--   over a mask of 32 bits has the fuel 33, the one over a byte the fuel 9.
-- PublicIp: util/get_public_ip_http.c and util/get_public_ip_upnp.c. The callback is called for one
--   piece of the body after the other until it does not take one whole, as libcurl documents.
-- Timestamps: util/now_timestamp.c, the text of a local time.
-- Console: PrintProcedures/PrintProcedures.c on POSIX, as calls of the C library on the two streams.
-- Server: Server.c, `main` as a machine whose state is the phase it is in, the flag `keep_running`,
--   what CivetWeb runs, the log of `main`, the one of the requests, and what is printed. A run is a
--   sequence of steps of `main` with signals, requests, the lookups of the address thread and its
--   calls of printf between them. There a request is one step; in Server/Concurrent the handlers of
--   several requests run at the same time. Server/Messages has what `main` prints, and Server/Transcript describes the output and the exit
--   code from the outcomes of the calls alone.
-- Tests: runs, and the theorems at concrete data.
--
-- A handler opens the database, which reads the schema by FileService, runs a repository function
-- on it, closes it, and answers by http_json. `main` opens the database once more for its
-- own use, and the handlers run between its start of CivetWeb and the stop.
--
-- Parameters, since their code is not in the repository: SQLite, cJSON, CivetWeb (a request, the
-- bytes that `mg_read` delivers, and the calls that `mg_handle_form_request` makes of the callbacks
-- of an upload, and whether it starts), the allocator, the file system, the working directory, the
-- clock, `errno` and its texts, the lists of network interfaces of `getifaddrs` and of
-- `GetAdaptersAddresses`, `inet_ntop`, libcurl and miniupnpc.
--
-- Not modelled: what the handlers, `database_open` and the functions on files print on errors, and
-- the line for a stored part of an upload; the branches for Windows, but for those of `touch_file` and
-- of the addresses; the release of the list of interfaces; and the Android client. Counters of rows
-- have no bound: an array whose length overflows `int` does not fit memory. In a run of Server a step
-- of `main` or of a handler prints all at once, and the thread one call of printf after the other;
-- what the handlers and `database_open` print is in their logs, apart from that.
pub mod Base
pub mod Sqlite
pub mod System
pub mod FileService
pub mod Database
pub mod Repository
pub mod Handlers
pub mod Addresses
pub mod PublicIp
pub mod Timestamps
pub mod Console
pub mod Server
pub mod Tests
