-- ===== src/Server/Transcript/Reached.antt =====
-- Requests, signals and the thread keep the account of the output, and so every run does.
use sending_system.Base.{List}
use sending_system.Sqlite.{Sqlite}
use sending_system.Server.{Server}
