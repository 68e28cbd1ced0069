-- ===== src/Database/Open.antt =====
-- database/Database.c
pub mod Closed
use sending_system.Base.{
  ℕ, Bool, true, false, Option, none, some, ◌++◌, Bytes, codes, if◌then◌else◌,
}
use sending_system.Sqlite.{Sqlite}
use sending_system.System.{Env, World, emit, ask, schema, handle, acquire, release, access, logged}
use sending_system.Console.{print_success}
use sending_system.FileService.Files.{read_file_full}

-- CREATE_DATABASE_FILE of database_config.h
abbrev pub create_database_file : Bytes
create_database_file = codes "CreateDatabase.sql"

-- DATABASE_FILENAME
abbrev pub database_filename : Bytes
database_filename = codes "SendingSystem.db"

module _ (E : Sqlite) (env : Env E) where
  -- `sqlite3_exec` of one text on the open database.
  unfoldable pub exec_script : Bytes → World E.Db → Bool × World E.Db
  exec_script sql w =
      let (result, w1) = ask (λ n. env.sqlite3_exec n w.db sql) w in
      (result.0, record w1 { db = result.1 })

  -- The schema text is run and freed; a failure closes the handle.
  unfoldable pub apply_schema : Bytes → World E.Db → Bool × World E.Db
  unfolding exec_script
  apply_schema sql w =
      let (done, w1) = exec_script sql (emit (access schema) w) in
      let w2 = emit (release schema) w1 in
      if done
      then (
        true,
        emit
            (logged (print_success (codes "Database ready: " ++ (database_filename ++ codes "\n"))))
            w2,
      )
      else (false, emit (release handle) w2)

  -- `database_open`: `true` is the result 0, with the handle left open for the caller. A handle that
  -- `sqlite3_open` made and could not open is closed at once.
  unfoldable pub database_open : World E.Db → Bool × World E.Db
  unfolding exec_script read_file_full apply_schema
  database_open w =
      let (open_ok, w1) = ask env.sqlite3_open w in
      let w2 = emit (acquire handle) w1 in
      let w3 = (exec_script (codes "PRAGMA foreign_keys = ON") w2).1 in
      let w4 = (exec_script (codes "PRAGMA journal_mode = WAL") w3).1 in
      let (sql, w5) = read_file_full E env create_database_file w4 in
      if open_ok
      then elim sql [ none ↦ (false, emit (release handle) w5) | some text ↦ apply_schema text w5 ]
      else (false, emit (release handle) w2)

  -- `database_close` of an open handle.
  unfoldable pub database_close : World E.Db → World E.Db
  database_close w = emit (release handle) w
