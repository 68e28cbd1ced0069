-- ===== src/Handlers/History.antt =====
-- The table of messages as a history: what the handlers record are its new rows. The functions that
-- save a connection or a message.
pub mod Quiet
pub mod Texts
pub mod Uploads
use mathlib.Core.List.{reverse, append_assoc, map-append, reverse-append, append-nil}
use sending_system.Base.{
  ℕ, ◌≡◌, ◌∙◌, ◌⊎◌, refl, ap, sym, Bool, true, false, Option, none, some, List, [], ◌∷◌, ◌++◌, map,
  arith, Bytes, codes, ℤ, if◌then◌else◌, Bool-cases, Option-cases, inl, inr,
}
use sending_system.Sqlite.{Sqlite, Row, run_insert}
use sending_system.Sqlite.Table.{Rows, IsTable}
use sending_system.Sqlite.Runs.{run_insert-some, run_insert-none}
use sending_system.System.{Env, World, handle, acquire, release, emit, ask}
use sending_system.System.Held.{records}
use sending_system.FileService.Files.{read_file_full}
use sending_system.Database.Models.{Message, client, role_id}
use sending_system.Database.Open.{
  create_database_file, exec_script, apply_schema, database_open, database_close,
}
use sending_system.Database.Open.Closed.{database_open-log}
use sending_system.Repository.Connections.{
  connection_sql, bind_peer, connection_insert, create_connection, connection_get_or_create,
}
use sending_system.Repository.Messages.{message_sql, message_insert}
use sending_system.Repository.Messages.Crud.{columns_of}
use sending_system.Handlers.Saving.{
  connection_port, ssl_encrypt, save_connection, note_insert, save_message,
}

-- A message under its id, as the row of the table.
abbrev pub row_of : ℤ × Message → ℤ × Row
row_of (id, m) = (id, columns_of m)

abbrev pub message_of : ℤ × Message → Message
message_of (id, m) = m

module _ (E : Sqlite) (env : Env E) (T : IsTable E message_sql) where
  -- What the server relies on of SQLite: an insert into the table of peers, the two pragmas and the
  -- script in the file of the schema, which only creates what is not there, leave the rows of the
  -- messages alone.
  pub record IsApart : Type 0 where
    pub peers_apart :
        (db : E.Db) (vs : Row) → T.view (E.exec db connection_sql.insert vs).1 ≡ T.view db
    pub foreign_keys_apart :
        (n : ℕ) (db : E.Db)
        → T.view (env.sqlite3_exec n db (codes "PRAGMA foreign_keys = ON")).1 ≡ T.view db
    pub journal_apart :
        (n : ℕ) (db : E.Db)
        → T.view (env.sqlite3_exec n db (codes "PRAGMA journal_mode = WAL")).1 ≡ T.view db
    pub schema_apart :
        (w : World E.Db) (n : ℕ) (db : E.Db) (sql : Bytes)
        → (read_file_full E env create_database_file w).0 ≡ some sql
        → T.view (env.sqlite3_exec n db sql).1 ≡ T.view db

  -- The rows of the table are those of `base`, and behind them one for every message recorded, with
  -- its columns and in the order of the log.
  pub record IsHistory (base : Rows) (w : World E.Db) : Type 0 where
    pub entries : List (ℤ × Message)
    pub rows_are : T.view w.db ≡ base ++ map row_of entries
    pub recorded_are : records w.log ≡ reverse (map message_of entries)

  -- Neither the table nor the list of recorded messages has changed.
  abbrev pub Kept : World E.Db → World E.Db → Type 0
  Kept w w' = (T.view w'.db ≡ T.view w.db) × (records w'.log ≡ records w.log)

  pub Kept-IsHistory :
      (base : Rows) (w w' : World E.Db) → Kept w w' → IsHistory base w → IsHistory base w'
  Kept-IsHistory base w w' (view, log) h = record {
    entries = h.entries;
    rows_are = view ∙ h.rows_are;
    recorded_are = log ∙ h.recorded_are;
  }

  db-read_file_full : (name : Bytes) (w : World E.Db) → (read_file_full E env name w).1.db ≡ w.db
  unfolding read_file_full
  db-read_file_full name w = ground arith

  module _ (apart : IsApart) where
    -- From the text of the schema on.
    view-schema :
        (sql : Option Bytes) (w : World E.Db)
        → ((n : ℕ) (db : E.Db) (text : Bytes)
            → sql ≡ some text
            → T.view (env.sqlite3_exec n db text).1 ≡ T.view db)
        → T.view
            (elim sql as (λ x. Bool × World E.Db) [
              | none ↦ (false, emit (release handle) w)
              | some text ↦ apply_schema E env text w
            ]).1.db
          ≡ T.view w.db
    unfolding apply_schema exec_script
    view-schema none w keep = refl
    view-schema (some text) w keep = ground (arith, keep w.calls w.db text refl)

    pub view-database_open : (w : World E.Db) → T.view (database_open E env w).1.db ≡ T.view w.db
    unfolding database_open
    view-database_open w = elim (Bool-cases (env.sqlite3_open w.calls)) [
      | inr failed ↦ rw (failed) refl
      | inl ok ↦
          let w2 = emit (acquire handle) (ask env.sqlite3_open w).1 in
          let w3 = (exec_script E env (codes "PRAGMA foreign_keys = ON") w2).1 in
          let w4 = (exec_script E env (codes "PRAGMA journal_mode = WAL") w3).1 in
          let (sql, w5) = read_file_full E env create_database_file w4 in
          rw (ok) (
            view-schema sql w5 (λ n db text e. apart.schema_apart w4 n db text e)
            ∙ ap T.view (db-read_file_full create_database_file w4)
            ∙ apart.journal_apart w3.calls w3.db
            ∙ apart.foreign_keys_apart w2.calls w2.db)
    ]

    pub Kept-database_open : (w : World E.Db) → Kept w (database_open E env w).1
    Kept-database_open w = (view-database_open w, (database_open-log E env w).0)

    view-get_or_create :
        (db : E.Db) (ip : Option Bytes) (port ssl role : ℤ)
        → T.view (connection_get_or_create E env.malloc db ip port ssl role).1 ≡ T.view db
    unfolding connection_get_or_create create_connection connection_insert run_insert bind_peer
    view-get_or_create db ip port ssl role =
        ground (arith, apart.peers_apart db (bind_peer ip port ssl role))

    pub save_connection-Kept :
        (remote_addr : Bytes) (w : World E.Db) → Kept w (save_connection E env remote_addr w).1
    unfolding save_connection database_close records
    save_connection-Kept remote_addr w =
        let w1 = (database_open E env w).1 in
        ground (
          arith,
          Kept-database_open w,
          view-get_or_create w1.db (some remote_addr) connection_port ssl_encrypt (role_id client),
        )

    -- A successful insert puts its row behind the others, and its message into the log.
    note_insert-IsHistory :
        (base : Rows) (m : Message) (inserted : Option ℤ) (db : E.Db) (w : World E.Db)
        → run_insert E w.db message_sql.insert (columns_of m) ≡ (inserted, db)
        → IsHistory base w
        → IsHistory base (note_insert E env m inserted (record w { db = db })).1
    unfolding note_insert records
    note_insert-IsHistory base m none db w e h = record {
      entries = h.entries;
      rows_are = run_insert-none E message_sql T w.db (columns_of m) e ∙ h.rows_are;
      recorded_are = h.recorded_are;
    }
    note_insert-IsHistory base m (some id) db w e h = record {
      entries = h.entries ++ ((id, m) ∷ []);
      rows_are =
          (run_insert-some E message_sql T w.db (columns_of m) e).0
          ∙ ap (λ l. l ++ ((id, columns_of m) ∷ [])) h.rows_are
          ∙ append_assoc base (map row_of h.entries) ((id, columns_of m) ∷ [])
          ∙ ap (λ l. base ++ l) (sym (map-append row_of h.entries ((id, m) ∷ [])));
      recorded_are =
          ap (λ l. m ∷ l) h.recorded_are
          ∙ sym (reverse-append (map message_of h.entries) (m ∷ []))
          ∙ ap reverse (sym (map-append message_of h.entries ((id, m) ∷ [])));
    }

    pub save_message-IsHistory :
        (base : Rows) (m : Message) (w : World E.Db)
        → IsHistory base w
        → IsHistory base (save_message E env m w).1
    unfolding save_message database_close message_insert records
    save_message-IsHistory base m w h =
        let (open_ok, w1) = database_open E env w in
        let h1 = Kept-IsHistory base w w1 (Kept-database_open w) h in
        let (inserted, db') = run_insert E w1.db message_sql.insert (columns_of m) in
        let noted = note_insert E env m inserted (record w1 { db = db' }) in
        let h2 = note_insert-IsHistory base m inserted db' w1 refl h1 in
        elim (Bool-cases open_ok) [
          | inr failed ↦ rw (failed) h1
          | inl ok ↦ rw (ok) (Kept-IsHistory base noted.1 _ (refl, refl) h2)
        ]
