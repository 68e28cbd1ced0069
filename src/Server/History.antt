-- ===== src/Server/History.antt =====
-- Server.c: over a whole run, the table of messages is the history of what the handlers recorded.
use mathlib.Core.Path.{ap₂}
use mathlib.Core.List.{append-nil}
use sending_system.Base.{
  ℕ, ◌≡◌, ◌∙◌, refl, ap, sym, Bool, true, false, List, [], ◌∷◌, ◌++◌, map, arith, ℤ, Bool-cases,
  inl, inr,
}
use sending_system.Sqlite.{Sqlite}
use sending_system.Sqlite.Rows.{rows}
use sending_system.Sqlite.Table.{Rows, IsTable, full_row}
use sending_system.System.{Env, document, json}
use sending_system.System.Held.{records}
use sending_system.Database.Open.{database_open}
use sending_system.Database.Models.{Message}
use sending_system.Repository.Messages.{message_sql, message_get_all}
use sending_system.Repository.Messages.Crud.{
  stored, message_from, message_from-columns, message_get_all_lem,
}
use sending_system.Handlers.Json.{Cjson}
use sending_system.Handlers.History.{row_of, IsApart, IsHistory, Kept-IsHistory, view-database_open}
use sending_system.Handlers.History.Texts.{api_send_handler-IsHistory}
use sending_system.Handlers.History.Uploads.{api_upload_handler-IsHistory}
use sending_system.Handlers.OpenApi.Document.{CjsonHeap}
use sending_system.Handlers.OpenApi.Answers.{api_openapi_handler-IsOnly}
use sending_system.Server.{
  Phase, installing, initialising, opening, starting, serving, stopping, closing, exiting, exited,
  Arrival, to_send, to_upload, to_openapi, Server, install_signals, get_cpu_count, options,
  open_database, start_context, advance, on_signal, dispatch, report, print_next, Beside, signalled,
  requested, reported, printing, Runs, begin, main_step, beside, initial,
}
use sending_system.Server.Phases.{before_open, advance-serving}
use sending_system.Server.Worker.{Host}
use sending_system.Server.Invariant.{IsConsistent, context_in}
use sending_system.Server.Invariant.Reached.{reached-IsConsistent}

module _ (E : Sqlite) (C : CjsonHeap) (J : Cjson) (env : Env E) (host : Host)
    (T : IsTable E message_sql) (apart : IsApart E env T) (base : Rows) where
  -- The table is a history, and until `main` opens the database it is as it was.
  record IsRecording (p : Phase) (s : Server E C) : Type 0 where
    pub history : IsHistory E env T base s.requests
    pub unopened : before_open p ≡ true → T.view s.own.db ≡ T.view s.requests.db

  after_open :
      (p : Phase) (s : Server E C)
      → before_open p ≡ false
      → IsHistory E env T base s.requests
      → IsRecording p s
  after_open p s later h = record { history = h; unopened = λ early. ground arith }

  open_database-IsRecording :
      (s : Server E C)
      → IsRecording opening s
      → let t = open_database E C J env host s in IsRecording t.phase t
  unfolding open_database
  open_database-IsRecording s c =
      let w = (database_open E env s.own).1 in
      let same : T.view w.db ≡ T.view s.requests.db =
        view-database_open E env T apart s.own ∙ c.unopened refl in
      let h : IsHistory E env T base (record s.requests { db = w.db; calls = w.calls }) =
        Kept-IsHistory E env T base s.requests _ (same, refl) c.history in
      elim (Bool-cases (database_open E env s.own).0) [
        | inl ok ↦ rw (ok) (after_open _ _ refl h)
        | inr failed ↦ rw (failed) (after_open _ _ refl h)
      ]

  advance-IsRecording :
      (p : Phase) (s : Server E C)
      → s.phase ≡ p
      → IsRecording p s
      → let t = advance E C J env host p s in IsRecording t.phase t
  unfolding advance start_context
  advance-IsRecording installing s e c = elim (Bool-cases (install_signals host)) [
    | inl ok ↦ rw (ok) (record { history = c.history; unopened = λ early. c.unopened refl })
    | inr bad ↦ rw (bad) (after_open _ _ refl c.history)
  ]
  advance-IsRecording initialising s e c = record {
    history = c.history;
    unopened = λ early. c.unopened refl;
  }
  advance-IsRecording opening s e c = open_database-IsRecording s c
  advance-IsRecording starting s e c =
      elim (Bool-cases (host.mg_start (options (get_cpu_count host)))) [
        | inl ok ↦ rw (ok) (after_open _ _ refl c.history)
        | inr bad ↦ rw (bad) (after_open _ _ refl c.history)
      ]
  advance-IsRecording serving s e c =
      advance-serving E C J env host s (λ t. IsRecording t.phase t)
        (after_open _ _ (ap before_open e) c.history) (λ off. after_open _ _ refl c.history)
  advance-IsRecording stopping s e c = after_open _ _ refl c.history
  advance-IsRecording (closing code) s e c = after_open _ _ refl c.history
  advance-IsRecording (exiting code) s e c = after_open _ _ refl c.history
  advance-IsRecording (exited code) s e c = after_open _ _ (ap before_open e) c.history

  dispatch-IsHistory :
      (a : Arrival) (s : Server E C)
      → IsConsistent E C s.phase s
      → IsHistory E env T base s.requests
      → IsHistory E env T base (dispatch E C J env host a s).requests
  unfolding dispatch
  dispatch-IsHistory (to_send rq) s c h =
      api_send_handler-IsHistory E J env T apart base rq s.requests h
  dispatch-IsHistory (to_upload f) s c h =
      api_upload_handler-IsHistory E J env T apart base f s.requests h
  dispatch-IsHistory (to_openapi rq) s c h =
      let only =
        api_openapi_handler-IsOnly C E J rq s.requests s.documents (c.requests_held document)
          (c.requests_held json) in
      Kept-IsHistory E env T base s.requests _ (ap T.view only.db_same, only.recorded_same) h

  -- CivetWeb runs only after the database was opened.
  opened_in : (p : Phase) → context_in p ≡ true → before_open p ≡ false
  opened_in serving running = refl
  opened_in _ running = ground arith

  dispatch_phase : (a : Arrival) (s : Server E C) → (dispatch E C J env host a s).phase ≡ s.phase
  unfolding dispatch
  dispatch_phase (to_send rq) s = refl
  dispatch_phase (to_upload f) s = refl
  dispatch_phase (to_openapi rq) s = refl

  Beside-IsRecording :
      {s t : Server E C}
      → Beside E C J env host s t
      → IsConsistent E C s.phase s
      → IsRecording s.phase s
      → IsRecording t.phase t
  unfolding on_signal report print_next
  Beside-IsRecording (signalled later) c r = record { history = r.history; unopened = r.unopened }
  Beside-IsRecording {s} (requested a ok running) c r =
      after_open _ _
        (ap before_open (dispatch_phase a s) ∙ opened_in s.phase (sym c.context_ok ∙ running))
        (dispatch-IsHistory a s c r.history)
  Beside-IsRecording (reported pending) c r = record { history = r.history; unopened = r.unopened }
  Beside-IsRecording (printing o rest e) c r = record { history = r.history; unopened = r.unopened }

-- What is read of the rows of a history.
entries_read :
    (E : Sqlite) (base : Rows) (entries : List (ℤ × Message))
    → map (message_from E) (map full_row (base ++ map row_of entries))
      ≡ map (message_from E) (map full_row base) ++ map (λ e. stored e.0 e.1) entries
entries_read E [] [] = refl
entries_read E [] ((id, m) ∷ entries) =
    ap₂ (λ x l. x ∷ l) (message_from-columns E id m) (entries_read E [] entries)
entries_read E (r ∷ base) entries =
    ap (λ l. message_from E (full_row r) ∷ l) (entries_read E base entries)

module _ (E : Sqlite) (C : CjsonHeap) (J : Cjson) (env : Env E) (host : Host)
    (T : IsTable E message_sql) (apart : IsApart E env T) where
  Runs-IsRecording :
      (db : E.Db) (h : C.Heap) {n : ℕ} {s : Server E C}
      → Runs E C J env host (initial E C db h) n s
      → IsRecording E C J env host T apart (T.view db) s.phase s
  unfolding initial records
  Runs-IsRecording db h begin = record {
    history = record { entries = []; rows_are = sym (append-nil (T.view db)); recorded_are = refl };
    unopened = λ early. refl;
  }
  Runs-IsRecording db h (main_step r) =
      advance-IsRecording E C J env host T apart (T.view db) _ _ refl (Runs-IsRecording db h r)
  Runs-IsRecording db h (beside r b) =
      Beside-IsRecording E C J env host T apart (T.view db) b
        (reached-IsConsistent E C J env host db h _ _ r) (Runs-IsRecording db h r)

  -- Whatever signals and requests arrive in between, where CivetWeb stores every file part of an
  -- upload before it finds the next one, in every state that the program reaches the table of messages
  -- has the rows that it had at the start, unchanged, and behind them one for each message that the
  -- handlers recorded, in their order and with their columns; and `message_get_all` returns just
  -- these, each under its id, if its allocations succeed and its select can be prepared. SQLite meets
  -- the laws of a table, and the inserts of peers, the pragmas and the script of the schema leave the
  -- rows of the messages alone.
  pub reached-IsHistory :
      (db : E.Db) (h : C.Heap) (n : ℕ) (s : Server E C) (malloc : ℕ → Bool)
      → Runs E C J env host (initial E C db h) n s
      → ((i : ℕ) → malloc i ≡ true)
      → E.prepare s.requests.db message_sql.get_all ≡ true
      → (k : IsHistory E env T (T.view db) s.requests) × ((message_get_all E malloc s.requests.db
            0).0
          ≡ rows (
              map (message_from E) (map full_row (T.view db))
              ++ map (λ e. stored e.0 e.1) k.entries))
  reached-IsHistory db h n s malloc r ok ready =
      let k = (Runs-IsRecording db h r).history in
      (
        k,
        message_get_all_lem E malloc ok T s.requests.db 0 ready
            ∙ ap (λ l. rows (map (message_from E) (map full_row l))) k.rows_are
            ∙ ap rows (entries_read E (T.view db) k.entries),
      )
