-- ===== src/Server/Shutdown.antt =====
-- After a signal the program ends.
use sending_system.Base.{
  ℕ, ◌-◌, ◌≤◌, ◌≡◌, ◌∙◌, ◌==◌, refl, ap, Bool, true, false, ◌&&◌, not, some, arith, length,
}
use sending_system.Sqlite.{Sqlite}
use sending_system.System.{Env, Resource, handle}
use sending_system.System.Held.{same, held, responses}
use sending_system.Handlers.Json.{Cjson}
use sending_system.Handlers.OpenApi.Document.{CjsonHeap}
use sending_system.Server.{
  Phase, installing, initialising, opening, starting, serving, stopping, closing, exiting, exited,
  to_send, to_upload, to_openapi, Server, open_database, start_context, advance, on_signal,
  dispatch, report, print_next, Beside, signalled, requested, reported, printing, Runs, begin,
  main_step, beside, initial,
}
use sending_system.Server.Worker.{Host}
use sending_system.Server.Invariant.{library_in, context_in, handle_in}
use sending_system.Server.Invariant.Reached.{Runs-IsConsistent, reached-IsConsistent}

-- The most steps that `main` has before it, once a signal arrived.
abbrev pub remaining : Phase → ℕ
remaining installing = 8
remaining initialising = 7
remaining opening = 6
remaining starting = 5
remaining serving = 4
remaining stopping = 3
remaining (closing code) = 2
remaining (exiting code) = 1
remaining (exited code) = 0

-- From here `main` returns EXIT_SUCCESS.
abbrev pub started : Phase → Bool
started serving = true
started stopping = true
started (closing code) = code == 0
started (exiting code) = code == 0
started (exited code) = code == 0
started _ = false

-- The program has ended with nothing left open, and one response for each request.
pub record HasEnded (E : Sqlite) (C : CjsonHeap) (s : Server E C) : Type 0 where
  pub code : ℕ
  pub ended : s.phase ≡ exited code
  pub library_left : s.library ≡ false
  pub context_stopped : s.context ≡ false
  pub own_held : (r : Resource) → held r s.own.log ≡ some false
  pub requests_held : (r : Resource) → held r s.requests.log ≡ some false
  pub answered : length (responses s.requests.log) ≡ s.served

module _ (E : Sqlite) (C : CjsonHeap) (J : Cjson) (env : Env E) (host : Host) where
  -- After `n` steps of `main` from `s`, a signal still noted.
  abbrev Nearer : Server E C → ℕ → Server E C → Type 0
  Nearer s n t =
      (t.keep_running ≡ false)
      × (remaining t.phase ≤ remaining s.phase - n)
      × ((started s.phase && not (started t.phase)) ≡ false)

  advance-nearer :
      (p : Phase) (t : Server E C)
      → t.phase ≡ p
      → t.keep_running ≡ false
      → let u = advance E C J env host p t in
        (u.keep_running ≡ false)
        × (remaining u.phase ≤ remaining p - 1)
        × ((started p && not (started u.phase)) ≡ false)
  unfolding advance open_database start_context
  advance-nearer installing t e off = ground arith
  advance-nearer initialising t e off = ground arith
  advance-nearer opening t e off = ground arith
  advance-nearer starting t e off = ground arith
  advance-nearer serving t e off = ground arith
  advance-nearer stopping t e off = ground arith
  advance-nearer (closing code) t e off = ground arith
  advance-nearer (exiting code) t e off = ground arith
  advance-nearer (exited code) t e off = ground arith

  Beside-Nearer :
      (s : Server E C) (n : ℕ) {t u : Server E C}
      → Beside E C J env host t u
      → Nearer s n t
      → Nearer s n u
  unfolding on_signal dispatch report print_next
  Beside-Nearer s n (signalled later) (off, near, on) = (refl, near, on)
  Beside-Nearer s n (requested (to_send rq) ok running) (off, near, on) = (off, near, on)
  Beside-Nearer s n (requested (to_upload f) ok running) (off, near, on) = (off, near, on)
  Beside-Nearer s n (requested (to_openapi rq) ok running) (off, near, on) = (off, near, on)
  Beside-Nearer s n (reported pending) (off, near, on) = (off, near, on)
  Beside-Nearer s n (printing o rest e) (off, near, on) = (off, near, on)

  Runs-Nearer :
      {s t : Server E C} {n : ℕ} → Runs E C J env host s n t → s.keep_running ≡ false → Nearer s n t
  Runs-Nearer {s} begin off = (off, omega arith, ground arith)
  Runs-Nearer {s} (main_step {n} {t} r) off =
      let (still, near, on) = Runs-Nearer r off in
      let (still', nearer, on') = advance-nearer t.phase t refl still in
      (still', omega (arith, near, nearer), ground (arith, on, on'))
  Runs-Nearer {s} (beside {n} r b) off = Beside-Nearer s n b (Runs-Nearer r off)

  ended_phase : (p : Phase) → remaining p ≤ 0 → (code : ℕ) × (p ≡ exited code)
  ended_phase (exited code) h = (code, refl)
  ended_phase installing h = absurd (omega arith)
  ended_phase initialising h = absurd (omega arith)
  ended_phase opening h = absurd (omega arith)
  ended_phase starting h = absurd (omega arith)
  ended_phase serving h = absurd (omega arith)
  ended_phase stopping h = absurd (omega arith)
  ended_phase (closing code) h = absurd (omega arith)
  ended_phase (exiting code) h = absurd (omega arith)

  -- Once a signal has arrived in a state that the program reaches, `main` makes at most
  -- `remaining s.phase` more steps, never more than eight, whatever requests, signals and reports come
  -- between them, where CivetWeb stores every file part of an upload before it finds the next one:
  -- then the program has ended, the database is closed, CivetWeb is stopped, no resource is held, and
  -- each request got exactly one response. If CivetWeb ran when the signal arrived, the exit code is
  -- EXIT_SUCCESS.
  pub signalled-HasEnded :
      (db : E.Db) (h : C.Heap) (m : ℕ) (s : Server E C)
      → Runs E C J env host (initial E C db h) m s
      → s.keep_running ≡ false
      → (n : ℕ) (t : Server E C) → Runs E C J env host s n t
      → remaining s.phase ≤ n
      → HasEnded E C t × ((started s.phase && not (started t.phase)) ≡ false)
  signalled-HasEnded db h m s before off n t after enough =
      let (off', near, on) = Runs-Nearer after off in
      let (code, e) = ended_phase t.phase (omega (arith, near, enough)) in
      let c =
        Runs-IsConsistent E C J env host after
          (reached-IsConsistent E C J env host db h m s before) in
      (
        record {
          code = code;
          ended = e;
          library_left = c.library_ok ∙ ap library_in e;
          context_stopped = c.context_ok ∙ ap context_in e;
          own_held = λ r. c.own_held r ∙ ap (λ p. some (handle_in p && same r handle)) e;
          requests_held = c.requests_held;
          answered = c.answered;
        },
        on,
      )
