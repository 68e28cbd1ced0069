-- ===== src/Server/Invariant/Main.antt =====
-- The steps of `main` keep the program consistent.
use sending_system.Base.{
  ◌≡◌, ◌∙◌, refl, ap, sym, subst, false, ◌&&◌, some, arith, Bool-cases, inl, inr,
}
use sending_system.Sqlite.{Sqlite}
use sending_system.System.{Env, World, Resource, schema, file, handle}
use sending_system.System.Held.{same, held}
use sending_system.Database.Open.{database_open, database_close}
use sending_system.Database.Open.Closed.{database_open-Leaves}
use sending_system.Handlers.Json.{Cjson}
use sending_system.Handlers.OpenApi.Document.{CjsonHeap}
use sending_system.Server.{
  Phase, installing, initialising, opening, starting, serving, stopping, closing, exiting, exited,
  Server, options, install_signals, get_cpu_count, open_database, start_context, advance,
}
use sending_system.Server.Phases.{advance-serving}
use sending_system.Server.Worker.{Host}
use sending_system.Server.Invariant.{IsConsistent}

module _ (E : Sqlite) (C : CjsonHeap) (J : Cjson) (env : Env E) (host : Host) where
  -- After `database_open`, its handle is held if it returned 0, and nothing else.
  held-database_open :
      (w : World E.Db)
      → ((r : Resource) → held r w.log ≡ some false)
      → (r : Resource)
      → held r (database_open E env w).1.log ≡ some ((database_open E env w).0 && same r handle)
  held-database_open w free r =
      let left = database_open-Leaves E env w (free file) (free schema) (free handle) in
      ground (arith, left.keeps r, free r)

  open_database-IsConsistent :
      (s : Server E C)
      → IsConsistent E C opening s
      → IsConsistent E C (open_database E C J env host s).phase (open_database E C J env host s)
  unfolding open_database
  open_database-IsConsistent s c =
      let own = held-database_open s.own (λ r. c.own_held r) in
      elim (Bool-cases (database_open E env s.own).0) [
        | inl ok ↦ record {
          library_ok = rw (ok) c.library_ok;
          context_ok = rw (ok) c.context_ok;
          handlers_ok = rw (ok) c.handlers_ok;
          own_held = λ r. rw (ok) (own r ∙ ap (λ b. some (b && same r handle)) ok);
          requests_held = c.requests_held;
          thread_held = c.thread_held;
          answered = c.answered;
          ended = rw (ok) refl;
        }
        | inr failed ↦ record {
          library_ok = rw (failed) c.library_ok;
          context_ok = rw (failed) c.context_ok;
          handlers_ok = rw (failed) c.handlers_ok;
          own_held = λ r. rw (failed) (own r ∙ ap (λ b. some (b && same r handle)) failed);
          requests_held = c.requests_held;
          thread_held = c.thread_held;
          answered = c.answered;
          ended = rw (failed) refl;
        }
      ]

  -- `database_close` gives the handle back.
  held-database_close :
      (w : World E.Db)
      → ((r : Resource) → held r w.log ≡ some (same r handle))
      → (r : Resource) → held r (database_close E env w).log ≡ some false
  unfolding database_close held same
  held-database_close w h handle = ground (arith, h handle)
  held-database_close w h r = ground (arith, h r)

  start_context-IsConsistent :
      (s : Server E C)
      → IsConsistent E C starting s
      → IsConsistent E C (start_context E C J env host s).phase (start_context E C J env host s)
  unfolding start_context
  start_context-IsConsistent s c =
      elim (Bool-cases (host.mg_start (options (get_cpu_count host)))) [
        | inl ok ↦ rw (ok) (record {
          library_ok = c.library_ok;
          context_ok = refl;
          handlers_ok = refl;
          own_held = c.own_held;
          requests_held = c.requests_held;
          thread_held = c.thread_held;
          answered = c.answered;
          ended = refl;
        })
        | inr bad ↦ rw (bad) (record {
          library_ok = c.library_ok;
          context_ok = c.context_ok;
          handlers_ok = c.handlers_ok;
          own_held = c.own_held;
          requests_held = c.requests_held;
          thread_held = c.thread_held;
          answered = c.answered;
          ended = refl;
        })
      ]

  loop-IsConsistent :
      (s : Server E C)
      → s.phase ≡ serving
      → IsConsistent E C serving s
      → let t = advance E C J env host serving s in IsConsistent E C t.phase t
  loop-IsConsistent s e c =
      advance-serving E C J env host s (λ t. IsConsistent E C t.phase t)
        (subst (λ q. IsConsistent E C q s) (sym e) c)
        (λ off. record {
          library_ok = c.library_ok;
          context_ok = c.context_ok;
          handlers_ok = c.handlers_ok;
          own_held = c.own_held;
          requests_held = c.requests_held;
          thread_held = c.thread_held;
          answered = c.answered;
          ended = off;
        })

  -- A step of `main` in the phase `p`.
  pub advance-IsConsistent :
      (p : Phase) (s : Server E C)
      → s.phase ≡ p
      → IsConsistent E C p s
      → let t = advance E C J env host p s in IsConsistent E C t.phase t
  unfolding advance
  advance-IsConsistent installing s e c = elim (Bool-cases (install_signals host)) [
    | inl ok ↦ rw (ok) (record {
      library_ok = c.library_ok;
      context_ok = c.context_ok;
      handlers_ok = c.handlers_ok;
      own_held = c.own_held;
      requests_held = c.requests_held;
      thread_held = c.thread_held;
      answered = c.answered;
      ended = refl;
    })
    | inr bad ↦ rw (bad) (record {
      library_ok = c.library_ok;
      context_ok = c.context_ok;
      handlers_ok = c.handlers_ok;
      own_held = c.own_held;
      requests_held = c.requests_held;
      thread_held = c.thread_held;
      answered = c.answered;
      ended = refl;
    })
  ]
  advance-IsConsistent initialising s e c = record {
    library_ok = refl;
    context_ok = c.context_ok;
    handlers_ok = c.handlers_ok;
    own_held = c.own_held;
    requests_held = c.requests_held;
    thread_held = c.thread_held;
    answered = c.answered;
    ended = refl;
  }
  advance-IsConsistent opening s e c = open_database-IsConsistent s c
  advance-IsConsistent starting s e c = start_context-IsConsistent s c
  advance-IsConsistent serving s e c = loop-IsConsistent s e c
  advance-IsConsistent stopping s e c = record {
    library_ok = c.library_ok;
    context_ok = refl;
    handlers_ok = refl;
    own_held = c.own_held;
    requests_held = c.requests_held;
    thread_held = c.thread_held;
    answered = c.answered;
    ended = c.ended;
  }
  advance-IsConsistent (closing code) s e c = record {
    library_ok = c.library_ok;
    context_ok = c.context_ok;
    handlers_ok = c.handlers_ok;
    own_held = held-database_close s.own c.own_held;
    requests_held = c.requests_held;
    thread_held = c.thread_held;
    answered = c.answered;
    ended = c.ended;
  }
  advance-IsConsistent (exiting code) s e c = record {
    library_ok = refl;
    context_ok = c.context_ok;
    handlers_ok = c.handlers_ok;
    own_held = c.own_held;
    requests_held = c.requests_held;
    thread_held = c.thread_held;
    answered = c.answered;
    ended = c.ended;
  }
  advance-IsConsistent (exited code) s e c = subst (λ q. IsConsistent E C q s) (sym e) c
