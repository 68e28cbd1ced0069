-- ===== src/Server/Transcript/Main.antt =====
-- The steps of `main`, and the four ways to its end.
use sending_system.Base.{
  ℕ, ◌≡◌, inl, inr, ◌∙◌, refl, ap, sym, subst, Bool, true, false, ◌&&◌, [], ◌++◌, arith, Bool-cases,
}
use mathlib.Core.List.{append-nil, append_assoc}
use sending_system.Sqlite.{Sqlite}
use sending_system.System.{Env}
use sending_system.Database.Open.{database_open}
use sending_system.Handlers.Json.{Cjson}
use sending_system.Handlers.OpenApi.Document.{CjsonHeap}
use sending_system.Server.{
  Phase, installing, initialising, opening, starting, serving, stopping, closing, exiting, exited,
  exit_success, exit_failure, Server, install_signals, get_cpu_count, open_database, start_context,
  advance,
}
use sending_system.Server.Messages.{
  install_signals_failed, get_cpu_count_output, database_failed, mg_start_failed, server_started,
  server_stopping,
}
use sending_system.Server.Phases.{advance-serving}
use sending_system.Server.Worker.{Host}
use sending_system.Server.Transcript.{
  starts, opens, final_code, is_allowed, directory, counted, whole, transcript,
}
use sending_system.Server.Transcript.Announced.{Interleaved-main, IsAnnounced, moved, moved_quietly}

both : (a b : Bool) → a && b ≡ true → (a ≡ true) × (b ≡ true)
both true b e = (refl, e)
both false b e = ground arith

module _ (E : Sqlite) (C : CjsonHeap) (J : Cjson) (env : Env E) (host : Host) (db : E.Db) where
  -- The four ways to the end.
  without_signals :
      install_signals host ≡ false
      → (is_allowed E env host db (exited exit_failure) ≡ true)
        × ((whole E env host db) ≡ install_signals_failed host)
  unfolding is_allowed final_code whole
  without_signals bad = (rw (bad) refl, rw (bad) refl)

  without_database :
      install_signals host ≡ true
      → (opens E env host db) ≡ false
      → (is_allowed E env host db (exiting exit_failure) ≡ true)
        × ((whole E env host db) ≡ (directory E env host db) ++ database_failed host)
  unfolding is_allowed final_code whole
  without_database ok bad = (rw (ok, bad) refl, rw (ok, bad) refl)

  without_context :
      install_signals host && (opens E env host db) ≡ true
      → starts host ≡ false
      → (is_allowed E env host db (closing exit_failure) ≡ true)
        × ((whole E env host db) ≡ (counted E env host db) ++ mg_start_failed host)
  unfolding is_allowed final_code whole
  without_context ok bad =
      let (signals, opened) = both (install_signals host) _ ok in
      (rw (signals, opened, bad) refl, rw (signals, opened, bad) refl)

  after_stop :
      install_signals host && ((opens E env host db) && starts host) ≡ true
      → (is_allowed E env host db (closing exit_success) ≡ true)
        × ((whole E env host db) ≡ ((counted E env host db) ++ server_started) ++ server_stopping)
  unfolding is_allowed final_code whole
  after_stop ok =
      let (signals, rest) = both (install_signals host) _ ok in
      let (opened, started) = both (opens E env host db) _ rest in
      (rw (signals, opened, started) refl, rw (signals, opened, started) refl)

  closed_on :
      (code : ℕ)
      → is_allowed E env host db (closing code) ≡ true
      → is_allowed E env host db (exiting code) ≡ true
  unfolding is_allowed
  closed_on code ok =
      let (signals, rest) = both (install_signals host) _ ok in
      rw (signals) (both (opens E env host db) _ rest).1

  opened_as_predicted :
      (s : Server E C)
      → IsAnnounced E C env host db opening s
      → (database_open E env s.own).0 ≡ (opens E env host db)
  opened_as_predicted s a = ap (λ w. (database_open E env w).0) (a.unopened refl)

  open_database-IsAnnounced :
      (s : Server E C)
      → IsAnnounced E C env host db opening s
      → let t = open_database E C J env host s in IsAnnounced E C env host db t.phase t
  unfolding open_database is_allowed transcript
  open_database-IsAnnounced s a = elim (Bool-cases (database_open E env s.own).0) [
    | inl ok ↦ rw (ok) (
        moved E C env host db opening starting s _ [] a
          (rw (a.allowed, sym (opened_as_predicted s a) ∙ ok) refl) refl refl refl refl refl
          (sym (append-nil (directory E env host db))))
    | inr bad ↦
        let (allowed, says) = without_database a.allowed (sym (opened_as_predicted s a) ∙ bad) in
        rw (bad) (
          moved E C env host db opening (exiting exit_failure) s _ _ a allowed refl refl refl refl
            refl says)
  ]

  start_context-IsAnnounced :
      (s : Server E C)
      → IsAnnounced E C env host db starting s
      → let t = start_context E C J env host s in IsAnnounced E C env host db t.phase t
  unfolding start_context is_allowed transcript
  start_context-IsAnnounced s a =
      let cpu = get_cpu_count_output host (get_cpu_count host) in
      elim (Bool-cases (starts host)) [
        | inl ok ↦
            let (signals, opened) = both (install_signals host) _ a.allowed in
            rw (ok) (
              moved E C env host db starting serving s _ (cpu ++ server_started) a
                (rw (signals, opened, ok) refl) refl refl refl refl
                (append_assoc s.printed cpu server_started)
                (append_assoc (directory E env host db) cpu server_started))
        | inr bad ↦
            let (allowed, says) = without_context a.allowed bad in
            let failed = mg_start_failed host in
            rw (bad) (
              moved E C env host db starting (closing exit_failure) s _ (cpu ++ failed) a allowed
                refl refl refl refl (append_assoc s.printed cpu failed)
                (says ∙ append_assoc (directory E env host db) cpu failed))
      ]

  loop-IsAnnounced :
      (s : Server E C)
      → s.phase ≡ serving
      → IsAnnounced E C env host db serving s
      → let t = advance E C J env host serving s in IsAnnounced E C env host db t.phase t
  unfolding is_allowed transcript
  loop-IsAnnounced s e a =
      advance-serving E C J env host s (λ t. IsAnnounced E C env host db t.phase t)
        (subst (λ q. IsAnnounced E C env host db q s) (sym e) a)
        (λ off.
          moved_quietly E C env host db serving stopping s _ a a.allowed refl refl refl refl refl
            refl)

  pub advance-IsAnnounced :
      (p : Phase) (s : Server E C)
      → s.phase ≡ p
      → IsAnnounced E C env host db p s
      → let t = advance E C J env host p s in IsAnnounced E C env host db t.phase t
  unfolding advance is_allowed transcript
  advance-IsAnnounced installing s e a = elim (Bool-cases (install_signals host)) [
    | inl ok ↦ rw (ok) (record {
      allowed = ok;
      unopened = λ early. a.unopened refl;
      no_thread = λ early. a.no_thread refl;
      said = a.said;
      order = a.order;
      spoken = a.spoken;
    })
    | inr bad ↦
        let (allowed, says) = without_signals bad in
        rw (bad) (
          moved E C env host db installing (exited exit_failure) s _ _ a allowed refl refl refl refl
            refl says)
  ]
  advance-IsAnnounced initialising s e a = record {
    allowed = a.allowed;
    unopened = λ early. a.unopened refl;
    no_thread = λ early. ground arith;
    said = a.said;
    order = Interleaved-main (directory E env host db) a.order;
    spoken = elim a.spoken [
      | inl untouched ↦ inl untouched
      | inr (over, (late, all)) ↦ ground arith
    ];
  }
  advance-IsAnnounced opening s e a = open_database-IsAnnounced s a
  advance-IsAnnounced starting s e a = start_context-IsAnnounced s a
  advance-IsAnnounced serving s e a = loop-IsAnnounced s e a
  advance-IsAnnounced stopping s e a =
      let (allowed, says) = after_stop a.allowed in
      moved E C env host db stopping (closing exit_success) s _ _ a allowed refl refl refl refl refl
        says
  advance-IsAnnounced (closing code) s e a =
      moved_quietly E C env host db (closing code) (exiting code) s _ a (closed_on code a.allowed)
        refl refl refl refl refl refl
  advance-IsAnnounced (exiting code) s e a =
      moved_quietly E C env host db (exiting code) (exited code) s _ a
        (both (install_signals host) _ a.allowed).1 refl refl refl refl refl refl
  advance-IsAnnounced (exited code) s e a = subst (λ q. IsAnnounced E C env host db q s) (sym e) a
