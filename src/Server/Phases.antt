-- ===== src/Server/Phases.antt =====
-- Server.c: the phases before the database is opened, and a turn of the loop of `main`.
use sending_system.Base.{
  ◌≡◌, ap, sym, subst, Bool, true, false, if◌then◌else◌, Bool-cases, inl, inr,
}
use sending_system.Sqlite.{Sqlite}
use sending_system.System.{Env}
use sending_system.Handlers.Json.{Cjson}
use sending_system.Handlers.OpenApi.Document.{CjsonHeap}
use sending_system.Server.{
  Phase, installing, initialising, opening, serving, stopping, Server, advance,
}
use sending_system.Server.Worker.{Host}

-- `main` has not opened the database yet.
abbrev pub before_open : Phase → Bool
before_open installing = true
before_open initialising = true
before_open opening = true
before_open _ = false

-- A turn of the loop leaves the state as it is, or `main` leaves the loop.
pub advance-serving :
    (E : Sqlite) (C : CjsonHeap) (J : Cjson) (env : Env E) (host : Host) (s : Server E C)
    (P : Server E C → Type 0)
    → P s
    → (s.keep_running ≡ false → P (record s { phase = stopping }))
    → P (advance E C J env host serving s)
unfolding advance
advance-serving E C J env host s P stays leaves =
    let turn : (b : Bool)
        → s.keep_running ≡ b
        → advance E C J env host serving s ≡ (if b then s else record s { phase = stopping }) =
      λ b. ap (λ b. if b then s else record s { phase = stopping }) in
    elim (Bool-cases s.keep_running) [
      | inl on ↦ subst P (sym (turn true on)) stays
      | inr off ↦ subst P (sym (turn false off)) (leaves off)
    ]
