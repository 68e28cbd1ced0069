-- ===== src/Server/Transcript/Announced.antt =====
-- Server.c: what `main` prints at a step keeps the account of the output.
use sending_system.Base.{
  ◌⊎◌, ◌≡◌, inl, inr, ◌∙◌, refl, sym, Bool, true, false, List, [], ◌∷◌, ◌++◌, arith,
}
use mathlib.Core.List.{append-nil}
use sending_system.Sqlite.{Sqlite}
use sending_system.System.{Env, World}
use sending_system.Console.{Output}
use sending_system.Handlers.OpenApi.Document.{CjsonHeap}
use sending_system.Server.{Phase, installing, initialising, Server}
use sending_system.Server.Phases.{before_open}
use sending_system.Server.Worker.{Host}
use sending_system.Server.Transcript.{
  Interleaved, silence, of_main, of_thread, fresh, before_thread, addresses, is_allowed, transcript,
}

thread_later : (q : Phase) → before_open q ≡ false → before_thread q ≡ false
thread_later installing h = h
thread_later initialising h = h
thread_later _ h = refl

-- `main` alone says something.
alone : (more : List Output) → Interleaved more [] more
alone [] = silence
alone (o ∷ more) = of_main o (alone more)

-- More is said at the end, by `main` or by the thread.
pub Interleaved-main :
    {main thread output : List Output} (more : List Output)
    → Interleaved main thread output
    → Interleaved (main ++ more) thread (output ++ more)
Interleaved-main more silence = alone more
Interleaved-main more (of_main o i) = of_main o (Interleaved-main more i)
Interleaved-main more (of_thread o i) = of_thread o (Interleaved-main more i)

pub Interleaved-thread :
    {main thread output : List Output} (o : Output)
    → Interleaved main thread output
    → Interleaved main (thread ++ (o ∷ [])) (output ++ (o ∷ []))
Interleaved-thread o silence = of_thread o silence
Interleaved-thread o (of_main p i) = of_main p (Interleaved-thread o i)
Interleaved-thread o (of_thread p i) = of_thread p (Interleaved-thread o i)

-- The thread has not run, or has said all but what is pending.
abbrev pub HasSaid :
    Host → Phase → (worker : Bool) → World Unit → (said pending : List Output) → Type 0
HasSaid host p worker thread said pending =
    ((thread ≡ fresh tt) × ((said ≡ []) × (pending ≡ [])))
    ⊎ ((worker ≡ false) × ((before_thread p ≡ false) × (said ++ pending ≡ addresses host)))

HasSaid-later :
    (host : Host) (p q : Phase) (worker : Bool) (thread : World Unit) (said pending : List Output)
    → before_thread q ≡ false
    → HasSaid host p worker thread said pending
    → HasSaid host q worker thread said pending
HasSaid-later host p q worker thread said pending late (inl untouched) = inl untouched
HasSaid-later host p q worker thread said pending late (inr (over, (early, all))) =
    inr (over, (late, all))

module _ (E : Sqlite) (C : CjsonHeap) (env : Env E) (host : Host) (db : E.Db) where
  -- The invariant: the phase is allowed, nothing is opened or created early, and the program has
  -- printed what it says.
  pub record IsAnnounced (p : Phase) (s : Server E C) : Type 0 where
    pub allowed : is_allowed E env host db p ≡ true
    pub unopened : before_open p ≡ true → s.own ≡ fresh db
    pub no_thread : before_thread p ≡ true → s.worker ≡ false
    pub said : List Output
    pub order : Interleaved (transcript E env host db p) said s.printed
    pub spoken : HasSaid host p s.worker s.thread said s.pending

  -- A step of `main` from `p` to `q`, at which it prints `more`.
  pub moved :
      (p q : Phase) (s t : Server E C) (more : List Output)
      → IsAnnounced p s
      → is_allowed E env host db q ≡ true
      → before_open q ≡ false
      → t.worker ≡ s.worker
      → t.thread ≡ s.thread
      → t.pending ≡ s.pending
      → t.printed ≡ s.printed ++ more
      → transcript E env host db q ≡ transcript E env host db p ++ more
      → IsAnnounced q t
  moved p q s t more a allowed opened worker thread pending printed says =
      let late = thread_later q opened in
      record {
        allowed = allowed;
        unopened = λ early. ground arith;
        no_thread = λ early. ground arith;
        said = a.said;
        order = rw (printed, says) (Interleaved-main more a.order);
        spoken =
            rw (worker, thread, pending)
              (HasSaid-later host p q s.worker s.thread a.said s.pending late a.spoken);
      }

  -- `main` goes on without printing.
  pub moved_quietly :
      (p q : Phase) (s t : Server E C)
      → IsAnnounced p s
      → is_allowed E env host db q ≡ true
      → before_open q ≡ false
      → t.worker ≡ s.worker
      → t.thread ≡ s.thread
      → t.pending ≡ s.pending
      → t.printed ≡ s.printed
      → transcript E env host db q ≡ transcript E env host db p
      → IsAnnounced q t
  moved_quietly p q s t a allowed opened worker thread pending printed says =
      moved p q s t [] a allowed opened worker thread pending (printed ∙ sym (append-nil s.printed))
        (says ∙ sym (append-nil (transcript E env host db p)))
