-- ===== src/Database/Open/Closed.antt =====
-- `database_open` gives back all that it takes, except the handle when it succeeds.
use sending_system.Base.{◌≡◌, true, false, ◌&&◌, some, arith, if◌then◌else◌}
use sending_system.Sqlite.{Sqlite}
use sending_system.System.{Env, World, Resource, schema, file, handle}
use sending_system.System.Held.{same, held, responses, records, written, Leaves}
use sending_system.Database.Open.{database_open}

module _ (E : Sqlite) (env : Env E) where
  database_open-held :
      (w : World E.Db)
      → held file w.log ≡ some false
      → held schema w.log ≡ some false
      → held handle w.log ≡ some false
      → (r : Resource)
      → held r (database_open E env w).1.log
        ≡ (if (database_open E env w).0 && same r handle then some true else held r w.log)
  unfolding database_open held
  database_open-held w hf hs hh file = ground arith
  database_open-held w hf hs hh r = ground arith

  database_open-silent :
      (w : World E.Db) → responses (database_open E env w).1.log ≡ responses w.log
  unfolding database_open responses
  database_open-silent w = ground arith

  pub database_open-log :
      (w : World E.Db)
      → (records (database_open E env w).1.log ≡ records w.log)
        × (written (database_open E env w).1.log ≡ written w.log)
  unfolding database_open records written
  database_open-log w = ground arith

  -- From a state that holds no FILE, schema text or handle, `database_open` closes every file,
  -- frees the schema text and leaves the handle open exactly when it returns 0; on every failure
  -- the handle is closed.
  pub database_open-Leaves :
      (w : World E.Db)
      → held file w.log ≡ some false
      → held schema w.log ≡ some false
      → held handle w.log ≡ some false
      → Leaves (database_open E env w).0 handle w (database_open E env w).1
  database_open-Leaves w hf hs hh = record {
    keeps = database_open-held w hf hs hh;
    silent = database_open-silent w;
  }
