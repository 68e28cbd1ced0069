-- ===== src/FileService/Files/Closed.antt =====
-- The functions on files close what they open, on every path.
use sending_system.Base.{ℕ, Bool, ◌≡◌, true, false, ◌&&◌, some, Bytes, arith, if◌then◌else◌}
use sending_system.Sqlite.{Sqlite}
use sending_system.System.{Env, World, Resource, schema, file}
use sending_system.System.Held.{same, held, responses, present, Leaves, Neutral}
use sending_system.FileService.Files.{read_file_full, touch_file, touch_file_windows}

module _ (E : Sqlite) (env : Env E) where
  read_file_full-held :
      (filename : Bytes) (w : World E.Db)
      → held file w.log ≡ some false
      → held schema w.log ≡ some false
      → (r : Resource)
      → held r (read_file_full E env filename w).1.log ≡ (
          if present (read_file_full E env filename w).0 && same r schema
          then some true
          else held r w.log)
  unfolding read_file_full held
  read_file_full-held filename w hf hs file = ground arith
  read_file_full-held filename w hf hs r = ground arith

  read_file_full-silent :
      (filename : Bytes) (w : World E.Db)
      → responses (read_file_full E env filename w).1.log ≡ responses w.log
  unfolding read_file_full responses
  read_file_full-silent filename w = ground arith

  touch_file-held :
      (filename : Bytes) (w : World E.Db)
      → held file w.log ≡ some false
      → (r : Resource) → held r (touch_file E env filename w).1.log ≡ held r w.log
  unfolding touch_file held
  touch_file-held filename w hf file = ground arith
  touch_file-held filename w hf r = ground arith

  touch_file-silent :
      (filename : Bytes) (w : World E.Db)
      → responses (touch_file E env filename w).1.log ≡ responses w.log
  unfolding touch_file responses
  touch_file-silent filename w = ground arith

  -- From a state that holds no FILE and no buffer, `read_file_full` closes the file on every path,
  -- leaves a buffer exactly when it returns one, and takes nothing else.
  pub read_file_full-Leaves :
      (filename : Bytes) (w : World E.Db)
      → held file w.log ≡ some false
      → held schema w.log ≡ some false
      → Leaves
          (present (read_file_full E env filename w).0)
          schema
          w
          (read_file_full E env filename w).1
  read_file_full-Leaves filename w hf hs = record {
    keeps = read_file_full-held filename w hf hs;
    silent = read_file_full-silent filename w;
  }

  touch_file_windows-held :
      (create_file set_file_time : ℕ → Bool) (filename : Bytes) (w : World E.Db)
      → held file w.log ≡ some false
      → (r : Resource)
      → held r (touch_file_windows E env create_file set_file_time filename w).1.log ≡ held r w.log
  unfolding touch_file_windows held
  touch_file_windows-held create_file set_file_time filename w hf file = ground arith
  touch_file_windows-held create_file set_file_time filename w hf r = ground arith

  touch_file_windows-silent :
      (create_file set_file_time : ℕ → Bool) (filename : Bytes) (w : World E.Db)
      → responses (touch_file_windows E env create_file set_file_time filename w).1.log
        ≡ responses w.log
  unfolding touch_file_windows responses
  touch_file_windows-silent create_file set_file_time filename w = ground arith

  -- From a state that holds no FILE, `touch_file` closes the file on every path and takes nothing
  -- else, on both platforms.
  pub touch_file-Neutral :
      (create_file set_file_time : ℕ → Bool) (filename : Bytes) (w : World E.Db)
      → held file w.log ≡ some false
      → Neutral w (touch_file E env filename w).1
        × Neutral w (touch_file_windows E env create_file set_file_time filename w).1
  touch_file-Neutral create_file set_file_time filename w hf = (
    record { keeps = touch_file-held filename w hf; silent = touch_file-silent filename w },
    record {
      keeps = touch_file_windows-held create_file set_file_time filename w hf;
      silent = touch_file_windows-silent create_file set_file_time filename w;
    },
  )
