-- ===== src/Handlers/Saving/Resources.antt =====
-- The functions that save a connection, a message or a text give back all that they take.
use sending_system.Base.{◌≡◌, ◌⊎◌, false, some, ◌∷◌, arith, Bytes}
use sending_system.Sqlite.{Sqlite}
use sending_system.System.{Env, World, Resource, file_mutex, schema, file, handle}
use sending_system.System.Held.{held, responses, records, written}
use sending_system.Database.Models.{Message}
use sending_system.Database.Open.{database_close}
use sending_system.Database.Open.Closed.{database_open-Leaves, database_open-log}
use sending_system.Handlers.Saving.{save_connection, note_insert, save_message, save_text_to_file}

module _ (E : Sqlite) (env : Env E) (w : World E.Db) where
  module _ (remote_addr : Bytes) where
    pub save_connection-held :
        held file w.log ≡ some false
        → held schema w.log ≡ some false
        → held handle w.log ≡ some false
        → (r : Resource) → held r (save_connection E env remote_addr w).1.log ≡ held r w.log
    unfolding save_connection database_close held
    save_connection-held hf hs hh handle =
        ground (arith, (database_open-Leaves E env w hf hs hh).keeps handle)
    save_connection-held hf hs hh r =
        ground (arith, (database_open-Leaves E env w hf hs hh).keeps r)

    pub save_connection-log :
        held file w.log ≡ some false
        → held schema w.log ≡ some false
        → held handle w.log ≡ some false
        → (responses (save_connection E env remote_addr w).1.log ≡ responses w.log)
          × (records (save_connection E env remote_addr w).1.log ≡ records w.log)
          × (written (save_connection E env remote_addr w).1.log ≡ written w.log)
    unfolding save_connection database_close responses records written
    save_connection-log hf hs hh =
        ground (arith, (database_open-Leaves E env w hf hs hh).silent, database_open-log E env w)

  module _ (m : Message) where
    pub save_message-held :
        held file w.log ≡ some false
        → held schema w.log ≡ some false
        → held handle w.log ≡ some false
        → (r : Resource) → held r (save_message E env m w).1.log ≡ held r w.log
    unfolding save_message note_insert database_close held
    save_message-held hf hs hh handle =
        ground (arith, (database_open-Leaves E env w hf hs hh).keeps handle)
    save_message-held hf hs hh r = ground (arith, (database_open-Leaves E env w hf hs hh).keeps r)

    -- At most the message itself is recorded.
    pub save_message-log :
        held file w.log ≡ some false
        → held schema w.log ≡ some false
        → held handle w.log ≡ some false
        → (responses (save_message E env m w).1.log ≡ responses w.log)
          × ((records (save_message E env m w).1.log ≡ records w.log)
              ⊎ (records (save_message E env m w).1.log ≡ m ∷ records w.log))
          × (written (save_message E env m w).1.log ≡ written w.log)
    unfolding save_message note_insert database_close responses records written
    save_message-log hf hs hh =
        ground (arith, (database_open-Leaves E env w hf hs hh).silent, database_open-log E env w)

  module _ (text save_to_path : Bytes) where
    pub save_text_to_file-held :
        held file_mutex w.log ≡ some false
        → held file w.log ≡ some false
        → (r : Resource) → held r (save_text_to_file E env text save_to_path w).1.log ≡ held r w.log
    unfolding save_text_to_file held
    save_text_to_file-held hm hf file = ground arith
    save_text_to_file-held hm hf r = ground arith

    pub save_text_to_file-log :
        (responses (save_text_to_file E env text save_to_path w).1.log ≡ responses w.log)
        × (records (save_text_to_file E env text save_to_path w).1.log ≡ records w.log)
    unfolding save_text_to_file responses records
    save_text_to_file-log = ground arith
