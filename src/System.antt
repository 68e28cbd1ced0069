-- ===== src/System.antt =====
-- What a request handler changes and what surrounds it: the resources that it takes and gives
-- back, the files, the database, the responses sent, and the calls whose outcome it cannot know.
pub mod Held
pub mod Locks
pub mod Threads
pub mod Progress
use sending_system.Console.{Output}
use sending_system.Base.{ℕ, ◌+◌, Bool, true, false, Option, none, some, List, [], ◌∷◌, Bytes, ℤ}
use sending_system.Sqlite.{Sqlite}
use sending_system.Database.Models.{Message}

-- The two mutexes of Server.c, the heap blocks of a request (`document` is the cJSON object of
-- `http_build_json`), an open FILE and a database handle; and, for the public address, a handle of
-- libcurl, the text of the answer, the device list of miniupnpc, its URLs, and the list of local addresses.
pub data Resource : Type 0 where
  print_mutex file_mutex body root document json schema file handle : Resource
  curl buffer devlist urls ip_list : Resource

-- A response as it goes over the wire.
pub record Response : Type 0 where
  pub status : ℕ
  pub reason : Bytes
  pub content_length : ℤ
  pub content : Bytes

-- `access` is a read or a write through a pointer to the block, `wrote` a call of `fputs`, and
-- `recorded` an insert into the table of messages that returned 0.
pub data Event : Type 0 where
  acquire : Resource → Event
  release : Resource → Event
  access : Resource → Event
  make_dir : Bytes → Event
  opened : Bytes → Event
  wrote : Bytes → Bytes → Event
  -- Calls of printf and its kind.
  logged : List Output → Event
  recorded : Message → Event
  sent : Response → Event

-- The newest event comes first. `calls` numbers the calls into the environment.
pub record World (Db : Type 0) : Type 0 where
  pub db : Db
  pub log : List Event
  pub calls : ℕ

-- The outcomes of the calls, by their number.
pub record Env (E : Sqlite) : Type 0 where
  pub malloc : ℕ → Bool
  pub regcomp : ℕ → Bool
  pub access_ok : ℕ → Bool
  pub fopen : ℕ → Bool
  pub fseek : ℕ → Bool
  -- `none` is a negative result.
  pub ftell : ℕ → Option ℕ
  -- The bytes that a read of so many delivers.
  pub fread : ℕ → ℕ → Bytes
  pub utimensat : ℕ → Bool
  pub sqlite3_open : ℕ → Bool
  -- `sqlite3_exec` of a script.
  pub sqlite3_exec : ℕ → E.Db → Bytes → Bool × E.Db
  -- The text that `strftime` makes of the local time.
  pub now : ℕ → Bytes

module _ {Db : Type 0} where
  abbrev pub emit : Event → World Db → World Db
  emit e w = record w { log = e ∷ w.log }

  -- A call into the environment.
  abbrev pub ask {ℓ} : {A : Type ℓ} → (ℕ → A) → World Db → A × World Db
  ask oracle w = (oracle w.calls, record w { calls = w.calls + 1 })
