-- ===== src/System/Held.antt =====
-- A run respects a resource if it is taken only when free, and used and given back only when held.
use sending_system.Base.{
  ◌≡◌, Bool, true, false, ◌&&◌, Option, none, some, List, [], ◌∷◌, Bytes, if◌then◌else◌,
}
use sending_system.Database.Models.{Message}
use sending_system.System.{
  Resource, print_mutex, file_mutex, body, root, document, json, schema, file, handle, curl, buffer,
  devlist, urls, ip_list, Response, Event, acquire, release, access, make_dir, opened, logged,
  wrote, recorded, sent, World,
}

unfoldable pub same : Resource → Resource → Bool
same print_mutex print_mutex = true
same file_mutex file_mutex = true
same body body = true
same root root = true
same document document = true
same json json = true
same schema schema = true
same file file = true
same handle handle = true
same curl curl = true
same buffer buffer = true
same devlist devlist = true
same urls urls = true
same ip_list ip_list = true
same _ _ = false

-- Whether the resource is held after one more event; `none` once a rule was broken.
unfoldable pub held_step : Resource → Event → Option Bool → Option Bool
unfolding same
held_step r e none = none
held_step r (acquire q) (some b) = if same r q then (if b then none else some true) else some b
held_step r (release q) (some b) = if same r q then (if b then some false else none) else some b
held_step r (access q) (some b) = if same r q then (if b then some true else none) else some b
held_step r _ (some b) = some b

-- Whether the resource is held at the end of a log.
unfoldable pub held : Resource → List Event → Option Bool
unfolding held_step
held r [] = some false
held r (e ∷ log) = held_step r e (held r log)

-- The responses of a log, the newest first.
unfoldable pub responses : List Event → List Response
responses [] = []
responses (sent r ∷ log) = r ∷ responses log
responses (acquire _ ∷ log) = responses log
responses (release _ ∷ log) = responses log
responses (access _ ∷ log) = responses log
responses (make_dir _ ∷ log) = responses log
responses (opened _ ∷ log) = responses log
responses (logged _ ∷ log) = responses log
responses (wrote _ _ ∷ log) = responses log
responses (recorded _ ∷ log) = responses log

-- The messages recorded, the newest first.
unfoldable pub records : List Event → List Message
records [] = []
records (recorded m ∷ log) = m ∷ records log
records (acquire _ ∷ log) = records log
records (release _ ∷ log) = records log
records (access _ ∷ log) = records log
records (make_dir _ ∷ log) = records log
records (opened _ ∷ log) = records log
records (logged _ ∷ log) = records log
records (wrote _ _ ∷ log) = records log
records (sent _ ∷ log) = records log

-- The files written, each with its path and its text, the newest first.
unfoldable pub written : List Event → List (Bytes × Bytes)
written [] = []
written (wrote path text ∷ log) = (path, text) ∷ written log
written (recorded _ ∷ log) = written log
written (acquire _ ∷ log) = written log
written (release _ ∷ log) = written log
written (access _ ∷ log) = written log
written (make_dir _ ∷ log) = written log
written (opened _ ∷ log) = written log
written (logged _ ∷ log) = written log
written (sent _ ∷ log) = written log

abbrev pub present {ℓ} : {A : Type ℓ} → Option A → Bool
present none = false
present (some a) = true

-- A part of the program gives back all that it takes but, if `kept`, the resource `q`, which it
-- leaves held; and it sends nothing.
pub record Leaves {Db : Type 0} (kept : Bool) (q : Resource) (w w' : World Db) : Type 0 where
  pub keeps :
      (r : Resource) → held r w'.log ≡ (if kept && same r q then some true else held r w.log)
  pub silent : responses w'.log ≡ responses w.log

-- All that it takes.
pub record Neutral {Db : Type 0} (w w' : World Db) : Type 0 where
  pub keeps : (r : Resource) → held r w'.log ≡ held r w.log
  pub silent : responses w'.log ≡ responses w.log
