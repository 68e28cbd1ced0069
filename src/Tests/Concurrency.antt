-- ===== src/Tests/Concurrency.antt =====
-- Two requests at the same time.
use sending_system.Base.{◌≡◌, ◌⊎◌, refl, true, some, [], ◌∷◌, List, map, All, codes}
use sending_system.System.{acquire, file_mutex}
use sending_system.System.Locks.{lock}
use sending_system.System.Threads.{Thread, blocked}
use sending_system.System.Progress.{Some, IsDone, CanGo, begin}
use sending_system.Handlers.Upload.{field_found, field_store}
use sending_system.Server.{to_send, to_upload}
use sending_system.Server.Concurrent.{Job, handled, script, jobs_progress}
use sending_system.Sqlite.Memory.{empty}
use sending_system.Tests.Samples.{connections, healthy, flat_json, blank}

-- A text that is to be saved.
abbrev saving : Job connections blank (flat_json (some (codes "a")))
saving = record {
  arrival = to_send (record {
    request_method = codes "POST";
    remote_addr = codes "1.2.3.4";
    content_length = some (codes "2");
    read = λ n. codes "{}";
  });
  env = healthy connections;
  db = empty;
  documents = tt;
}

-- A form with one file.
abbrev uploading : Job connections blank (flat_json (some (codes "a")))
uploading = record {
  arrival = to_upload (record {
    request_method = codes "POST";
    remote_addr = codes "1.2.3.5";
    calls = field_found (some (codes "b")) 512 ∷ field_store ∷ [];
    parsed = true;
  });
  env = healthy connections;
  db = empty;
  documents = tt;
}

abbrev threads : List Thread
threads =
    map (λ j. script (handled connections blank (flat_json (some (codes "a"))) j))
      (saving ∷ uploading ∷ [])

jobs_progress_example : (All IsDone threads) ⊎ Some (CanGo threads) threads
jobs_progress_example =
    jobs_progress connections blank (flat_json (some (codes "a"))) (saving ∷ uploading ∷ []) threads
      begin

-- Who holds the mutex of the files makes the other wait.
waiting :
    blocked (acquire file_mutex) (record { past = acquire file_mutex ∷ []; next = [] } ∷ []) ≡ true
unfolding blocked lock
waiting = refl
