-- ===== src/System/Locks.antt =====
-- The two mutexes of Server.c: a run that takes one only while it holds none cannot wait for itself or
-- in a circle.
use sending_system.Base.{List, [], ◌∷◌}
use sending_system.System.{Resource, print_mutex, file_mutex, Event, acquire, release}

-- The mutex that a run holds; `broken` once it took a second one or gave back one that it did not
-- hold.
pub data Lock : Type 0 where
  unlocked : Lock
  locked : Resource → Lock
  broken : Lock

unfoldable pub take : Resource → Lock → Lock
take m unlocked = locked m
take m (locked n) = broken
take m broken = broken

unfoldable pub give_back : Resource → Lock → Lock
give_back print_mutex (locked print_mutex) = unlocked
give_back file_mutex (locked file_mutex) = unlocked
give_back m l = broken

unfoldable pub lock_step : Event → Lock → Lock
unfolding take give_back
lock_step (acquire print_mutex) l = take print_mutex l
lock_step (acquire file_mutex) l = take file_mutex l
lock_step (release print_mutex) l = give_back print_mutex l
lock_step (release file_mutex) l = give_back file_mutex l
lock_step e l = l

-- After a log, the newest event first.
unfoldable pub lock : List Event → Lock
unfolding lock_step
lock [] = unlocked
lock (e ∷ log) = lock_step e (lock log)
