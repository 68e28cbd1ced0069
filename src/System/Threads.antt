-- ===== src/System/Threads.antt =====
-- Threads that take the mutexes of Server.c never wait for each other for ever.
use sending_system.Base.{◌≡◌, refl, Bool, true, false, ◌||◌, List, [], ◌∷◌, arith, All}
use sending_system.System.{Resource, print_mutex, file_mutex, Event, acquire, release}
use sending_system.System.Locks.{Lock, unlocked, locked, broken, lock, lock_step, take, give_back}

-- What a thread did, the newest event first, and what it has before it, the next event first.
pub record Thread : Type 0 where
  pub past : List Event
  pub next : List Event

-- The lock after the rest.
unfoldable pub ending : Lock → List Event → Lock
unfolding lock_step
ending l [] = l
ending l (e ∷ next) = ending (lock_step e l) next

-- A thread that keeps the discipline, and ends without a mutex.
abbrev pub IsOrderly : Thread → Type 0
IsOrderly t = ending (lock t.past) t.next ≡ unlocked

-- Whether the event waits for a mutex, while this lock is held by some thread.
unfoldable pub waits_for : Event → Lock → Bool
waits_for (acquire print_mutex) (locked print_mutex) = true
waits_for (acquire file_mutex) (locked file_mutex) = true
waits_for e l = false

-- Whether the event must wait for one of the threads.
unfoldable pub blocked : Event → List Thread → Bool
unfolding waits_for
blocked e [] = false
blocked e (t ∷ threads) = waits_for e (lock t.past) || blocked e threads

-- The event takes a mutex.
unfoldable pub takes : Event → Bool
takes (acquire print_mutex) = true
takes (acquire file_mutex) = true
takes e = false

pub ending_broken : (next : List Event) → ending broken next ≡ broken
unfolding ending lock_step take give_back
ending_broken [] = refl
ending_broken (acquire print_mutex ∷ next) = ending_broken next
ending_broken (acquire file_mutex ∷ next) = ending_broken next
ending_broken (release print_mutex ∷ next) = ending_broken next
ending_broken (release file_mutex ∷ next) = ending_broken next
ending_broken (e ∷ next) = ending_broken next

pub taken_broken : (e : Event) (m : Resource) → takes e ≡ true → lock_step e (locked m) ≡ broken
unfolding takes lock_step take
taken_broken (acquire print_mutex) m h = refl
taken_broken (acquire file_mutex) m h = refl
taken_broken e m h = ground (arith, h)

waits_untaken : (e : Event) (l : Lock) → takes e ≡ false → waits_for e l ≡ false
unfolding takes waits_for
waits_untaken (acquire print_mutex) l h = ground (arith, h)
waits_untaken (acquire file_mutex) l h = ground (arith, h)
waits_untaken e l h = refl

waits_unlocked : (e : Event) → waits_for e unlocked ≡ false
unfolding waits_for
waits_unlocked (acquire print_mutex) = refl
waits_unlocked (acquire file_mutex) = refl
waits_unlocked e = refl

pub blocked_untaken :
    (e : Event) (threads : List Thread) → takes e ≡ false → blocked e threads ≡ false
unfolding blocked
blocked_untaken e [] h = refl
blocked_untaken e (t ∷ threads) h =
    ground (arith, waits_untaken e (lock t.past) h, blocked_untaken e threads h)

pub blocked_unlocked :
    (e : Event) (threads : List Thread)
    → All (λ t. lock t.past ≡ unlocked) threads
    → blocked e threads ≡ false
unfolding blocked
blocked_unlocked e [] free = refl
blocked_unlocked e (t ∷ threads) (here, free) =
    rw (here, waits_unlocked e) (blocked_unlocked e threads free)
