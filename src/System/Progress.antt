-- ===== src/System/Progress.antt =====
-- Orderly threads always make progress, and stay orderly.
use sending_system.Base.{
  ◌≡◌, ◌⊎◌, ◌∙◌, refl, ap, sym, subst, inl, inr, false, List, [], ◌∷◌, ◌++◌, arith, All, Bool-cases,
  List-cases,
}
use sending_system.System.{Resource, Event}
use sending_system.System.Locks.{Lock, unlocked, locked, broken, lock}
use sending_system.System.Threads.{
  Thread, ending, IsOrderly, blocked, takes, ending_broken, taken_broken, blocked_untaken,
  blocked_unlocked,
}

-- One of the threads.
unfoldable pub Some : (Thread → Type 0) → List Thread → Type 0
Some P [] = ⊥
Some P (t ∷ threads) = P t ⊎ Some P threads

Some-map :
    (P Q : Thread → Type 0) (f : (t : Thread) → IsOrderly t → P t → Q t) (threads : List Thread)
    → All IsOrderly threads
    → Some P threads
    → Some Q threads
unfolding Some
Some-map P Q f [] ok found = found
Some-map P Q f (t ∷ threads) (here, ok) (inl p) = inl (f t here p)
Some-map P Q f (t ∷ threads) (here, ok) (inr found) = inr (Some-map P Q f threads ok found)

abbrev pub IsDone : Thread → Type 0
IsDone t = t.next ≡ []

-- The thread has an event before it that does not wait for these.
abbrev pub CanGo : List Thread → Thread → Type 0
CanGo threads t =
    (e : Event) × (rest : List Event) × (t.next ≡ e ∷ rest) × (blocked e threads ≡ false)

abbrev Holds : Thread → Type 0
Holds t = (m : Resource) × (lock t.past ≡ locked m)

not_locked : (m : Resource) → ¬ (locked m ≡ unlocked)
not_locked m e = ground (arith, e)

not_broken : ¬ (broken ≡ unlocked)
not_broken e = ground (arith, e)

Lock-cases : (l : Lock) → (l ≡ unlocked) ⊎ (((m : Resource) × (l ≡ locked m)) ⊎ (l ≡ broken))
Lock-cases unlocked = inl refl
Lock-cases (locked m) = inr (inl (m, refl))
Lock-cases broken = inr (inr refl)

-- Whoever holds a mutex goes on.
Holds-CanGo : (threads : List Thread) (t : Thread) → IsOrderly t → Holds t → CanGo threads t
unfolding ending
Holds-CanGo threads t ok (m, holds) = elim (List-cases t.next) [
  | inl ended ↦
      let left : locked m ≡ unlocked =
        ap (λ l. ending l []) (sym holds) ∙ ap (ending (lock t.past)) (sym ended) ∙ ok in
      absurd (not_locked m left)
  | inr (e, rest, more) ↦ elim (Bool-cases (takes e)) [
    | inl second ↦
        let left : broken ≡ unlocked =
          sym (ending_broken rest)
          ∙ ap (λ l. ending l rest) (sym (taken_broken e m second))
          ∙ ap (λ l. ending l (e ∷ rest)) (sym holds)
          ∙ ap (ending (lock t.past)) (sym more)
          ∙ ok in
        absurd (not_broken left)
    | inr other ↦ (e, rest, more, blocked_untaken e threads other)
  ]
]

-- Someone holds a mutex, or nobody does.
holder :
    (threads : List Thread)
    → All IsOrderly threads
    → (All (λ t. lock t.past ≡ unlocked) threads) ⊎ Some Holds threads
unfolding Some
holder [] ok = inl tt
holder (t ∷ threads) (here, ok) = elim (Lock-cases (lock t.past)) [
  | inl free ↦ elim (holder threads ok) [ inl all ↦ inl (free, all) | inr found ↦ inr (inr found) ]
  | inr (inl held) ↦ inr (inl held)
  | inr (inr lost) ↦
      let left : broken ≡ unlocked =
        sym (ending_broken t.next) ∙ ap (λ l. ending l t.next) (sym lost) ∙ here in
      absurd (not_broken left)
]

-- Where nobody holds a mutex, the first thread that is not done goes on.
first_to_go :
    (all threads : List Thread)
    → All (λ t. lock t.past ≡ unlocked) all
    → (All IsDone threads) ⊎ Some (CanGo all) threads
unfolding Some
first_to_go all [] free = inl tt
first_to_go all (t ∷ threads) free = elim (List-cases t.next) [
  | inr (e, rest, more) ↦ inr (inl (e, rest, more, blocked_unlocked e all free))
  | inl ended ↦ elim (first_to_go all threads free) [
    | inl done ↦ inl (ended, done)
    | inr found ↦ inr (inr found)
  ]
]

-- Orderly threads are all done, or one of them can go on.
pub orderly_progress :
    (threads : List Thread)
    → All IsOrderly threads
    → (All IsDone threads) ⊎ Some (CanGo threads) threads
orderly_progress threads ok = elim (holder threads ok) [
  | inl free ↦ first_to_go threads threads free
  | inr found ↦ inr (Some-map Holds (CanGo threads) (Holds-CanGo threads) threads ok found)
]

-- The threads after one event of one of them, which did not have to wait.
pub data Turns (s : List Thread) : List Thread → Type 0 where
  begin : Turns s s
  turn :
      {u : List Thread}
      → Turns s u
      → (before after : List Thread) (past rest : List Event) (e : Event)
      → u ≡ before ++ (record { past = past; next = e ∷ rest } ∷ after)
      → blocked e u ≡ false
      → Turns s (before ++ (record { past = e ∷ past; next = rest } ∷ after))

All-step :
    (before after : List Thread) (past rest : List Event) (e : Event)
    → All IsOrderly (before ++ (record { past = past; next = e ∷ rest } ∷ after))
    → All IsOrderly (before ++ (record { past = e ∷ past; next = rest } ∷ after))
unfolding ending lock
All-step [] after past rest e (here, ok) = (here, ok)
All-step (t ∷ before) after past rest e (here, ok) = (here, All-step before after past rest e ok)

pub Turns-IsOrderly : {s u : List Thread} → Turns s u → All IsOrderly s → All IsOrderly u
Turns-IsOrderly begin ok = ok
Turns-IsOrderly (turn turns before after past rest e is free) ok =
    All-step before after past rest e (subst (All IsOrderly) is (Turns-IsOrderly turns ok))
