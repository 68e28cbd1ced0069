-- ===== src/FileService/Collapse.antt =====
-- The second loop of `sanitize_filename` ends, and leaves no two dots side by side.
use sending_system.Base.{
  ℕ, zero, suc, ◌+◌, ◌≤◌, ◌<◌, ◌≡◌, refl, none, some, [], ◌∷◌, arith, Bytes, ◌==◌, Option-cases,
  Bool-cases, inl, inr, length, take, drop, length-append, length-take, length-drop, All,
  All-append, All-take, All-drop,
}
use sending_system.FileService.Sanitize.{is_allowed, find_dotdot, splice, collapse, skip_dot}
use sending_system.FileService.Copy.{Allowed}

find_dotdot-lt : (temp : Bytes) (i : ℕ) → find_dotdot temp ≡ some i → i + 1 < length temp
unfolding find_dotdot
find_dotdot-lt [] i h = absurd (ground arith)
find_dotdot-lt (a ∷ []) i h = absurd (ground arith)
find_dotdot-lt (a ∷ b ∷ r) i h = elim (Option-cases (find_dotdot (b ∷ r))) [
  | inl absent ↦ ground arith
  | inr (k, found) ↦ ground (arith, find_dotdot-lt (b ∷ r) k found)
]

splice-Allowed : (temp : Bytes) (i : ℕ) → All Allowed temp → All Allowed (splice temp i)
unfolding splice is_allowed
splice-Allowed temp i good =
    All-append Allowed (take i temp) (b'_' ∷ drop (i + 2) temp) (All-take Allowed i temp good)
      (refl, All-drop Allowed (i + 2) temp good)

-- Each round makes the name one byte shorter.
length-splice :
    (temp : Bytes) (i : ℕ) → i + 1 < length temp → length (splice temp i) + 1 ≡ length temp
unfolding splice
length-splice temp i h = omega (
  arith,
  length-append (take i temp) (b'_' ∷ drop (i + 2) temp),
  length-take i temp,
  length-drop (i + 2) temp,
)

-- With more fuel than bytes the second loop ends, and no `..` is left.
pub collapse_lem :
    (fuel : ℕ) (temp : Bytes)
    → length temp < fuel
    → All Allowed temp
    → (out : Bytes) × (collapse fuel temp ≡ some out)
      × All Allowed out
      × (find_dotdot out ≡ none)
      × (length out ≤ length temp)
unfolding collapse
collapse_lem zero temp h good = absurd (omega arith)
collapse_lem (suc fuel) temp h good = elim (Option-cases (find_dotdot temp)) [
  | inl clean ↦ (temp, rw (clean, collapse) refl, good, clean, omega arith)
  | inr (i, found) ↦
      let shorter = length-splice temp i (find_dotdot-lt temp i found) in
      let rest = collapse_lem fuel (splice temp i) (omega arith) (splice-Allowed temp i good) in
      (rest.0, rw (found, collapse) rest.1, rest.2, rest.3, omega (arith, rest.4))
]

-- A name with no `..` goes through unchanged.
pub collapse_of_clean :
    (fuel : ℕ) (temp : Bytes) → find_dotdot temp ≡ none → collapse (suc fuel) temp ≡ some temp
unfolding collapse
collapse_of_clean fuel temp h = rw (h, collapse) refl

pub find_dotdot-take : (n : ℕ) (s : Bytes) → find_dotdot s ≡ none → find_dotdot (take n s) ≡ none
unfolding find_dotdot
find_dotdot-take zero s h = refl
find_dotdot-take (suc n) [] h = refl
find_dotdot-take (suc zero) (a ∷ s) h = refl
find_dotdot-take (suc (suc n)) (a ∷ []) h = refl
find_dotdot-take (suc (suc n)) (a ∷ b ∷ s) h = elim (Option-cases (find_dotdot (b ∷ s))) [
  | inl absent ↦ ground (arith, find_dotdot-take (suc n) (b ∷ s) absent)
  | inr (k, found) ↦ absurd (ground arith)
]

abbrev pub LeadsWithDot : Bytes → Type 0
LeadsWithDot [] = ⊥
LeadsWithDot (c ∷ s) = c ≡ b'.'

find_dotdot-tail : (a : ℕ) (r : Bytes) → find_dotdot (a ∷ r) ≡ none → find_dotdot r ≡ none
unfolding find_dotdot
find_dotdot-tail a [] h = refl
find_dotdot-tail a (b ∷ r) h = elim (Option-cases (find_dotdot (b ∷ r))) [
  | inl absent ↦ absent
  | inr (k, found) ↦ absurd (ground arith)
]

pub find_dotdot-skip_dot :
    (temp : Bytes) → find_dotdot temp ≡ none → find_dotdot (skip_dot temp) ≡ none
unfolding skip_dot
find_dotdot-skip_dot [] h = h
find_dotdot-skip_dot (c ∷ r) h = ground (arith, find_dotdot-tail c r h)

pub skip_dot-leads : (temp : Bytes) → find_dotdot temp ≡ none → ¬ LeadsWithDot (skip_dot temp)
unfolding skip_dot find_dotdot
skip_dot-leads [] h d = d
skip_dot-leads (c ∷ []) h d = ground arith
skip_dot-leads (c ∷ b ∷ r) h d = ground arith

pub skip_dot-Allowed : (temp : Bytes) → All Allowed temp → All Allowed (skip_dot temp)
unfolding skip_dot
skip_dot-Allowed [] good = good
skip_dot-Allowed (c ∷ r) (here, good) = elim (Bool-cases (c == b'.')) [
  | inl dot ↦ rw dot good
  | inr other ↦ rw other (here, good)
]

pub length-skip_dot : (temp : Bytes) → length (skip_dot temp) ≤ length temp
unfolding skip_dot
length-skip_dot [] = omega arith
length-skip_dot (c ∷ r) = ground arith
