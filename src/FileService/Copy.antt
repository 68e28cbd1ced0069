-- ===== src/FileService/Copy.antt =====
-- The first loop of `sanitize_filename` ends, and leaves allowed bytes that fit its buffer.
use sending_system.Base.{
  ℕ, zero, suc, ◌+◌, ◌≤◌, ◌<◌, ◌≡◌, refl, true, none, some, [], ◌∷◌, ◌++◌, arith, Bytes, ltb,
  Option-cases, Bool-cases, inl, inr, length, take, drop, length-append, length-take, length-drop,
  All, All-append, All-take,
}
use sending_system.FileService.Sanitize.{
  max_filename, is_allowed, find_invalid, copy_len, copy_match, copy_loop,
}

abbrev pub Allowed : ℕ → Type 0
Allowed c = is_allowed c ≡ true

-- The first `n` bytes of a name whose first bad byte stands at `so` are good.
pub find_invalid-Allowed :
    (p : Bytes) (so n : ℕ) → find_invalid p ≡ some so → n ≤ so → All Allowed (take n p)
unfolding find_invalid
find_invalid-Allowed p so zero h le = tt
find_invalid-Allowed [] so (suc n) h le = tt
find_invalid-Allowed (c ∷ p) so (suc n) h le = elim (Bool-cases (is_allowed c)) [
  | inl good ↦ elim (Option-cases (find_invalid p)) [
    | inl absent ↦ absurd (ground arith)
    | inr (k, found) ↦ (good, find_invalid-Allowed p k n found (ground arith))
  ]
  | inr bad ↦ absurd (ground arith)
]

pub find_invalid-lt : (p : Bytes) (so : ℕ) → find_invalid p ≡ some so → so < length p
unfolding find_invalid
find_invalid-lt [] so h = absurd (ground arith)
find_invalid-lt (c ∷ p) so h = elim (Option-cases (find_invalid p)) [
  | inl absent ↦ ground arith
  | inr (k, found) ↦ ground (arith, find_invalid-lt p k found)
]

pub find_invalid-none : (p : Bytes) → find_invalid p ≡ none → All Allowed p
unfolding find_invalid
find_invalid-none [] h = tt
find_invalid-none (c ∷ p) h = elim (Bool-cases (is_allowed c)) [
  | inl good ↦ (good, find_invalid-none p (ground arith))
  | inr bad ↦ absurd (ground arith)
]

-- A copy never fills the last free byte of `temp`.
copy_len-lt : (t len : ℕ) → t < max_filename → t + copy_len t len < max_filename
unfolding copy_len
copy_len-lt t len h = ground arith

copy_len-le : (t len : ℕ) → t < max_filename → copy_len t len ≤ len
unfolding copy_len
copy_len-le t len h = ground arith

-- What is true of `temp` between the rounds of the first loop.
abbrev Fits : Bytes → Type 0
Fits temp = All Allowed temp × (length temp ≤ max_filename)

copy_match-Fits :
    (temp p : Bytes) (so : ℕ)
    → Fits temp
    → length temp < max_filename
    → find_invalid p ≡ some so
    → Fits (copy_match temp p so)
unfolding copy_match is_allowed
copy_match-Fits temp p so (good, _) room found =
    let k = copy_len (length temp) so in
    let piece = find_invalid-Allowed p so k found (copy_len-le _ so room) in
    let copied = All-append Allowed temp (take k p) good piece in
    elim (Bool-cases (ltb (length (temp ++ take k p)) max_filename)) [
      | inl short ↦ rw short (
        All-append Allowed (temp ++ take k p) (b'_' ∷ []) copied (refl, tt),
        ground (arith, length-append (temp ++ take k p) (b'_' ∷ [])),
      )
      | inr full ↦ rw full (
        copied,
        omega (arith, length-append temp (take k p), length-take k p, copy_len-lt _ so room),
      )
    ]

copy_last-Fits :
    (temp p : Bytes)
    → Fits temp
    → length temp < max_filename
    → All Allowed p
    → Fits (temp ++ take (copy_len (length temp) (length p)) p)
copy_last-Fits temp p (good, _) room all =
    let k = copy_len (length temp) (length p) in
    (
      All-append Allowed temp (take k p) good (All-take Allowed k p all),
      omega (arith, length-append temp (take k p), length-take k p, copy_len-lt _ (length p) room),
    )

-- With more fuel than bytes left the first loop ends, with allowed bytes that fit `temp`.
pub copy_loop-Fits :
    (fuel : ℕ) (p temp : Bytes)
    → length p < fuel
    → Fits temp
    → (out : Bytes) × (copy_loop fuel p temp ≡ some out) × Fits out
unfolding copy_loop
copy_loop-Fits zero p temp h fits = absurd (omega arith)
copy_loop-Fits (suc fuel) [] temp h fits = (temp, refl, fits)
copy_loop-Fits (suc fuel) (c ∷ p) temp h fits = elim (Bool-cases (ltb (length temp) max_filename)) [
  | inr full ↦ (temp, rw full refl, fits)
  | inl room ↦ elim (Option-cases (find_invalid (c ∷ p))) [
    | inl clean ↦ (
      temp ++ take (copy_len (length temp) (length (c ∷ p))) (c ∷ p),
      rw (room, clean) refl,
      copy_last-Fits temp (c ∷ p) fits (ground arith) (find_invalid-none (c ∷ p) clean),
    )
    | inr (so, found) ↦
        let rest =
          copy_loop-Fits fuel (drop (so + 1) (c ∷ p)) (copy_match temp (c ∷ p) so)
            (omega (arith, length-drop (so + 1) (c ∷ p)))
            (copy_match-Fits temp (c ∷ p) so fits (ground arith) found) in
        (rest.0, rw (room, found) rest.1, rest.2)
  ]
]
