-- ===== src/FileService/Exact.antt =====
-- On short names `sanitize_filename` computes what its comment says, byte for byte.
use mathlib.Core.List.{append_assoc, append-nil}
use native.Mathlib.Numerals.{add-one}
use sending_system.Base.{
  ℕ, zero, suc, ◌+◌, ◌≤◌, ◌<◌, ◌≡◌, refl, ap, sym, ◌∙◌, true, some, [], ◌∷◌, ◌++◌, map, arith,
  Bytes, if◌then◌else◌, Bool-cases, Option-cases, inl, inr, length, take, drop, All, length-append,
  take_of_length-le, length-take, length-drop, c_string,
}
use sending_system.FileService.Sanitize.{
  max_filename, is_allowed, find_invalid, copy_len, copy_match, copy_loop, skip_dot, finish,
  sanitize_filename,
}
use sending_system.FileService.Copy.{Allowed, find_invalid-lt, find_invalid-none}
use sending_system.FileService.Collapse.{collapse_of_clean, LeadsWithDot}
use sending_system.FileService.Safety.{
  IsSafeName, chosen, c_string-finish, sanitize_filename_of_loops,
}

-- The reference: each bad byte becomes an underscore.
abbrev pub replace : ℕ → ℕ
replace c = if is_allowed c then c else b'_'

-- The bytes up to a bad one are kept, it is replaced, and the rest follows.
map-replace_match :
    (p : Bytes) (so : ℕ)
    → find_invalid p ≡ some so
    → map replace p ≡ take so p ++ (b'_' ∷ map replace (drop (so + 1) p))
unfolding find_invalid
map-replace_match [] so h = absurd (ground arith)
map-replace_match (c ∷ p) so h = elim (Bool-cases (is_allowed c)) [
  | inr bad ↦ elim (Option-cases (find_invalid p)) [
    | inl absent ↦ ground arith
    | inr (k, found) ↦ ground arith
  ]
  | inl good ↦ elim (Option-cases (find_invalid p)) [
    | inl absent ↦ absurd (ground arith)
    | inr (k, found) ↦ ground (arith, map-replace_match p k found)
  ]
]

map-replace_of_Allowed : (p : Bytes) → All Allowed p → map replace p ≡ p
map-replace_of_Allowed [] good = refl
map-replace_of_Allowed (c ∷ p) good = ground (arith, map-replace_of_Allowed p good.1)

copy_len_short : (t len : ℕ) → t + len < max_filename → copy_len t len ≡ len
unfolding copy_len
copy_len_short t len h = ground arith

copy_match_short :
    (temp p : Bytes) (so : ℕ)
    → so < length p
    → length temp + length p < max_filename
    → copy_match temp p so ≡ temp ++ (take so p ++ (b'_' ∷ []))
unfolding copy_match
copy_match_short temp p so below short = ground (
  arith,
  length-append temp (take so p),
  length-take so p,
  append_assoc temp (take so p) (b'_' ∷ []),
)

-- On a name that fits `temp`, the first loop appends the name with its bad bytes replaced.
pub copy_loop_short :
    (fuel : ℕ) (p temp : Bytes)
    → length p < fuel
    → length temp + length p < max_filename
    → copy_loop fuel p temp ≡ some (temp ++ map replace p)
unfolding copy_loop
copy_loop_short zero p temp h short = absurd (omega arith)
copy_loop_short (suc fuel) [] temp h short = ap some (sym (append-nil temp))
copy_loop_short (suc fuel) (c ∷ p) temp h short = elim (Option-cases (find_invalid (c ∷ p))) [
  | inl clean ↦ ground (
    arith,
    copy_len_short (length temp) (length (c ∷ p)),
    take_of_length-le (length (c ∷ p)) (c ∷ p),
    map-replace_of_Allowed (c ∷ p) (find_invalid-none (c ∷ p) clean),
  )
  | inr (so, found) ↦
      let q = c ∷ p in
      let below = find_invalid-lt q so found in
      let rest = drop (so + 1) q in
      let matched = copy_match_short temp q so below short in
      ground (
        arith,
        matched,
        map-replace_match q so found,
        length-drop (so + 1) q,
        length-take so q,
        length-append temp (take so q ++ (b'_' ∷ [])),
        length-append (take so q) (b'_' ∷ []),
        append_assoc temp (take so q ++ (b'_' ∷ [])) (map replace rest),
        append_assoc (take so q) (b'_' ∷ []) (map replace rest),
        copy_loop_short fuel rest (copy_match temp q so),
      )
]

skip_dot_of_safe : (name : Bytes) → ¬ LeadsWithDot name → skip_dot name ≡ name
unfolding skip_dot
skip_dot_of_safe [] h = refl
skip_dot_of_safe (c ∷ name) h = ground (arith, h)

chosen_of_safe : (name : Bytes) → IsSafeName name → chosen name ≡ name
chosen_of_safe name safe = rw (skip_dot_of_safe name safe.no_dot) (ground (arith, safe.nonempty))

-- If `regcomp` succeeds, a safe name of at most 254 bytes comes out of `sanitize_filename` as it
-- went in, for a `dest` with room for it and its terminator.
pub sanitize_filename_of_safe :
    (n : ℕ) (name : Bytes)
    → IsSafeName name
    → length name < max_filename
    → length name ≤ n
    → (dest : Bytes) × (sanitize_filename (suc n) true (some name) ≡ some dest)
      × (c_string dest ≡ some name)
sanitize_filename_of_safe n name safe short fits = (
  finish (suc n) name,
  sanitize_filename_of_loops (suc n) name
      (copy_loop_short (length name + 1) name [] (omega arith) (omega arith)
        ∙ ap some (map-replace_of_Allowed name safe.allowed))
      (rw add-one (collapse_of_clean (length name) name safe.no_dotdot)),
  c_string-finish n name (rw (chosen_of_safe name safe) safe.allowed)
      ∙ ap some (ap (take n) (chosen_of_safe name safe) ∙ take_of_length-le n name fits),
)
