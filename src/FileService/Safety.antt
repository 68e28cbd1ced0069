-- ===== src/FileService/Safety.antt =====
-- What `sanitize_filename` leaves in `dest` is always a safe file name.
use sending_system.Base.{
  ℕ, zero, suc, ◌+◌, ◌-◌, ◌≤◌, ◌<◌, ◌≡◌, ◌≢◌, refl, Bool, true, false, Option, none, some, [], ◌∷◌,
  arith, Bytes, codes, ◌==◌, if◌then◌else◌, Bool-cases, inl, inr, length, take, All, All-take,
  length-take, strncpy, c_string, c_string-store_at, c_string-strncpy,
}
use sending_system.FileService.Sanitize.{
  is_allowed, find_dotdot, copy_loop, collapse, skip_dot, unnamed, finish, sanitize_filename,
}
use sending_system.FileService.Copy.{Allowed, copy_loop-Fits}
use sending_system.FileService.Collapse.{
  collapse_lem, find_dotdot-take, LeadsWithDot, find_dotdot-skip_dot, skip_dot-leads,
  skip_dot-Allowed,
}

-- A name of letters, digits, dots, underscores and dashes, not empty, without `..`, and that does
-- not begin with a dot.
pub record IsSafeName (name : Bytes) : Type 0 where
  pub allowed : All Allowed name
  pub nonempty : 0 < length name
  pub no_dotdot : find_dotdot name ≡ none
  pub no_dot : ¬ LeadsWithDot name

pub nonzero_of_Allowed : (s : Bytes) → All Allowed s → All (λ c. c ≢ 0) s
unfolding is_allowed
nonzero_of_Allowed [] good = tt
nonzero_of_Allowed (c ∷ s) good = (λ e. ground arith, nonzero_of_Allowed s good.1)

pub unnamed-IsSafeName : IsSafeName unnamed
unfolding codes is_allowed find_dotdot
unnamed-IsSafeName = record {
  allowed =
      (refl, (refl, (refl, (refl, (refl, (refl, (refl, (refl, (refl, (refl, (refl, tt)))))))))));
  nonempty = omega arith;
  no_dotdot = refl;
  no_dot = λ h. ground arith;
}

length-unnamed : length unnamed ≡ 11
unfolding codes
length-unnamed = refl

not-leads-take : (n : ℕ) (s : Bytes) → ¬ LeadsWithDot s → ¬ LeadsWithDot (take n s)
not-leads-take zero s h d = d
not-leads-take (suc n) [] h d = d
not-leads-take (suc n) (c ∷ s) h d = h d

-- A safe name cut short is a safe name.
take-IsSafeName : (n : ℕ) (s : Bytes) → 0 < n → IsSafeName s → IsSafeName (take n s)
take-IsSafeName n s h safe = record {
  allowed = All-take Allowed n s safe.allowed;
  nonempty = omega (arith, length-take n s);
  no_dotdot = find_dotdot-take n s safe.no_dotdot;
  no_dot = not-leads-take n s safe.no_dot;
}

-- The name that the last part copies.
abbrev pub chosen : Bytes → Bytes
chosen temp = if length (skip_dot temp) == 0 then unnamed else skip_dot temp

chosen-IsSafeName :
    (temp : Bytes) → All Allowed temp → find_dotdot temp ≡ none → IsSafeName (chosen temp)
chosen-IsSafeName temp good clean = elim (Bool-cases (length (skip_dot temp) == 0)) [
  | inl empty ↦ rw empty unnamed-IsSafeName
  | inr full ↦ rw full (record {
    allowed = skip_dot-Allowed temp good;
    nonempty = ground arith;
    no_dotdot = find_dotdot-skip_dot temp clean;
    no_dot = skip_dot-leads temp clean;
  })
]

pub c_string-finish :
    (n : ℕ) (temp : Bytes)
    → All Allowed (chosen temp)
    → c_string (finish (suc n) temp) ≡ some (take n (chosen temp))
unfolding finish
c_string-finish n temp good =
    rw (suc_pred n) (c_string-store_at n (chosen temp) (nonzero_of_Allowed _ good))
  where
    suc_pred : (n : ℕ) → suc n - 1 ≡ n
    suc_pred n = omega arith

-- `dest` holds a string, and the string is a safe name that fits it.
abbrev pub HoldsSafeName : ℕ → Option Bytes → Type 0
HoldsSafeName dest_size result =
    (dest : Bytes) × (name : Bytes) × (result ≡ some dest)
    × (c_string dest ≡ some name)
    × IsSafeName name
    × (length name < dest_size)

unnamed-HoldsSafeName :
    (dest_size : ℕ) → 12 ≤ dest_size → HoldsSafeName dest_size (some (strncpy unnamed dest_size))
unnamed-HoldsSafeName dest_size h = (
  strncpy unnamed dest_size,
  unnamed,
  refl,
  c_string-strncpy dest_size unnamed (omega (arith, length-unnamed))
      (nonzero_of_Allowed unnamed unnamed-IsSafeName.allowed),
  unnamed-IsSafeName,
  omega (arith, length-unnamed),
)

-- The call, from what its loops return.
pub sanitize_filename_of_loops :
    (dest_size : ℕ) (src : Bytes) {temp out : Bytes}
    → copy_loop (length src + 1) src [] ≡ some temp
    → collapse (length temp + 1) temp ≡ some out
    → sanitize_filename dest_size true (some src) ≡ some (finish dest_size out)
unfolding sanitize_filename
sanitize_filename_of_loops dest_size src copied collapsed = ground arith

sanitize_filename-IsSafeName :
    (n : ℕ) (src : Bytes)
    → 11 ≤ n
    → HoldsSafeName (suc n) (sanitize_filename (suc n) true (some src))
sanitize_filename-IsSafeName n src h =
    let copied = copy_loop-Fits (length src + 1) src [] (omega arith) (tt, omega arith) in
    let temp = copied.0 in
    let rest = collapse_lem (length temp + 1) temp (omega arith) copied.2.0 in
    let safe = chosen-IsSafeName rest.0 rest.2 rest.3 in
    (
      finish (suc n) rest.0,
      take n (chosen rest.0),
      sanitize_filename_of_loops (suc n) src copied.1 rest.1,
      c_string-finish n rest.0 safe.allowed,
      take-IsSafeName n (chosen rest.0) (omega arith) safe,
      omega (arith, length-take n (chosen rest.0)),
    )

-- For every source name, NULL included, whether or not `regcomp` succeeds, and for every `dest` of
-- at least 12 bytes, the two loops end and `dest` holds a NUL-terminated string that is a safe
-- name: only letters, digits, `.`, `_` and `-`, not empty, with no `..` and no leading dot.
pub sanitize_filename-HoldsSafeName :
    (dest_size : ℕ) (compiled : Bool) (src : Option Bytes)
    → 12 ≤ dest_size
    → HoldsSafeName dest_size (sanitize_filename dest_size compiled src)
unfolding sanitize_filename
sanitize_filename-HoldsSafeName dest_size compiled none h = unnamed-HoldsSafeName dest_size h
sanitize_filename-HoldsSafeName dest_size false (some src) h = unnamed-HoldsSafeName dest_size h
sanitize_filename-HoldsSafeName zero true (some src) h = absurd (omega arith)
sanitize_filename-HoldsSafeName (suc n) true (some src) h =
    sanitize_filename-IsSafeName n src (omega arith)
