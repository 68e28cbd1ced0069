-- ===== src/Base/Text.antt =====
-- C strings as lists of bytes, and buffers that hold them.
use Prim.Native.Nat.{ℕ, zero, suc, ◌+◌, ◌-◌, ◌/◌, ◌%◌, ◌<◌}
use Prim.Native.Char.{code}
use Prim.Native.String.{String}
use mathlib.Core.Path.{◌≡◌, refl}
use mathlib.Core.Logic.{◌≢◌}
use mathlib.Core.Bool.{Bool, true, false, ◌&&◌}
use mathlib.Core.Option
use mathlib.Core.Option.{Option, none, some}
use mathlib.Core.List.{List, [], ◌∷◌}
use native.Mathlib.Omega.{arith}
use sending_system.Base.Tests.{◌==◌, ltb, if◌then◌else◌}
use sending_system.Base.Lists.{length, take, All}

-- The bytes of a string, without its terminator.
abbrev pub Bytes : Type 0
Bytes = List ℕ

-- The bytes of an ASCII literal.
unfoldable pub codes : String → Bytes
codes String.[] = []
codes (String.◌∷◌ c s) = code c ∷ codes s

-- `strcmp(a, b) == 0`
unfoldable pub bytes_eq : Bytes → Bytes → Bool
bytes_eq [] [] = true
bytes_eq [] (y ∷ ys) = false
bytes_eq (x ∷ xs) [] = false
bytes_eq (x ∷ xs) (y ∷ ys) = x == y && bytes_eq xs ys

pub bytes_eq_refl : (xs : Bytes) → bytes_eq xs xs ≡ true
unfolding bytes_eq
bytes_eq_refl [] = refl
bytes_eq_refl (x ∷ xs) = ground (arith, bytes_eq_refl xs)

pub eq_of_bytes_eq : (xs ys : Bytes) → bytes_eq xs ys ≡ true → xs ≡ ys
unfolding bytes_eq
eq_of_bytes_eq [] [] h = refl
eq_of_bytes_eq [] (y ∷ ys) h = ground arith
eq_of_bytes_eq (x ∷ xs) [] h = ground arith
eq_of_bytes_eq (x ∷ xs) (y ∷ ys) h = ground (arith, eq_of_bytes_eq xs ys)

-- `strncpy(buf, s, n)` into a buffer of `n` bytes: `s` cut at `n` bytes, padded with NUL.
unfoldable pub strncpy : Bytes → ℕ → Bytes
strncpy s zero = []
strncpy [] (suc n) = 0 ∷ strncpy [] n
strncpy (x ∷ s) (suc n) = x ∷ strncpy s n

-- `buf[i] = v`; a write out of bounds has no meaning and is left out by the callers' proofs.
unfoldable pub store_at : Bytes → ℕ → ℕ → Bytes
store_at [] i v = []
store_at (x ∷ xs) zero v = v ∷ xs
store_at (x ∷ xs) (suc i) v = x ∷ store_at xs i v

-- The string that a buffer holds: the bytes before the first NUL, or `none` if there is none.
unfoldable pub c_string : Bytes → Option Bytes
c_string [] = none
c_string (x ∷ xs) = if x == 0 then some [] else Option.map (λ s. x ∷ s) (c_string xs)

-- Ending a buffer of `n + 1` bytes by a NUL after `strncpy` leaves the first `n` bytes of the string.
pub c_string-store_at :
    (n : ℕ) (s : Bytes)
    → All (λ c. c ≢ 0) s
    → c_string (store_at (strncpy s (suc n)) n 0) ≡ some (take n s)
unfolding c_string store_at strncpy
c_string-store_at zero [] nz = refl
c_string-store_at zero (x ∷ s) nz = refl
c_string-store_at (suc n) [] nz = refl
c_string-store_at (suc n) (x ∷ s) (nx, nz) = ground (arith, c_string-store_at n s nz)

-- Where the string and its terminator fit, `strncpy` ends it by itself.
pub c_string-strncpy :
    (n : ℕ) (s : Bytes) → length s < n → All (λ c. c ≢ 0) s → c_string (strncpy s n) ≡ some s
unfolding c_string strncpy
c_string-strncpy zero s h nz = absurd (omega arith)
c_string-strncpy (suc n) [] h nz = refl
c_string-strncpy (suc n) (x ∷ s) h (nx, nz) = ground (arith, c_string-strncpy n s (omega arith) nz)

-- `snprintf(buf, n, ...)` of an expansion `s`: the string that the buffer then holds.
abbrev pub snprintf : ℕ → Bytes → Bytes
snprintf n s = take (n - 1) s

-- "%d" of a number that is not negative: its decimal digits, put before `rest`. A number has fewer
-- digits than one more than itself, so the fuel is enough.
unfoldable pub digits : ℕ → ℕ → Bytes → Bytes
digits zero n rest = rest
digits (suc fuel) n rest =
    let last = (b'0' + n % 10) ∷ rest in
    elim (ltb n 10) [ true ↦ last | false ↦ digits fuel (n / 10) last ]

unfoldable pub decimal : ℕ → Bytes
unfolding digits
decimal n = digits (n + 1) n []
