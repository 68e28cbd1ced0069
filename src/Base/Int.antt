-- ===== src/Base/Int.antt =====
-- Signed numbers over the native ℕ: row ids, `int` columns and parsed headers.
use Prim.Native.Nat.{ℕ, ◌-◌, ◌%◌, ◌^◌, ◌<◌}
use mathlib.Core.Path.{◌≡◌}
use mathlib.Core.Bool.{Bool, true, false}
use native.Mathlib.Omega.{arith}
use sending_system.Base.Tests.{ltb, ◌==◌, if◌then◌else◌}

-- `negsuc n` is -(n + 1).
pub data ℤ : Type 0 where
  pos : ℕ → ℤ
  negsuc : ℕ → ℤ

-- -1, the error value of the functions that return a `DB_ID`.
abbrev pub minus_one : ℤ
minus_one = negsuc 0

abbrev pub int_eq : ℤ → ℤ → Bool
int_eq (pos a) (pos b) = a == b
int_eq (pos a) (negsuc b) = false
int_eq (negsuc a) (pos b) = false
int_eq (negsuc a) (negsuc b) = a == b

-- `z >= 0`
abbrev pub is_nonneg : ℤ → Bool
is_nonneg (pos a) = true
is_nonneg (negsuc a) = false

-- The conversion of a 64-bit value to a 32-bit `int`: the low 32 bits, read as signed.
abbrev pub to_int32 : ℤ → ℤ
to_int32 (pos n) = let m = n % 2 ^ 32 in if ltb m (2 ^ 31) then pos m else negsuc (2 ^ 32 - m - 1)
to_int32 (negsuc n) =
    let m = n % 2 ^ 32 in if ltb m (2 ^ 31) then negsuc m else pos (2 ^ 32 - m - 1)

pub int_eq_refl : (a : ℤ) → int_eq a a ≡ true
int_eq_refl (pos n) = ground arith
int_eq_refl (negsuc n) = ground arith

pub eq_of_int_eq : (a b : ℤ) → int_eq a b ≡ true → a ≡ b
eq_of_int_eq (pos a) (pos b) h = ground arith
eq_of_int_eq (pos a) (negsuc b) h = ground arith
eq_of_int_eq (negsuc a) (pos b) h = ground arith
eq_of_int_eq (negsuc a) (negsuc b) h = ground arith

-- The values that an `int` holds.
abbrev pub FitsInt : ℤ → Type 0
FitsInt (pos n) = n < 2 ^ 31
FitsInt (negsuc n) = n < 2 ^ 31

pub to_int32_fits : (z : ℤ) → FitsInt z → to_int32 z ≡ z
to_int32_fits (pos n) h = ground arith
to_int32_fits (negsuc n) h = ground arith
