-- ===== src/Timestamps/Order.antt =====
-- The texts of times are ordered as the times are.
use sending_system.Base.{
  ℕ, suc, ◌+◌, ◌-◌, ◌/◌, ◌%◌, ◌≤◌, ◌<◌, ◌≡◌, ◌∙◌, refl, ap, Bool, true, false, some, [], ◌∷◌, ◌++◌,
  arith, Bytes, decimal, digits, ltb, ◌==◌, length, if◌then◌else◌,
}
use mathlib.Core.List.{append_assoc}
use sending_system.Timestamps.{Tm, two_digits, formatted, now_timestamp}

-- `memcmp` order, in which SQLite compares texts.
unfoldable pub bytes_lt : Bytes → Bytes → Bool
bytes_lt [] [] = false
bytes_lt [] (y ∷ ys) = true
bytes_lt (x ∷ xs) [] = false
bytes_lt (x ∷ xs) (y ∷ ys) =
    let rest = bytes_lt xs ys in if ltb x y then true else if x == y then rest else false

-- The one number decides, or, if they are equal, what follows.
abbrev pub first : ℕ → ℕ → Bool → Bool
first a b later = if ltb a b then true else if a == b then later else false

-- The one time is before the other.
unfoldable pub before : Tm → Tm → Bool
before a b = first a.tm_year b.tm_year (
    first a.tm_mon b.tm_mon (
      first a.tm_mday b.tm_mday
        (first a.tm_hour b.tm_hour (first a.tm_min b.tm_min (first a.tm_sec b.tm_sec false)))))

-- A time of a calendar with a year of four digits; a second may be a leap second.
pub record IsValid (t : Tm) : Type 0 where
  pub year : t.tm_year ≤ 8099
  pub mon : t.tm_mon ≤ 11
  pub mday : t.tm_mday ≤ 31
  pub hour : t.tm_hour ≤ 23
  pub min : t.tm_min ≤ 59
  pub sec : t.tm_sec ≤ 60

bytes_lt-two_digits :
    (a b : ℕ) (xs ys : Bytes)
    → a < 100
    → b < 100
    → bytes_lt (two_digits a ++ xs) (two_digits b ++ ys) ≡ first a b (bytes_lt xs ys)
unfolding bytes_lt two_digits
bytes_lt-two_digits a b xs ys ha hb = ground arith

first_split :
    (a b : ℕ) (later : Bool)
    → first (a / 100) (b / 100) (first (a % 100) (b % 100) later) ≡ first a b later
first_split a b later = ground arith

digits_more :
    (fuel n : ℕ) (rest : Bytes)
    → 10 ≤ n
    → digits (suc fuel) n rest ≡ digits fuel (n / 10) ((b'0' + n % 10) ∷ rest)
unfolding digits
digits_more fuel n rest h = ground arith

digits_last :
    (fuel n : ℕ) (rest : Bytes) → n < 10 → digits (suc fuel) n rest ≡ (b'0' + n % 10) ∷ rest
unfolding digits
digits_last fuel n rest h = ground arith

-- A year of four digits.
decimal_four :
    (n : ℕ) → 1000 ≤ n → n < 10000 → decimal n ≡ two_digits (n / 100) ++ two_digits (n % 100)
unfolding decimal two_digits
decimal_four n h1 h2 =
    let e : n + 1 ≡ suc (suc (suc (suc (n - 3)))) = omega arith in
    let a : n / 10 / 10 / 10 % 10 ≡ n / 100 / 10 = omega arith in
    let b : n / 10 / 10 % 10 ≡ n / 100 % 10 = omega arith in
    let c : n / 10 % 10 ≡ n % 100 / 10 = omega arith in
    let d : n % 10 ≡ n % 100 % 10 = omega arith in
    ap (λ fuel. digits fuel n []) e
    ∙ digits_more (suc (suc (suc (n - 3)))) n [] (omega arith)
    ∙ digits_more (suc (suc (n - 3))) (n / 10) _ (omega arith)
    ∙ digits_more (suc (n - 3)) (n / 10 / 10) _ (omega arith)
    ∙ digits_last (n - 3) (n / 10 / 10 / 10) _ (omega arith)
    ∙ rw (a, b, c, d) refl

bytes_lt-decimal :
    (a b : ℕ) (xs ys : Bytes)
    → a ≤ 8099
    → b ≤ 8099
    → bytes_lt (decimal (a + 1900) ++ xs) (decimal (b + 1900) ++ ys) ≡ first a b (bytes_lt xs ys)
bytes_lt-decimal a b xs ys ha hb =
    let m : ℕ = a + 1900 in
    let n : ℕ = b + 1900 in
    let deep : (y : ℕ) (zs : Bytes)
        → (two_digits (y / 100) ++ two_digits (y % 100)) ++ zs
          ≡ two_digits (y / 100) ++ (two_digits (y % 100) ++ zs) =
      λ y zs. append_assoc (two_digits (y / 100)) (two_digits (y % 100)) zs in
    let shift : first m n (bytes_lt xs ys) ≡ first a b (bytes_lt xs ys) = ground arith in
    rw
      (
        decimal_four m (omega arith) (omega arith),
        decimal_four n (omega arith) (omega arith),
        deep m xs,
        deep n ys,
      )
      (bytes_lt-two_digits (m / 100) (n / 100) (two_digits (m % 100) ++ xs)
          (two_digits (n % 100) ++ ys) (omega arith) (omega arith)
        ∙ ap (first (m / 100) (n / 100))
            (bytes_lt-two_digits (m % 100) (n % 100) xs ys (omega arith) (omega arith))
        ∙ first_split m n (bytes_lt xs ys)
        ∙ shift)

bytes_lt-same : (c : ℕ) (xs ys : Bytes) → bytes_lt (c ∷ xs) (c ∷ ys) ≡ bytes_lt xs ys
unfolding bytes_lt
bytes_lt-same c xs ys = ground arith

-- A field between a separator and what follows.
bytes_lt-field :
    (c a b : ℕ) (xs ys : Bytes)
    → a < 100
    → b < 100
    → bytes_lt (c ∷ (two_digits a ++ xs)) (c ∷ (two_digits b ++ ys)) ≡ first a b (bytes_lt xs ys)
bytes_lt-field c a b xs ys ha hb =
    bytes_lt-same c (two_digits a ++ xs) (two_digits b ++ ys) ∙ bytes_lt-two_digits a b xs ys ha hb

length-formatted : (t : Tm) → IsValid t → length (formatted t) ≡ 19
unfolding formatted two_digits
length-formatted t v =
    let year = decimal_four (t.tm_year + 1900) (omega (arith, v.year)) (omega (arith, v.year)) in
    rw (year) refl

now_timestamp-formatted :
    (t : Tm) (n : ℕ) → IsValid t → 20 ≤ n → now_timestamp t n ≡ some (formatted t)
unfolding now_timestamp
now_timestamp-formatted t n v room =
    let fits : ltb (length (formatted t)) n ≡ true = ground (arith, length-formatted t v, room) in
    rw (fits) refl

first_next : (a b : ℕ) (later : Bool) → first (a + 1) (b + 1) later ≡ first a b later
first_next a b later = ground arith

-- The fields after the year, one after the other.
abbrev from_sec : Tm → Bytes
from_sec t = two_digits t.tm_sec ++ []

abbrev from_min : Tm → Bytes
from_min t = two_digits t.tm_min ++ (b':' ∷ from_sec t)

abbrev from_hour : Tm → Bytes
from_hour t = two_digits t.tm_hour ++ (b':' ∷ from_min t)

abbrev from_mday : Tm → Bytes
from_mday t = two_digits t.tm_mday ++ (b' ' ∷ from_hour t)

abbrev from_mon : Tm → Bytes
from_mon t = two_digits (t.tm_mon + 1) ++ (b'-' ∷ from_mday t)

formatted-fields : (t : Tm) → formatted t ≡ decimal (t.tm_year + 1900) ++ (b'-' ∷ from_mon t)
unfolding formatted two_digits
formatted-fields t = refl

bytes_lt-formatted :
    (a b : Tm) → IsValid a → IsValid b → bytes_lt (formatted a) (formatted b) ≡ before a b
unfolding before bytes_lt
bytes_lt-formatted a b va vb =
    let sec =
      bytes_lt-field b':' a.tm_sec b.tm_sec [] [] (omega (arith, va.sec)) (omega (arith, vb.sec)) in
    let min =
      bytes_lt-field b':' a.tm_min b.tm_min (b':' ∷ from_sec a) (b':' ∷ from_sec b)
        (omega (arith, va.min)) (omega (arith, vb.min)) in
    let hour =
      bytes_lt-field b' ' a.tm_hour b.tm_hour (b':' ∷ from_min a) (b':' ∷ from_min b)
        (omega (arith, va.hour)) (omega (arith, vb.hour)) in
    let mday =
      bytes_lt-field b'-' a.tm_mday b.tm_mday (b' ' ∷ from_hour a) (b' ' ∷ from_hour b)
        (omega (arith, va.mday)) (omega (arith, vb.mday)) in
    let mon =
      bytes_lt-field b'-' (a.tm_mon + 1) (b.tm_mon + 1) (b'-' ∷ from_mday a) (b'-' ∷ from_mday b)
        (omega (arith, va.mon)) (omega (arith, vb.mon)) in
    let year =
      bytes_lt-decimal a.tm_year b.tm_year (b'-' ∷ from_mon a) (b'-' ∷ from_mon b) va.year
        vb.year in
    let from_min_lt = min ∙ ap (first a.tm_min b.tm_min) sec in
    let from_hour_lt = hour ∙ ap (first a.tm_hour b.tm_hour) from_min_lt in
    let from_mday_lt = mday ∙ ap (first a.tm_mday b.tm_mday) from_hour_lt in
    let from_mon_lt =
      mon ∙ first_next a.tm_mon b.tm_mon _ ∙ ap (first a.tm_mon b.tm_mon) from_mday_lt in
    rw (formatted-fields a, formatted-fields b) (year ∙ ap (first a.tm_year b.tm_year) from_mon_lt)

-- Two times with years of four digits fit a buffer of 20 bytes or more as 19 characters, and their
-- texts are ordered, byte by byte, as the times are.
pub now_timestamp-before :
    (a b : Tm) (buffer_capacity : ℕ)
    → IsValid a
    → IsValid b
    → 20 ≤ buffer_capacity
    → (s t : Bytes) × (now_timestamp a buffer_capacity ≡ some s)
      × (now_timestamp b buffer_capacity ≡ some t)
      × (length s ≡ 19)
      × (length t ≡ 19)
      × (bytes_lt s t ≡ before a b)
now_timestamp-before a b capacity va vb room = (
  formatted a,
  formatted b,
  now_timestamp-formatted a capacity va room,
  now_timestamp-formatted b capacity vb room,
  length-formatted a va,
  length-formatted b vb,
  bytes_lt-formatted a b va vb,
)
