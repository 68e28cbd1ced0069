-- ===== src/Timestamps.antt =====
-- util/now_timestamp.c. `strftime` is the C library's.
pub mod Order
use sending_system.Base.{
  ℕ, ◌+◌, ◌/◌, ◌%◌, ◌≤◌, Option, none, some, [], ◌∷◌, ◌++◌, Bytes, decimal, ltb, length,
  if◌then◌else◌,
}

-- The fields of `struct tm` that the format names.
pub record Tm : Type 0 where
  pub tm_year : ℕ
  pub tm_mon : ℕ
  pub tm_mday : ℕ
  pub tm_hour : ℕ
  pub tm_min : ℕ
  pub tm_sec : ℕ

-- Two decimal digits, as "%m", "%d", "%H", "%M" and "%S" write them.
unfoldable pub two_digits : ℕ → Bytes
two_digits n = (b'0' + n / 10) ∷ (b'0' + n % 10) ∷ []

-- "%Y-%m-%d %H:%M:%S"
unfoldable pub formatted : Tm → Bytes
unfolding two_digits decimal
formatted t =
    decimal (t.tm_year + 1900)
    ++ (b'-'
        ∷ (two_digits (t.tm_mon + 1)
            ++ (b'-'
                ∷ (two_digits t.tm_mday
                    ++ (b' '
                        ∷ (two_digits t.tm_hour
                            ++ (b':' ∷ (two_digits t.tm_min ++ (b':' ∷ two_digits t.tm_sec)))))))))

-- The string in a buffer of so many bytes; `none` is a buffer without a defined content.
unfoldable pub now_timestamp : Tm → ℕ → Option Bytes
unfolding formatted
now_timestamp local_time buffer_capacity =
    let text = formatted local_time in if ltb (length text) buffer_capacity then some text else none
