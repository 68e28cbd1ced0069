-- ===== src/Handlers/ContentLength.antt =====
-- The reading of Content-Length in `api_send_handler`: `atoll` and the bounds.
pub mod Decimal
use Prim.Native.Nat.{min}
use sending_system.Base.{
  ℕ, zero, suc, ◌+◌, ◌-◌, ◌*◌, ◌^◌, Bool, true, false, ◌&&◌, ◌||◌, Option, none, some, [], ◌∷◌,
  Bytes, ℤ, pos, negsuc, leb, ◌==◌, if◌then◌else◌,
}

-- MAX_MESSAGE_SIZE of util/config.h
abbrev pub max_message_size : ℕ
max_message_size = 0x6400000

-- `isspace` in the C locale.
abbrev pub is_space : ℕ → Bool
is_space c = c == b' ' || leb 9 c && leb c 13

unfoldable pub skip_spaces : Bytes → Bytes
skip_spaces [] = []
skip_spaces (c ∷ s) = if is_space c then skip_spaces s else c ∷ s

-- The value of the leading digits.
unfoldable pub read_digits : ℕ → Bytes → ℕ
read_digits acc [] = acc
read_digits acc (c ∷ s) =
    let rest = read_digits (acc * 10 + (c - b'0')) s in
    if leb b'0' c && leb c b'9' then rest else acc

-- A value out of the range of `long long` is cut to its bounds.
unfoldable pub with_sign : Bool → ℕ → ℤ
with_sign true n = elim (min n (2 ^ 63)) [ zero ↦ pos 0 | suc k ↦ negsuc k ]
with_sign false n = pos (min n (2 ^ 63 - 1))

unfoldable pub read_signed : Bytes → ℤ
unfolding read_digits with_sign
read_signed [] = pos 0
read_signed (c ∷ s) =
    if c == b'-'
    then with_sign true (read_digits 0 s)
    else if c == b'+'
    then with_sign false (read_digits 0 s)
    else with_sign false (read_digits 0 (c ∷ s))

unfoldable pub atoll : Bytes → ℤ
unfolding skip_spaces read_signed
atoll s = read_signed (skip_spaces s)

-- `content_length`: 0 if there is no header.
unfoldable pub content_length_of : Option Bytes → ℤ
unfolding atoll
content_length_of none = pos 0
content_length_of (some header) = atoll header

-- The length that passes the test, `none` for "Invalid Content-Length".
unfoldable pub accepted_length : ℤ → Option ℕ
accepted_length (pos zero) = none
accepted_length (pos (suc n)) = if leb (suc n) max_message_size then some (suc n) else none
accepted_length (negsuc n) = none
