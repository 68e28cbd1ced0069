-- ===== src/Handlers/ContentLength/Decimal.antt =====
-- A Content-Length that is written in decimal.
use Prim.Native.Nat.{min}
use sending_system.Base.{
  ℕ, zero, suc, ◌+◌, ◌-◌, ◌/◌, ◌%◌, ◌^◌, ◌≤◌, ◌<◌, ◌≡◌, ◌∙◌, refl, ap, false, ◌&&◌, none, some, [],
  ◌∷◌, arith, Bytes, digits, decimal, pos, ltb, leb, if◌then◌else◌, Bool-cases, inl, inr,
}
use sending_system.Handlers.ContentLength.{
  max_message_size, skip_spaces, read_digits, read_signed, with_sign, atoll, content_length_of,
  accepted_length,
}

-- The text starts with a digit.
abbrev StartsWithDigit : Bytes → Type 0
StartsWithDigit s = (c : ℕ) × (rest : Bytes) × (s ≡ c ∷ rest) × (b'0' ≤ c) × (c ≤ b'9')

digits-StartsWithDigit :
    (fuel n : ℕ) (rest : Bytes) → n < fuel → StartsWithDigit (digits fuel n rest)
unfolding digits
digits-StartsWithDigit zero n rest h = absurd (omega arith)
digits-StartsWithDigit (suc fuel) n rest h = elim (Bool-cases (ltb n 10)) [
  | inl last ↦ rw (last, digits) (b'0' + n % 10, rest, refl, omega arith, omega arith)
  | inr more ↦
      rw (more, digits)
        (digits-StartsWithDigit fuel (n / 10) ((b'0' + n % 10) ∷ rest) (ground (arith, more)))
]

-- The digits of a number, read back.
read_digits-digits :
    (fuel n : ℕ) (rest : Bytes) → n < fuel → read_digits 0 (digits fuel n rest) ≡ read_digits n rest
unfolding digits read_digits
read_digits-digits zero n rest h = absurd (omega arith)
read_digits-digits (suc fuel) n rest h = elim (Bool-cases (ltb n 10)) [
  | inl last ↦ rw (last, digits) (ground (arith, last))
  | inr more ↦
      rw (more, digits)
        (read_digits-digits fuel (n / 10) ((b'0' + n % 10) ∷ rest) (ground (arith, more))
          ∙ ground arith)
]

atoll_digit : (s : Bytes) → StartsWithDigit s → atoll s ≡ with_sign false (read_digits 0 s)
unfolding atoll skip_spaces read_signed
atoll_digit s (c, rest, e, low, high) = rw (e) (ground arith)

read_digits_nil : (n : ℕ) → read_digits n [] ≡ n
unfolding read_digits
read_digits_nil n = refl

atoll-decimal : (n : ℕ) → atoll (decimal n) ≡ pos (min n (2 ^ 63 - 1))
unfolding decimal with_sign
atoll-decimal n =
    atoll_digit (decimal n) (digits-StartsWithDigit (n + 1) n [] (omega arith))
    ∙ ap (with_sign false) (read_digits-digits (n + 1) n [] (omega arith))
    ∙ ap (with_sign false) (read_digits_nil n)

accepted_length_pos :
    (n : ℕ) → accepted_length (pos n) ≡ (if leb 1 n && leb n max_message_size then some n else none)
unfolding accepted_length
accepted_length_pos zero = refl
accepted_length_pos (suc n) = ground arith

-- A decimal Content-Length is accepted exactly if it is from 1 to MAX_MESSAGE_SIZE, and read as its
-- number, however many digits it has; without the header none is accepted.
pub accepted_length-decimal :
    (n : ℕ)
    → (accepted_length (content_length_of (some (decimal n)))
        ≡ (if leb 1 n && leb n max_message_size then some n else none))
      × (accepted_length (content_length_of none) ≡ none)
unfolding content_length_of accepted_length
accepted_length-decimal n = (
  ap accepted_length (atoll-decimal n) ∙ accepted_length_pos (min n (2 ^ 63 - 1)) ∙ ground arith,
  refl,
)
