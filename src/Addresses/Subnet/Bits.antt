-- ===== src/Addresses/Subnet/Bits.antt =====
-- Masks and networks of IPv6 as strings of bits, the highest bit of each byte first.
use sending_system.Base.{
  ℕ, zero, suc, ◌+◌, ◌%◌, ◌^◌, ◌≤◌, ◌<◌, ◌≡◌, refl, Bool, true, false, ◌&&◌, Option, none, some,
  List, [], ◌∷◌, ◌++◌, arith, Bytes, All, leb, ◌==◌, length, if◌then◌else◌, Bool-cases, inl, inr,
  ap, ◌∙◌,
}
use sending_system.Addresses.Subnet.{byte_ones, prefix_loop, prefix_from_mask_v6}

-- The `k` lowest bits of a number, the highest of them first.
unfoldable pub low_bits : ℕ → ℕ → List Bool
low_bits zero b = []
low_bits (suc k) b = leb (2 ^ k) (b % 2 ^ suc k) ∷ low_bits k b

unfoldable pub bits : Bytes → List Bool
unfolding low_bits
bits [] = []
bits (b ∷ bytes) = low_bits 8 b ++ bits bytes

-- The length of the run of ones at the start.
unfoldable pub ones : List Bool → ℕ
ones [] = 0
ones (true ∷ rest) = suc (ones rest)
ones (false ∷ rest) = 0

unfoldable pub all_below : ℕ → (ℕ → Bool) → Bool
all_below zero test = true
all_below (suc n) test = test n && all_below n test

pub all_below_lem :
    (n : ℕ) (test : ℕ → Bool) (b : ℕ) → all_below n test ≡ true → b < n → test b ≡ true
unfolding all_below
all_below_lem zero test b h below = absurd (omega arith)
all_below_lem (suc n) test b h below = elim (Bool-cases (b == n)) [
  | inl same ↦
      let e : b ≡ n = ground (arith, same) in
      let here : test n ≡ true = ground (arith, h) in ap test e ∙ here
  | inr other ↦ all_below_lem n test b (ground (arith, h)) (ground (arith, other, below))
]

-- The loop over the bits of a byte counts its leading ones; they are eight for 255 alone.
agrees : Option ℕ → ℕ → ℕ → Bool
agrees none n b = false
agrees (some k) n b = k == n && ((if b == 255 then 1 else 0) == (if n == 8 then 1 else 0))

agrees_lem :
    (o : Option ℕ) (n b : ℕ)
    → agrees o n b ≡ true
    → (o ≡ some n) × ((b ≡ 255 → n ≡ 8) × (n ≡ 8 → b ≡ 255))
unfolding agrees
agrees_lem none n b h = ground arith
agrees_lem (some k) n b h = (ground (arith, h), (ground (arith, h), ground (arith, h)))

counts : ℕ → Bool
unfolding agrees byte_ones low_bits ones
counts b = agrees (byte_ones 9 b) (ones (low_bits 8 b)) b

all_count : all_below 256 counts ≡ true
unfolding all_below counts
all_count = refl

-- Eight ones, and then the run goes on; fewer, and it ends in this byte.
ones_all :
    (b : ℕ) (rest : List Bool)
    → ones (low_bits 8 b) ≡ 8
    → ones (low_bits 8 b ++ rest) ≡ 8 + ones rest
unfolding ones low_bits
ones_all b rest h = ground (arith, h)

ones_short : (xs rest : List Bool) → ones xs < length xs → ones (xs ++ rest) ≡ ones xs
unfolding ones
ones_short [] rest h = absurd (omega arith)
ones_short (true ∷ xs) rest h = ap suc (ones_short xs rest (omega arith))
ones_short (false ∷ xs) rest h = refl

ones_le : (xs : List Bool) → ones xs ≤ length xs
unfolding ones
ones_le [] = omega arith
ones_le (true ∷ xs) = omega (arith, ones_le xs)
ones_le (false ∷ xs) = omega arith

byte_ones_lem :
    (b : ℕ)
    → b < 256
    → (byte_ones 9 b ≡ some (ones (low_bits 8 b)))
      × ((b ≡ 255 → ones (low_bits 8 b) ≡ 8) × (ones (low_bits 8 b) ≡ 8 → b ≡ 255))
unfolding counts
byte_ones_lem b below =
    agrees_lem (byte_ones 9 b) (ones (low_bits 8 b)) b (all_below_lem 256 counts b all_count below)

prefix_loop-ones :
    (mask : Bytes) (prefix : ℕ)
    → All (λ b. b < 256) mask
    → prefix_loop mask prefix ≡ some (prefix + ones (bits mask))
unfolding prefix_loop bits ones
prefix_loop-ones [] prefix below = ap some (omega arith)
prefix_loop-ones (b ∷ mask) prefix (here, below) =
    let (counted, (full, back)) = byte_ones_lem b here in
    elim (Bool-cases (b == 255)) [
      | inl all ↦
          let e = full (ground (arith, all)) in
          rw (all, prefix_loop-ones mask (prefix + 8) below, ones_all b (bits mask) e)
            (ap some (omega arith))
      | inr some_zero ↦
          let short : ones (low_bits 8 b) < 8 =
            ground (arith, some_zero, back, ones_le (low_bits 8 b)) in
          rw (some_zero, counted, ones_short (low_bits 8 b) (bits mask) short) refl
    ]

-- The loops of `prefix_from_mask_v6` end, and the prefix is the length of the run of ones at the
-- start of the mask.
pub prefix_from_mask_v6-ones :
    (mask : Bytes) → All (λ b. b < 256) mask → prefix_from_mask_v6 mask ≡ some (ones (bits mask))
unfolding prefix_from_mask_v6
prefix_from_mask_v6-ones mask below = prefix_loop-ones mask 0 below ∙ ap some (omega arith)
