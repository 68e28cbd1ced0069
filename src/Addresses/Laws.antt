-- ===== src/Addresses/Laws.antt =====
-- The list of addresses never overflows, and the prefix of a mask is its length.
use native.Mathlib.Nat.{mul_assoc, mul_comm, mul-one, pow-suc}
use sending_system.Base.{
  ℕ, zero, suc, ◌+◌, ◌-◌, ◌*◌, ◌%◌, ◌^◌, ◌≤◌, ◌<◌, ◌≡◌, ◌∙◌, ◌⊎◌, refl, ap, sym, Bool, Option, some,
  [], ◌∷◌, ◌++◌, arith, Bytes, leb, length, length-append, Bool-cases, inl, inr,
}
use sending_system.Sqlite.Rows.{next_cap}
use sending_system.Addresses.{IpList, push_copy, push_ip, leading_ones, prefix_from_mask_v4}

-- The strings fit the array.
abbrev pub Fits : IpList → Type 0
Fits l = length l.ips ≤ l.capacity

-- Nothing, or the text behind the others.
abbrev pub Pushed : IpList → Bytes → Option IpList → Type 0
Pushed l text result =
    (l' : IpList) × (result ≡ some l')
    × Fits l'
    × ((l'.ips ≡ l.ips) ⊎ (l'.ips ≡ l.ips ++ (text ∷ [])))

module _ (malloc : ℕ → Bool) where
  push_copy-Pushed :
      (l : IpList) (text : Bytes) (n : ℕ)
      → length l.ips < l.capacity
      → Pushed l text (push_copy malloc l text n).0
  unfolding push_copy
  push_copy-Pushed l text n room = elim (Bool-cases (malloc n)) [
    | inr refused ↦ (l, rw (refused, push_copy) refl, omega arith, inl refl)
    | inl got ↦ (
      record l { ips = l.ips ++ (text ∷ []) },
      ground arith,
      omega (arith, length-append l.ips (text ∷ [])),
      inr refl,
    )
  ]

  -- On a list that fits its array, and whatever allocations fail, `push_ip` never writes out of
  -- bounds: it puts the text behind the others or leaves the list as it is, and the list still
  -- fits.
  pub push_ip-Pushed :
      (l : IpList) (text : Bytes) (n : ℕ) → Fits l → Pushed l text (push_ip malloc l text n).0
  unfolding push_ip next_cap
  push_ip-Pushed l text n fits = elim (Bool-cases (leb l.capacity (length l.ips))) [
    | inr free ↦ rw (free, push_ip) (push_copy-Pushed l text n (ground arith))
    | inl full ↦ elim (Bool-cases (malloc n)) [
      | inr refused ↦ (l, ground arith, fits, inl refl)
      | inl grown ↦
          rw (full, grown)
            (push_copy-Pushed (record l { capacity = next_cap l.capacity }) text (suc n)
              (ground (arith, fits)))
    ]
  ]

-- A power of two is positive.
pow_pos : (k : ℕ) → 0 < 2 ^ k
pow_pos zero = omega arith
pow_pos (suc k) = omega (arith, pow_pos k)

le-mul : (a y : ℕ) → 0 < y → a ≤ a * y
le-mul a zero h = absurd (omega arith)
le-mul a (suc y) h = ground arith

factor_pos : (a y : ℕ) → a * y ≡ 2 ^ 32 → 0 < a
factor_pos zero y e = absurd (omega (arith, e, mul_comm 0 y))
factor_pos (suc a) y e = omega arith

leading_ones-mask :
    (k x fuel : ℕ) → x * 2 ^ k ≡ 2 ^ 32 → k < fuel → leading_ones fuel (2 ^ 32 - x) ≡ some k
unfolding leading_ones
leading_ones-mask k x zero e h = absurd (omega arith)
leading_ones-mask zero x (suc fuel) e h = ground arith
leading_ones-mask (suc k) x (suc fuel) e h =
    let e' : x * 2 * 2 ^ k ≡ 2 ^ 32 = mul_assoc x 2 (2 ^ k) ∙ ap (λ y. x * y) (omega arith) ∙ e in
    let bound : x * 2 ≤ 2 ^ 32 = omega (arith, le-mul (x * 2) (2 ^ k) (pow_pos k), e') in
    let pos : 0 < x = factor_pos x (2 ^ suc k) e in
    let next : (2 ^ 32 - x) * 2 % 2 ^ 32 ≡ 2 ^ 32 - x * 2 = ground (arith, bound, pos) in
    ground (arith, next, leading_ones-mask k (x * 2) fuel e' (omega arith))

-- Each turn doubles what the mask lacks to 2 ^ 32.
leading_ones_ends :
    (fuel x : ℕ)
    → 0 < x
    → x ≤ 2 ^ 32
    → 2 ^ 33 ≤ x * 2 ^ fuel
    → (k : ℕ) × (leading_ones fuel (2 ^ 32 - x) ≡ some k) × (k < fuel)
unfolding leading_ones
leading_ones_ends zero x pos below enough = absurd (ground arith)
leading_ones_ends (suc fuel) x pos below enough = elim (Bool-cases (leb (2 ^ 31) (2 ^ 32 - x))) [
  | inr short ↦ (0, rw short refl, omega arith)
  | inl set ↦
      let e : x * 2 * 2 ^ fuel ≡ x * 2 ^ suc fuel =
        mul_assoc x 2 (2 ^ fuel) ∙ ap (λ y. x * y) (omega arith) in
      let next : (2 ^ 32 - x) * 2 % 2 ^ 32 ≡ 2 ^ 32 - x * 2 = ground arith in
      let (k, found, fits) =
        leading_ones_ends fuel (x * 2) (omega arith) (ground arith) (omega (arith, e, enough)) in
      (suc k, ground (arith, next, found), omega arith)
]

pow_split : (k j s : ℕ) → k + j ≡ s → 2 ^ j * 2 ^ k ≡ 2 ^ s
pow_split zero j s e = mul-one (2 ^ j) ∙ ap (λ n. 2 ^ n) (omega arith)
pow_split (suc k) j zero e = absurd (omega arith)
pow_split (suc k) j (suc s) e =
    ap (λ y. 2 ^ j * y) (pow-suc 2 k)
    ∙ sym (mul_assoc (2 ^ j) (2 ^ k) 2)
    ∙ ap (λ y. y * 2) (pow_split k j s (omega arith))
    ∙ sym (pow-suc 2 s)

-- The loop of `prefix_from_mask_v4` ends for every mask of 32 bits, with a prefix of at most 32;
-- and a mask of `k` ones, followed by `j` zeros, `k + j` being 32, has the prefix `k`.
pub prefix_from_mask_v4_lem :
    (mask k j : ℕ)
    → mask < 2 ^ 32
    → k + j ≡ 32
    → ((p : ℕ) × (prefix_from_mask_v4 mask ≡ some p) × (p ≤ 32))
      × (prefix_from_mask_v4 (2 ^ 32 - 2 ^ j) ≡ some k)
unfolding prefix_from_mask_v4
prefix_from_mask_v4_lem mask k j below e =
    let x : ℕ = 2 ^ 32 - mask in
    let (p, ends, fits) = leading_ones_ends 33 x (omega arith) (omega arith) (ground arith) in
    let back : mask ≡ 2 ^ 32 - x = omega arith in
    (
      (p, ap (leading_ones 33) back ∙ ends, omega arith),
      leading_ones-mask k (2 ^ j) 33 (pow_split k j 32 e) (omega arith),
    )
