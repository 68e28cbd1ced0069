-- ===== src/Addresses/Subnet/Network.antt =====
-- The network of an IPv6 address keeps the bits of its prefix.
use sending_system.Base.{
  ℕ, zero, suc, ◌+◌, ◌-◌, ◌*◌, ◌/◌, ◌%◌, ◌^◌, ◌≤◌, ◌<◌, ◌≡◌, refl, Bool, true, false, List, [], ◌∷◌,
  ◌++◌, arith, Bytes, All, ltb, length, take, take_of_length-le, length-append, Bool-cases, inl,
  inr, ap, ◌∙◌, sym,
}
use mathlib.Core.List.{append_assoc, append-nil}
use Prim.Native.Nat.{bit_and}
use sending_system.Addresses.Subnet.{keep_high, network_v6, zeros}
use sending_system.Addresses.Subnet.Bits.{low_bits, bits, all_below, all_below_lem}

abbrev pub falses : ℕ → List Bool
falses zero = []
falses (suc n) = false ∷ falses n

unfoldable same_bits : List Bool → List Bool → Bool
same_bits [] [] = true
same_bits (true ∷ xs) (true ∷ ys) = same_bits xs ys
same_bits (false ∷ xs) (false ∷ ys) = same_bits xs ys
same_bits _ _ = false

eq_of_same_bits : (xs ys : List Bool) → same_bits xs ys ≡ true → xs ≡ ys
unfolding same_bits
eq_of_same_bits [] [] h = refl
eq_of_same_bits [] (y ∷ ys) h = ground arith
eq_of_same_bits (true ∷ xs) [] h = ground arith
eq_of_same_bits (false ∷ xs) [] h = ground arith
eq_of_same_bits (true ∷ xs) (true ∷ ys) h = ap (λ l. true ∷ l) (eq_of_same_bits xs ys h)
eq_of_same_bits (false ∷ xs) (false ∷ ys) h = ap (λ l. false ∷ l) (eq_of_same_bits xs ys h)
eq_of_same_bits (true ∷ xs) (false ∷ ys) h = ground arith
eq_of_same_bits (false ∷ xs) (true ∷ ys) h = ground arith

-- The byte that is kept in its `r` highest bits.
abbrev kept : ℕ → ℕ → ℕ
kept r b = bit_and b (255 * 2 ^ (8 - r) % 256)

keeps : ℕ → ℕ → Bool
unfolding same_bits low_bits
keeps r b = same_bits (low_bits 8 (kept r b)) (take r (low_bits 8 b) ++ falses (8 - r))

all_keep : all_below 8 (λ r. all_below 256 (keeps r)) ≡ true
unfolding all_below keeps
all_keep = refl

kept_bits :
    (r b : ℕ) → r < 8 → b < 256 → low_bits 8 (kept r b) ≡ take r (low_bits 8 b) ++ falses (8 - r)
unfolding keeps
kept_bits r b hr hb =
    let row : all_below 256 (keeps r) ≡ true =
      all_below_lem 8 (λ q. all_below 256 (keeps q)) r all_keep hr in
    eq_of_same_bits (low_bits 8 (kept r b)) (take r (low_bits 8 b) ++ falses (8 - r))
      (all_below_lem 256 (keeps r) b row hb)

abbrev pub LowBytes : Bytes → Type 0
LowBytes = All (λ b. b < 256)

bits-append : (xs ys : Bytes) → bits (xs ++ ys) ≡ bits xs ++ bits ys
unfolding bits
bits-append [] ys = refl
bits-append (x ∷ xs) ys =
    ap (λ l. low_bits 8 x ++ l) (bits-append xs ys)
    ∙ sym (append_assoc (low_bits 8 x) (bits xs) (bits ys))

falses_add : (m n k : ℕ) → m + n ≡ k → falses m ++ falses n ≡ falses k
falses_add zero n k e = let e' : n ≡ k = omega (arith, e) in ap falses e'
falses_add (suc m) n zero e = absurd (omega (arith, e))
falses_add (suc m) n (suc k) e = ap (λ l. false ∷ l) (falses_add m n k (omega (arith, e)))

bits-zeros : (n : ℕ) → bits (zeros n) ≡ falses (8 * n)
unfolding bits low_bits
bits-zeros zero = refl
bits-zeros (suc n) =
    ap (λ l. falses 8 ++ l) (bits-zeros n) ∙ falses_add 8 (8 * n) (8 * suc n) (omega arith)

length-low_bits : (k b : ℕ) → length (low_bits k b) ≡ k
unfolding low_bits
length-low_bits zero b = refl
length-low_bits (suc k) b = ap suc (length-low_bits k b)

length-bits : (bytes : Bytes) → length (bits bytes) ≡ 8 * length bytes
unfolding bits
length-bits [] = refl
length-bits (b ∷ bytes) =
    omega (arith, length-append (low_bits 8 b) (bits bytes), length-low_bits 8 b, length-bits bytes)

module _ {ℓ} {A : Type ℓ} where
  take_past : (xs ys : List A) (n m : ℕ) → m ≡ length xs + n → take m (xs ++ ys) ≡ xs ++ take n ys
  take_past [] ys n m e = let e' : m ≡ n = omega (arith, e) in ap (λ k. take k ys) e'
  take_past (x ∷ xs) ys n zero e = absurd (omega (arith, e))
  take_past (x ∷ xs) ys n (suc m) e = ap (λ l. x ∷ l) (take_past xs ys n m (omega (arith, e)))

  take_within : (xs ys : List A) (n : ℕ) → n ≤ length xs → take n (xs ++ ys) ≡ take n xs
  take_within xs ys zero h = refl
  take_within [] ys (suc n) h = absurd (omega arith)
  take_within (x ∷ xs) ys (suc n) h = ap (λ l. x ∷ l) (take_within xs ys n (omega arith))

-- The bits of the first bytes.
bits-take :
    (n : ℕ) (bytes : Bytes) → n ≤ length bytes → bits (take n bytes) ≡ take (8 * n) (bits bytes)
unfolding bits
bits-take zero bytes h = refl
bits-take (suc n) [] h = absurd (omega arith)
bits-take (suc n) (b ∷ bytes) h =
    ap (λ l. low_bits 8 b ++ l) (bits-take n bytes (omega arith))
    ∙ sym (
        take_past (low_bits 8 b) (bits bytes) (8 * n) (8 * suc n)
          (omega (arith, length-low_bits 8 b)))

-- The bytes up to the one that is cut.
bits-keep_high :
    (i r p : ℕ) (bytes : Bytes)
    → r < 8
    → i < length bytes
    → LowBytes bytes
    → p ≡ 8 * i + r
    → bits (take (suc i) (keep_high i r bytes)) ≡ take p (bits bytes) ++ falses (8 - r)
unfolding bits keep_high
bits-keep_high i r p [] hr inside low e = absurd (omega arith)
bits-keep_high zero r p (b ∷ bytes) hr inside (here, low) e =
    let same : p ≡ r = omega (arith, e) in
    append-nil (low_bits 8 (kept r b))
    ∙ kept_bits r b hr here
    ∙ ap (λ k. take k (low_bits 8 b) ++ falses (8 - r)) (sym same)
    ∙ ap (λ l. l ++ falses (8 - r))
        (sym (take_within (low_bits 8 b) (bits bytes) p (omega (arith, same, length-low_bits 8 b))))
bits-keep_high (suc i) r p (b ∷ bytes) hr inside (here, low) e =
    let q : ℕ = 8 * i + r in
    ap (λ l. low_bits 8 b ++ l) (bits-keep_high i r q bytes hr (omega arith) low refl)
    ∙ sym (append_assoc (low_bits 8 b) (take q (bits bytes)) (falses (8 - r)))
    ∙ ap (λ l. l ++ falses (8 - r))
        (sym (take_past (low_bits 8 b) (bits bytes) q p (omega (arith, e, length-low_bits 8 b))))

-- For an IPv6 address of 16 bytes and a prefix of at most 128, the network of `subnet_key_v6` has the
-- first `prefix` bits of the address, and then zeros.
pub network_v6-bits :
    (ip : Bytes) (prefix : ℕ)
    → length ip ≡ 16
    → LowBytes ip
    → prefix ≤ 128
    → bits (network_v6 ip prefix) ≡ take prefix (bits ip) ++ falses (128 - prefix)
unfolding network_v6
network_v6-bits ip prefix full low fits =
    let i : ℕ = prefix / 8 in
    let r : ℕ = prefix % 8 in
    let e : prefix ≡ 8 * i + r = omega arith in
    elim (Bool-cases (ltb i 16)) [
      | inr whole ↦
          let top : prefix ≡ 128 = ground (arith, whole, e, fits) in
          let none_left : 128 - prefix ≡ 0 = omega (arith, top) in
          rw (whole, none_left)
            (sym (
              append-nil (take prefix (bits ip))
              ∙ take_of_length-le prefix (bits ip) (omega (arith, length-bits ip, top, full))))
      | inl inside ↦
          let within : i < 16 = ground (arith, inside) in
          elim (Bool-cases (ltb 0 r)) [
            | inl cut ↦
                let next : i + 1 ≡ suc i = omega arith in
                rw (inside, cut, next)
                  (bits-append (take (suc i) (keep_high i r ip)) (zeros (16 - suc i))
                    ∙ ap (λ l. l ++ bits (zeros (16 - suc i)))
                        (bits-keep_high i r prefix ip (omega arith) (omega (arith, within, full))
                          low e)
                    ∙ append_assoc (take prefix (bits ip)) (falses (8 - r))
                        (bits (zeros (16 - suc i)))
                    ∙ ap (λ l. take prefix (bits ip) ++ l)
                        (ap (λ l. falses (8 - r) ++ l) (bits-zeros (16 - suc i))
                          ∙ falses_add (8 - r) (8 * (16 - suc i)) (128 - prefix)
                              (omega (arith, e, within))))
            | inr exact ↦
                let even : prefix ≡ 8 * i = ground (arith, exact, e) in
                rw (inside, exact)
                  (bits-append (take i ip) (zeros (16 - i))
                    ∙ ap (λ l. l ++ bits (zeros (16 - i)))
                        (bits-take i ip (omega (arith, within, full)))
                    ∙ ap (λ k. take k (bits ip) ++ bits (zeros (16 - i))) (sym even)
                    ∙ ap (λ l. take prefix (bits ip) ++ l)
                        (bits-zeros (16 - i)
                          ∙ falses_add 0 (8 * (16 - i)) (128 - prefix) (omega (arith, even))))
          ]
    ]
