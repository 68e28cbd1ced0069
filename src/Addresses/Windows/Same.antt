-- ===== src/Addresses/Windows/Same.antt =====
-- Both versions of `enumerate` find the same addresses, where a prefix length and a mask say the same.
use mathlib.Core.Option
use native.Mathlib.Nat.{zero-add}
use mathlib.Core.List.{flatten, map-append}
use sending_system.Base.{
  ℕ, zero, suc, ◌+◌, ◌-◌, ◌*◌, ◌^◌, ◌≤◌, ◌<◌, ◌≡◌, ◌∙◌, refl, ap, subst, Bool, true, false, Option,
  none, some, List, [], ◌∷◌, ◌++◌, map, arith, Bytes, leb, ◌==◌, All, not, ◌&&◌, if◌then◌else◌,
  Bool-cases, Option-cases, inl, inr,
}
use sending_system.Addresses.Laws.{prefix_from_mask_v4_lem}
use sending_system.Addresses.Subnet.{byte_ones, prefix_loop, prefix_from_mask_v6}
use sending_system.Addresses.Subnet.Bits.{all_below, all_below_lem}
use sending_system.Addresses.Enumerate.{
  Interface, MaskMode, Found, describe, visit, visit_all, enumerate, returned,
  get_server_ip_addresses,
}
use sending_system.Addresses.Windows.{
  Unicast, Adapters, describe_unicast, visit_unicasts, visit_adapters, enumerate_adapters,
  get_server_ip_addresses_windows,
}

-- The byte with so many ones at its start, at most 7.
abbrev pub high_ones : ℕ → ℕ
high_ones k = 256 - 2 ^ (8 - k)

-- The mask of an IPv6 prefix, in so many bytes.
abbrev pub mask_of : ℕ → ℕ → Bytes
mask_of zero prefix = []
mask_of (suc n) prefix = (if leb 8 prefix then 255 else high_ones prefix) ∷ mask_of n (prefix - 8)

-- The interface of POSIX with the same address and the mask of the prefix.
unfoldable pub as_interface : Unicast → Interface
as_interface (Unicast.inet ip prefix) = Interface.inet ip (2 ^ 32 - 2 ^ (32 - prefix))
as_interface (Unicast.inet6 ip prefix) = Interface.inet6 ip (mask_of 16 prefix)
as_interface Unicast.other_family = Interface.other_family

-- The prefix is one of its family.
abbrev pub FitsFamily : Unicast → Type 0
FitsFamily (Unicast.inet ip prefix) = prefix ≤ 32
FitsFamily (Unicast.inet6 ip prefix) = prefix ≤ 128
FitsFamily Unicast.other_family = Unit

-- What `getifaddrs` delivers for the adapters; it fails where one of the calls for Windows fails.
abbrev pub as_interfaces : Bool → Adapters → Option (List Interface)
as_interfaces got o =
    if o.overflow
    then (if got then Option.map (λ l. map as_interface (flatten l)) o.adapters else none)
    else none

-- Such a byte is read back: a check of all eight.
reads_back : Option ℕ → ℕ → Bool
reads_back none k = false
reads_back (some j) k = j == k && not (high_ones k == 255)

reads_back_lem :
    (o : Option ℕ) (k : ℕ) → reads_back o k ≡ true → (o ≡ some k) × ((high_ones k == 255) ≡ false)
unfolding reads_back
reads_back_lem none k h = ground arith
reads_back_lem (some j) k h = (ground (arith, h), ground (arith, h))

all_read_back : all_below 8 (λ k. reads_back (byte_ones 9 (high_ones k)) k) ≡ true
unfolding all_below reads_back byte_ones
all_read_back = refl

high_ones_lem :
    (k : ℕ) → k < 8 → (byte_ones 9 (high_ones k) ≡ some k) × ((high_ones k == 255) ≡ false)
high_ones_lem k below =
    reads_back_lem (byte_ones 9 (high_ones k)) k
      (all_below_lem 8 (λ k. reads_back (byte_ones 9 (high_ones k)) k) k all_read_back below)

prefix_loop-mask_of :
    (n prefix start : ℕ)
    → prefix ≤ 8 * n
    → prefix_loop (mask_of n prefix) start ≡ some (start + prefix)
unfolding prefix_loop
prefix_loop-mask_of zero prefix start fits = ap some (omega arith)
prefix_loop-mask_of (suc n) prefix start fits = elim (Bool-cases (leb 8 prefix)) [
  | inl full ↦
      rw (full, prefix_loop-mask_of n (prefix - 8) (start + 8) (omega arith))
        (ap some (ground (arith, full)))
  | inr short ↦
      let (counted, cut) = high_ones_lem prefix (ground (arith, short)) in
      rw (short, cut, counted) refl
]

module _ (ntop4 : ℕ → Option Bytes) (ntop6 : Bytes → Option Bytes) where
  describe_same :
      (u : Unicast)
      → FitsFamily u
      → describe_unicast ntop4 ntop6 u ≡ describe ntop4 ntop6 (as_interface u)
  unfolding describe_unicast describe as_interface prefix_from_mask_v6 Option.bind
  describe_same (Unicast.inet ip prefix) fits =
      let found = (prefix_from_mask_v4_lem 0 prefix (32 - prefix) (omega arith) (omega arith)).1 in
      elim (Option-cases (ntop4 ip)) [
        | inl unnamed ↦ rw (unnamed) refl
        | inr (text, named) ↦ rw (named, found) refl
      ]
  describe_same (Unicast.inet6 ip prefix) fits =
      let found : prefix_loop (mask_of 16 prefix) 0 ≡ some prefix =
        prefix_loop-mask_of 16 prefix 0 fits ∙ ap some (zero-add prefix) in
      elim (Option-cases (ntop6 ip)) [
        | inl unnamed ↦ rw (unnamed) refl
        | inr (text, named) ↦ rw (named, found) refl
      ]
  describe_same Unicast.other_family fits = refl

  module _ (malloc : ℕ → Bool) (mode : MaskMode) where
    visit_all-append :
        (xs ys : List Interface) (f : Found)
        → visit_all ntop4 ntop6 malloc mode (xs ++ ys) f
          ≡ Option.bind
              (visit_all ntop4 ntop6 malloc mode xs f)
              (visit_all ntop4 ntop6 malloc mode ys)
    unfolding visit_all Option.bind
    visit_all-append [] ys f = refl
    visit_all-append (x ∷ xs) ys f =
        elim (Option-cases (visit ntop4 ntop6 malloc mode (describe ntop4 ntop6 x) f)) [
          | inl out ↦ rw (out) refl
          | inr (f', goes) ↦ rw (goes) (visit_all-append xs ys f')
        ]

    visit_unicasts_same :
        (us : List Unicast) (f : Found)
        → All FitsFamily us
        → visit_unicasts ntop4 ntop6 malloc mode us f
          ≡ visit_all ntop4 ntop6 malloc mode (map as_interface us) f
    unfolding visit_unicasts visit_all Option.bind
    visit_unicasts_same [] f fits = refl
    visit_unicasts_same (u ∷ us) f (here, fits) =
        elim (Option-cases
          (visit ntop4 ntop6 malloc mode (describe ntop4 ntop6 (as_interface u)) f)) [
            | inl out ↦ rw (describe_same u here, out) refl
            | inr (f', goes) ↦ rw (describe_same u here, goes) (visit_unicasts_same us f' fits)
          ]

    visit_adapters_same :
        (adapters : List (List Unicast)) (f : Found)
        → All (All FitsFamily) adapters
        → visit_adapters ntop4 ntop6 malloc mode adapters f
          ≡ visit_all ntop4 ntop6 malloc mode (map as_interface (flatten adapters)) f
    unfolding visit_adapters visit_all flatten Option.bind
    visit_adapters_same [] f fits = refl
    visit_adapters_same (a ∷ adapters) f (here, fits) =
        let us = map as_interface a in
        let rest = map as_interface (flatten adapters) in
        rw
          (
            map-append as_interface a (flatten adapters),
            visit_all-append us rest f,
            visit_unicasts_same a f here,
          )
          (elim (Option-cases (visit_all ntop4 ntop6 malloc mode us f)) [
            | inl out ↦ rw (out) refl
            | inr (f', goes) ↦ rw (goes) (visit_adapters_same adapters f' fits)
          ])

abbrev pub AllFit : Option (List (List Unicast)) → Type 0
AllFit none = Unit
AllFit (some adapters) = All (All FitsFamily) adapters

-- Compiled for Windows, `get_server_ip_addresses` returns what it returns on POSIX for interfaces with
-- the same addresses in the same order, a prefix length standing for the mask of so many ones, and
-- whichever allocations fail; where a call of `GetAdaptersAddresses` or the allocation of its buffer
-- fails, what it returns there if `getifaddrs` fails. The prefix lengths are those of their families,
-- at most 32 and 128.
pub get_server_ip_addresses_windows_same :
    (ntop4 : ℕ → Option Bytes) (ntop6 : Bytes → Option Bytes) (malloc : ℕ → Bool) (mode : MaskMode)
    (o : Adapters) (n : ℕ)
    → AllFit o.adapters
    → get_server_ip_addresses_windows ntop4 ntop6 malloc mode o n
      ≡ get_server_ip_addresses ntop4 ntop6 malloc mode (as_interfaces (malloc n) o) (suc n)
unfolding get_server_ip_addresses_windows get_server_ip_addresses enumerate enumerate_adapters
get_server_ip_addresses_windows_same ntop4 ntop6 malloc mode o n fit =
    elim (Bool-cases o.overflow) [
      | inr failed ↦ rw (failed) refl
      | inl asked ↦ elim (Bool-cases (malloc n)) [
        | inr refused ↦ rw (asked, refused) refl
        | inl got ↦ elim (Option-cases o.adapters) [
          | inl failed ↦ rw (asked, got, failed) refl
          | inr (adapters, found) ↦
              let fits : All (All FitsFamily) adapters = subst AllFit found fit in
              rw (asked, got, found)
                (ap (Option.map returned)
                  (visit_adapters_same ntop4 ntop6 malloc mode adapters _ fits))
        ]
      ]
    ]
