-- ===== src/Tests/Masks.antt =====
-- Addresses and masks.
use sending_system.Base.{
  ℕ, ◌==◌, ◌^◌, ◌-◌, ◌≤◌, ◌≡◌, ◌++◌, refl, Bool, true, false, if◌then◌else◌, Option, none, some,
  List, [], ◌∷◌, arith, Bytes, bytes_eq, take, map,
}
use mathlib.Core.Option
use sending_system.Addresses.{IpList, ip_in_list, prefix_from_mask_v4}
use sending_system.Addresses.Laws.{prefix_from_mask_v4_lem}
use sending_system.Addresses.Subnet.{prefix_from_mask_v6, network_v6}
use sending_system.Addresses.Subnet.Bits.{ones, bits, prefix_from_mask_v6-ones}
use sending_system.Addresses.Subnet.Network.{falses, network_v6-bits}
use sending_system.Addresses.Enumerate.{
  Interface, inet, inet6, no_address, with_mask, entry_of, free_server_ip_addresses, Addresses,
  get_server_ip_addresses,
}
use sending_system.Addresses.Enumerate.Distinct.{always, listed, firsts, described}
use sending_system.Addresses.Enumerate.Returned.{Counted, get_server_ip_addresses-listed}

abbrev full : IpList
full = record { ips = (49 ∷ []) ∷ []; capacity = 1 }

found : ip_in_list full.ips (49 ∷ []) ≡ true
unfolding ip_in_list bytes_eq
found = refl

-- 255.255.255.0
prefix_from_mask_v4_lem_example :
    ((p : ℕ) × (prefix_from_mask_v4 0xFFFFFF00 ≡ some p) × (p ≤ 32))
    × (prefix_from_mask_v4 (2 ^ 32 - 2 ^ 8) ≡ some 24)
prefix_from_mask_v4_lem_example = prefix_from_mask_v4_lem 0xFFFFFF00 24 8 (omega arith) refl

-- ffff:ffff:ffff:ffff:e000::
abbrev mask6 : Bytes
mask6 = 255 ∷ 255 ∷ 255 ∷ 255 ∷ 255 ∷ 255 ∷ 255 ∷ 255 ∷ 224 ∷ 0 ∷ 0 ∷ 0 ∷ 0 ∷ 0 ∷ 0 ∷ 0 ∷ []

abbrev pub address6 : Bytes
address6 = 32 ∷ 1 ∷ 13 ∷ 184 ∷ 1 ∷ 2 ∷ 3 ∷ 4 ∷ 95 ∷ 6 ∷ 7 ∷ 8 ∷ 9 ∷ 10 ∷ 11 ∷ 12 ∷ []

prefix_from_mask_v6-ones_example : prefix_from_mask_v6 mask6 ≡ some (ones (bits mask6))
prefix_from_mask_v6-ones_example = prefix_from_mask_v6-ones mask6 (
  omega arith,
  (
    omega arith,
    (
      omega arith,
      (
        omega arith,
        (
          omega arith,
          (
            omega arith,
            (
              omega arith,
              (
                omega arith,
                (
                  omega arith,
                  (
                    omega arith,
                    (
                      omega arith,
                      (omega arith, (omega arith, (omega arith, (omega arith, (omega arith, tt))))),
                    ),
                  ),
                ),
              ),
            ),
          ),
        ),
      ),
    ),
  ),
)

length_67 : prefix_from_mask_v6 mask6 ≡ some 67
unfolding prefix_from_mask_v6
length_67 = refl

network_v6-bits_example :
    bits (network_v6 address6 67) ≡ take 67 (bits address6) ++ falses (128 - 67)
network_v6-bits_example =
    network_v6-bits address6 67 refl
      (
        omega arith,
        (
          omega arith,
          (
            omega arith,
            (
              omega arith,
              (
                omega arith,
                (
                  omega arith,
                  (
                    omega arith,
                    (
                      omega arith,
                      (
                        omega arith,
                        (
                          omega arith,
                          (
                            omega arith,
                            (
                              omega arith,
                              (omega arith, (omega arith, (omega arith, (omega arith, tt)))),
                            ),
                          ),
                        ),
                      ),
                    ),
                  ),
                ),
              ),
            ),
          ),
        ),
      )
      (omega arith)

-- An `inet_ntop` that writes one byte.
abbrev pub ntop4 : ℕ → Option Bytes
ntop4 ip = some (ip ∷ [])

abbrev pub ntop6 : Bytes → Option Bytes
ntop6 ip = some ip

-- Two addresses of one subnet, and one of another.
abbrev interfaces : List Interface
interfaces =
    inet 0x0A000001 0xFFFFFF00 ∷ no_address ∷ inet 0x0A000002 0xFFFFFF00 ∷ inet6 address6 mask6 ∷ []

-- The first allocation fails.
abbrev pub second_on : ℕ → Bool
second_on n = if n == 0 then false else true

get_server_ip_addresses-listed_example :
    ((a : Addresses) × (get_server_ip_addresses ntop4 ntop6 second_on with_mask (some interfaces) 0
        ≡ some a)
      × Counted a)
    × (get_server_ip_addresses ntop4 ntop6 always with_mask (some interfaces) 0
        ≡ some (listed with_mask (firsts (described ntop4 ntop6 interfaces))))
    × (free_server_ip_addresses
          (listed with_mask (firsts (described ntop4 ntop6 interfaces))).ips
          (listed with_mask (firsts (described ntop4 ntop6 interfaces))).count
        ≡ map (entry_of with_mask) (firsts (described ntop4 ntop6 interfaces)))
get_server_ip_addresses-listed_example =
    get_server_ip_addresses-listed ntop4 ntop6 second_on with_mask interfaces 0

abbrev pub how_many : Option Addresses → ℕ
how_many none = 0
how_many (some a) = a.count

two_subnets :
    how_many (get_server_ip_addresses ntop4 ntop6 always with_mask (some interfaces) 0) ≡ 2
unfolding get_server_ip_addresses Option.bind bytes_eq
two_subnets = refl
