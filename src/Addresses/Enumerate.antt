-- ===== src/Addresses/Enumerate.antt =====
-- util/get_server_ip_addresses.c: `enumerate` (the POSIX one), `get_server_ip_addresses` and
-- `free_server_ip_addresses`.
pub mod Distinct
pub mod Returned
use mathlib.Core.Option
use sending_system.Base.{
  ℕ, zero, suc, ◌+◌, Bool, true, false, Option, none, some, List, [], ◌∷◌, ◌++◌, Bytes, ◌==◌,
  if◌then◌else◌, length, snprintf,
}
use sending_system.Addresses.{IpList, ip_in_list, push_ip, prefix_from_mask_v4}
use sending_system.Addresses.Subnet.{
  prefix_from_mask_v6, key_size, with_prefix, subnet_key_v4, subnet_key_v6,
}

-- An element of the list of `getifaddrs`: without an address or a mask; IPv4, the address and the
-- mask in the byte order of the host; IPv6, both in 16 bytes; of another family. A mask has the
-- family of its address.
pub data Interface : Type 0 where
  no_address : Interface
  inet : ℕ → ℕ → Interface
  inet6 : Bytes → Bytes → Interface
  other_family : Interface

-- SERVER_IP_PLAIN and SERVER_IP_WITH_MASK
pub data MaskMode : Type 0 where
  plain with_mask : MaskMode

-- `ip_str`, `prefix` and `key` of an interface.
pub record Described : Type 0 where
  pub ip_str : Bytes
  pub prefix : ℕ
  pub key : Bytes

-- The two lists and their capacities, and the count of allocations.
pub record Found : Type 0 where
  pub seen : IpList
  pub result : IpList
  pub allocations : ℕ

abbrev pub no_ips : IpList
no_ips = record { ips = []; capacity = 0 }

-- What `get_server_ip_addresses` returns and leaves in `*count`; `freed` is the list `seen`, which is
-- freed at the end.
pub record Addresses : Type 0 where
  pub ips : Option (List Bytes)
  pub count : ℕ
  pub freed : List Bytes

-- The `entry` of an interface.
unfoldable pub entry_of : MaskMode → Described → Bytes
unfolding with_prefix
entry_of with_mask d = with_prefix d.ip_str d.prefix
entry_of plain d = snprintf key_size d.ip_str

-- A list that was never grown is NULL.
unfoldable pub returned : Found → Addresses
returned f =
    if f.result.capacity == 0
    then record { ips = none; count = 0; freed = f.seen.ips }
    else record { ips = some f.result.ips; count = length f.result.ips; freed = f.seen.ips }

module _ (ntop4 : ℕ → Option Bytes) (ntop6 : Bytes → Option Bytes) where
  -- The first part of the body of the loop; `none` is `continue`.
  unfoldable pub describe : Interface → Option Described
  unfolding prefix_from_mask_v4 prefix_from_mask_v6 subnet_key_v4 subnet_key_v6
  describe no_address = none
  describe (inet ip mask) = Option.bind (ntop4 ip) (λ ip_str.
      Option.bind (prefix_from_mask_v4 mask) (λ prefix.
        Option.map (λ key. record { ip_str = ip_str; prefix = prefix; key = key })
          (subnet_key_v4 ntop4 ntop6 ip prefix)))
  describe (inet6 ip mask) = Option.bind (ntop6 ip) (λ ip_str.
      Option.bind (prefix_from_mask_v6 mask) (λ prefix.
        Option.map (λ key. record { ip_str = ip_str; prefix = prefix; key = key })
          (subnet_key_v6 ntop4 ntop6 ip prefix)))
  describe other_family = none

  module _ (malloc : ℕ → Bool) (mode : MaskMode) where
    -- The two `push_ip`. `none` is a write out of bounds.
    unfoldable pub push_both : Described → Found → Option Found
    unfolding push_ip entry_of
    push_both d f =
        let (seen, n) = push_ip malloc f.seen d.key f.allocations in
        let (result, m) = push_ip malloc f.result (entry_of mode d) n in
        Option.bind seen
          (λ s. Option.map (λ r. record { seen = s; result = r; allocations = m }) result)

    -- The rest of the body.
    unfoldable pub visit : Option Described → Found → Option Found
    unfolding ip_in_list push_both
    visit none f = some f
    visit (some d) f = if ip_in_list f.seen.ips d.key then some f else push_both d f

    unfoldable pub visit_all : List Interface → Found → Option Found
    unfolding describe visit
    visit_all [] f = some f
    visit_all (i ∷ interfaces) f = Option.bind (visit (describe i) f) (visit_all interfaces)

    -- `getifaddrs` delivers `none` when it fails.
    unfoldable pub enumerate : Option (List Interface) → ℕ → Option Found
    unfolding visit_all
    enumerate none n = some (record { seen = no_ips; result = no_ips; allocations = n })
    enumerate (some interfaces) n =
        visit_all interfaces (record { seen = no_ips; result = no_ips; allocations = n })

    unfoldable pub get_server_ip_addresses : Option (List Interface) → ℕ → Option Addresses
    unfolding enumerate returned
    get_server_ip_addresses interfaces n = Option.map returned (enumerate interfaces n)

-- The strings that the loop up to `count` frees, in their order; the array follows them. The list has
-- `count` strings at least.
unfoldable pub free_server_ip_addresses : Option (List Bytes) → ℕ → List Bytes
free_server_ip_addresses none count = []
free_server_ip_addresses (some ips) zero = []
free_server_ip_addresses (some []) (suc count) = []
free_server_ip_addresses (some (ip ∷ ips)) (suc count) =
    ip ∷ free_server_ip_addresses (some ips) count
