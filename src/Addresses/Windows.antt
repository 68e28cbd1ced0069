-- ===== src/Addresses/Windows.antt =====
-- util/get_server_ip_addresses.c: `enumerate` as it is compiled for Windows, and
-- `get_server_ip_addresses` with it.
pub mod Same
use mathlib.Core.Option
use sending_system.Base.{
  ℕ, suc, ◌+◌, Bool, true, false, Option, none, some, List, [], ◌∷◌, Bytes, if◌then◌else◌,
}
use sending_system.Addresses.Subnet.{subnet_key_v4, subnet_key_v6}
use sending_system.Addresses.Enumerate.{
  MaskMode, Described, Found, Addresses, no_ips, visit, returned,
}

-- An element of the list `FirstUnicastAddress` with its `OnLinkPrefixLength`: IPv4, in the byte
-- order of the host; IPv6, in 16 bytes; of another family.
pub data Unicast : Type 0 where
  inet : ℕ → ℕ → Unicast
  inet6 : Bytes → ℕ → Unicast
  other_family : Unicast

-- The two calls of `GetAdaptersAddresses`: whether the first one returns ERROR_BUFFER_OVERFLOW, and
-- the addresses of each adapter after the second one, `none` unless it returns NO_ERROR.
pub record Adapters : Type 0 where
  pub overflow : Bool
  pub adapters : Option (List (List Unicast))

module _ (ntop4 : ℕ → Option Bytes) (ntop6 : Bytes → Option Bytes) where
  -- The first part of the body of the loops; `none` is `continue`.
  unfoldable pub describe_unicast : Unicast → Option Described
  unfolding subnet_key_v4 subnet_key_v6
  describe_unicast (inet ip prefix) = Option.bind (ntop4 ip) (λ ip_str.
      Option.map (λ key. record { ip_str = ip_str; prefix = prefix; key = key })
        (subnet_key_v4 ntop4 ntop6 ip prefix))
  describe_unicast (inet6 ip prefix) = Option.bind (ntop6 ip) (λ ip_str.
      Option.map (λ key. record { ip_str = ip_str; prefix = prefix; key = key })
        (subnet_key_v6 ntop4 ntop6 ip prefix))
  describe_unicast other_family = none

  module _ (malloc : ℕ → Bool) (mode : MaskMode) where
    -- The inner loop, and the outer one. `none` is a write out of bounds.
    unfoldable pub visit_unicasts : List Unicast → Found → Option Found
    unfolding describe_unicast visit
    visit_unicasts [] f = some f
    visit_unicasts (u ∷ unicasts) f =
        Option.bind (visit ntop4 ntop6 malloc mode (describe_unicast u) f) (visit_unicasts unicasts)

    unfoldable pub visit_adapters : List (List Unicast) → Found → Option Found
    unfolding visit_unicasts
    visit_adapters [] f = some f
    visit_adapters (a ∷ adapters) f = Option.bind (visit_unicasts a f) (visit_adapters adapters)

    -- The buffer of the adapters is one allocation. Its release, and that of the list of POSIX, are
    -- left out.
    unfoldable pub enumerate_adapters : Adapters → ℕ → Option Found
    unfolding visit_adapters
    enumerate_adapters o n =
        let nothing : Found = record { seen = no_ips; result = no_ips; allocations = suc n } in
        if o.overflow
        then (if malloc n
            then elim o.adapters [
              | none ↦ some nothing
              | some adapters ↦ visit_adapters adapters nothing
            ]
            else some nothing)
        else some (record nothing { allocations = n })

    unfoldable pub get_server_ip_addresses_windows : Adapters → ℕ → Option Addresses
    unfolding enumerate_adapters returned
    get_server_ip_addresses_windows o n = Option.map returned (enumerate_adapters o n)
