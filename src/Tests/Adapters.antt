-- ===== src/Tests/Adapters.antt =====
-- Addresses on Windows.
use mathlib.Core.Option
use sending_system.Base.{◌≡◌, refl, true, some, List, [], ◌∷◌, arith, bytes_eq}
use sending_system.Addresses.Enumerate.{with_mask, get_server_ip_addresses}
use sending_system.Addresses.Enumerate.Distinct.{always}
use sending_system.Addresses.Windows.{Unicast, Adapters, get_server_ip_addresses_windows}
use sending_system.Addresses.Windows.Same.{as_interfaces, get_server_ip_addresses_windows_same}
use sending_system.Tests.Masks.{address6, ntop4, ntop6, second_on, how_many}

-- Two adapters, of which the first has two addresses of one subnet.
abbrev adapters : List (List Unicast)
adapters =
    (Unicast.inet 0x0A000001 24 ∷ Unicast.inet 0x0A000002 24 ∷ [])
    ∷ (Unicast.other_family ∷ Unicast.inet6 address6 67 ∷ [])
    ∷ []

abbrev delivered : Adapters
delivered = record { overflow = true; adapters = some adapters }

get_server_ip_addresses_windows_same_example :
    get_server_ip_addresses_windows ntop4 ntop6 second_on with_mask delivered 1
    ≡ get_server_ip_addresses ntop4 ntop6 second_on with_mask
        (as_interfaces (second_on 1) delivered)
        2
get_server_ip_addresses_windows_same_example =
    get_server_ip_addresses_windows_same ntop4 ntop6 second_on with_mask delivered 1
      ((omega arith, (omega arith, tt)), ((tt, (omega arith, tt)), tt))

two_subnets_found :
    how_many (get_server_ip_addresses_windows ntop4 ntop6 always with_mask delivered 0) ≡ 2
unfolding get_server_ip_addresses_windows Option.bind bytes_eq
two_subnets_found = refl
