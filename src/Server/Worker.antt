-- ===== src/Server/Worker.antt =====
-- Server.c: the outcomes of the calls of `main`, and `log_addresses_worker`, which runs in a thread of
-- its own.
use sending_system.Base.{
  ℕ, Bool, Option, none, some, List, [], ◌∷◌, ◌++◌, map, Bytes, codes, decimal, ℤ,
}
use sending_system.System.{World, emit, buffer, ip_list, acquire, access, release}
use sending_system.Addresses.Enumerate.{Interface, Addresses, with_mask, get_server_ip_addresses}
use sending_system.PublicIp.{Curl, Upnp, get_public_ip_http, get_public_ip_upnp}

-- The outcomes of the calls of `main` that are not SQLite's. `sysconf` is -1 when it fails.
pub record Host : Type 0 where
  pub sigaction_int : Bool
  pub sigaction_term : Bool
  pub pthread_create : Bool
  pub sysconf : ℤ
  -- `false` is NULL.
  pub mg_start : List (Bytes × Bytes) → Bool
  -- What the thread calls: `getifaddrs`, `inet_ntop`, libcurl, miniupnpc and two allocators, one for
  -- the list of addresses and one for the texts.
  pub interfaces : Option (List Interface)
  pub ntop4 : ℕ → Option Bytes
  pub ntop6 : Bytes → Option Bytes
  pub list_malloc : ℕ → Bool
  pub text_malloc : ℕ → Bool
  pub curl : Curl
  pub upnp : Upnp
  -- What `print_pwd` finds; `errno` and its text at the calls of `print_error` that a function makes,
  -- by their number; and __FILE__ in the two files.
  pub getcwd : Option Bytes
  pub last_error : (function : Bytes) → ℕ → ℕ × Bytes
  pub server_file : Bytes
  pub file_service_file : Bytes

-- The lines for the local addresses. The list that `get_server_ip_addresses` returns is freed after
-- them, by `free_server_ip_addresses`.
unfoldable pub local_lines : Option (List Bytes) → ℕ → World Unit → List Bytes × World Unit
unfolding decimal
local_lines none n w = (codes "Local IP addresses: none found\n" ∷ [], w)
local_lines (some ips) n w = (
  (codes "Local IP addresses (" ++ (decimal n ++ codes "):\n"))
      ∷ map (λ ip. codes "  " ++ (ip ++ codes "\n")) ips,
  emit (release ip_list) (emit (access ip_list) (emit (acquire ip_list) w)),
)

-- `none` stands for a write out of bounds.
unfoldable pub local_addresses : Option Addresses → World Unit → List Bytes × World Unit
unfolding local_lines
local_addresses none w = ([], w)
local_addresses (some a) w = local_lines a.ips a.count w

-- The line for a public address, if there is one; the text is freed.
unfoldable pub public_line : Bytes → Bytes → World Unit → List Bytes × World Unit
public_line title ip w =
    ((title ++ (ip ++ codes "\n")) ∷ [], emit (release buffer) (emit (access buffer) w))

-- The second way to the public address.
unfoldable pub fall_back : Host → World Unit → List Bytes × World Unit
unfolding get_public_ip_http public_line
fall_back host w =
    let (found, w1) = get_public_ip_http host.text_malloc host.curl w in
    elim found [
      | none ↦ (codes "Public IP: unknown (UPnP and HTTP both failed)\n" ∷ [], w1)
      | some ip ↦ public_line (codes "Public IP (HTTP): ") ip w1
    ]

unfoldable pub public_lines : Host → World Unit → List Bytes × World Unit
unfolding get_public_ip_upnp public_line fall_back
public_lines host w =
    let (found, w1) = get_public_ip_upnp host.text_malloc host.upnp w in
    elim found [
      | none ↦ fall_back host w1
      | some ip ↦ public_line (codes "Public IP (UPnP): ") ip w1
    ]

-- What `log_addresses_worker` passes to `print_info`, line by line.
unfoldable pub log_addresses_worker : Host → World Unit → List Bytes × World Unit
unfolding get_server_ip_addresses local_addresses public_lines
log_addresses_worker host w =
    let returned =
      get_server_ip_addresses host.ntop4 host.ntop6 host.list_malloc with_mask host.interfaces 0 in
    let (local, w1) = local_addresses returned w in
    let (public, w2) = public_lines host w1 in (local ++ public, w2)
