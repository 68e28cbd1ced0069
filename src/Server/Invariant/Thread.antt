-- ===== src/Server/Invariant/Thread.antt =====
-- The address thread gives back the list of local addresses and what its lookups take.
use sending_system.Base.{
  ℕ, List, ◌≡◌, ◌∙◌, true, false, ◌&&◌, Option, none, some, arith, Bytes, codes, if◌then◌else◌,
  Option-cases, inl, inr, subst,
}
use sending_system.System.{World, Resource, buffer, curl, devlist, urls, ip_list}
use sending_system.System.Held.{same, held, present}
use sending_system.Addresses.Enumerate.{Addresses, with_mask, get_server_ip_addresses}
use sending_system.PublicIp.{get_public_ip_http, get_public_ip_upnp}
use sending_system.PublicIp.Released.{get_public_ip_http-held, get_public_ip_upnp-held}
use sending_system.Server.Worker.{
  Host, public_line, fall_back, public_lines, local_lines, local_addresses, log_addresses_worker,
}

-- Nothing is held.
abbrev Free : World Unit → Type 0
Free w = (r : Resource) → held r w.log ≡ some false

-- Of the texts that a lookup returns, nothing else is held.
abbrev Found : World Unit → Option Bytes → World Unit → Type 0
Found w o w1 =
    (r : Resource)
    → held r w1.log ≡ (if present o && same r buffer then some true else held r w.log)

public_line-Free :
    (title ip : Bytes) (w w1 : World Unit)
    → Free w
    → Found w (some ip) w1
    → Free (public_line title ip w1).1
unfolding public_line held
public_line-Free title ip w w1 free found buffer = ground (arith, found buffer)
public_line-Free title ip w w1 free found r = ground (arith, found r, free r)

nothing-Free : (w w1 : World Unit) → Free w → Found w none w1 → Free w1
nothing-Free w w1 free found r = found r ∙ free r

fall_back-Free : (host : Host) (w : World Unit) → Free w → Free (fall_back host w).1
unfolding fall_back
fall_back-Free host w free =
    let (o, w1) = get_public_ip_http host.text_malloc host.curl w in
    let found = get_public_ip_http-held host.text_malloc host.curl w (free buffer) (free curl) in
    elim (Option-cases (get_public_ip_http host.text_malloc host.curl w).0) [
      | inl e ↦ rw (e) (nothing-Free w w1 free (subst (λ q. Found w q w1) e found))
      | inr (ip, e) ↦ rw (e) (
          public_line-Free (codes "Public IP (HTTP): ") ip w w1 free
            (subst (λ q. Found w q w1) e found))
    ]

public_lines-Free : (host : Host) (w : World Unit) → Free w → Free (public_lines host w).1
unfolding public_lines
public_lines-Free host w free =
    let (o, w1) = get_public_ip_upnp host.text_malloc host.upnp w in
    let found =
      get_public_ip_upnp-held host.text_malloc host.upnp w (free buffer) (free devlist)
        (free urls) in
    elim (Option-cases (get_public_ip_upnp host.text_malloc host.upnp w).0) [
      | inl e ↦
          rw (e)
            (fall_back-Free host w1 (nothing-Free w w1 free (subst (λ q. Found w q w1) e found)))
      | inr (ip, e) ↦ rw (e) (
          public_line-Free (codes "Public IP (UPnP): ") ip w w1 free
            (subst (λ q. Found w q w1) e found))
    ]

local_lines-Free :
    (ips : Option (List Bytes)) (n : ℕ) (w : World Unit) → Free w → Free (local_lines ips n w).1
unfolding local_lines held
local_lines-Free none n w free r = free r
local_lines-Free (some ips) n w free ip_list = ground (arith, free ip_list)
local_lines-Free (some ips) n w free r = ground (arith, free r)

local_addresses-Free :
    (a : Option Addresses) (w : World Unit) → Free w → Free (local_addresses a w).1
unfolding local_addresses
local_addresses-Free none w free = free
local_addresses-Free (some a) w free = local_lines-Free a.ips a.count w free

pub log_addresses_worker-held :
    (host : Host) (w : World Unit)
    → ((r : Resource) → held r w.log ≡ some false)
    → (r : Resource) → held r (log_addresses_worker host w).1.log ≡ some false
unfolding log_addresses_worker
log_addresses_worker-held host w free =
    let returned =
      get_server_ip_addresses host.ntop4 host.ntop6 host.list_malloc with_mask host.interfaces 0 in
    public_lines-Free host (local_addresses returned w).1 (local_addresses-Free returned w free)
