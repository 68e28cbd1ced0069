-- ===== src/Addresses.antt =====
-- util/get_server_ip_addresses.c: the growing list of addresses, and the prefix length of a mask.
pub mod Laws
pub mod Subnet
pub mod Enumerate
pub mod Windows
use sending_system.Base.{
  ℕ, zero, suc, ◌+◌, ◌*◌, ◌%◌, ◌^◌, Bool, true, false, Option, none, some, List, [], ◌∷◌, ◌++◌,
  Bytes, bytes_eq, ltb, leb, if◌then◌else◌, length,
}
use mathlib.Core.Option
use sending_system.Sqlite.Rows.{next_cap}

-- An array of strings and its capacity.
pub record IpList : Type 0 where
  pub ips : List Bytes
  pub capacity : ℕ

unfoldable pub ip_in_list : List Bytes → Bytes → Bool
ip_in_list [] value = false
ip_in_list (ip ∷ list) value = if bytes_eq ip value then true else ip_in_list list value

module _ (malloc : ℕ → Bool) where
  -- The copy of a text, `none` for NULL. The number counts the allocations.
  abbrev pub dup_str : Bytes → ℕ → Option Bytes × ℕ
  dup_str src n = (if malloc n then some src else none, suc n)

  -- The copy of the text, written behind the others. `none` is a write out of bounds.
  unfoldable pub push_copy : IpList → Bytes → ℕ → Option IpList × ℕ
  push_copy l text n =
      let (copy, m) = dup_str text n in
      (
        elim copy [
          | none ↦ some l
          | some ip ↦
              if ltb (length l.ips) l.capacity
              then some (record l { ips = l.ips ++ (ip ∷ []) })
              else none
        ],
        m,
      )

  unfoldable pub push_ip : IpList → Bytes → ℕ → Option IpList × ℕ
  unfolding push_copy next_cap
  push_ip l text n =
      if leb l.capacity (length l.ips)
      then (if malloc n
          then push_copy (record l { capacity = next_cap l.capacity }) text (suc n)
          else (some l, suc n))
      else push_copy l text n

-- The loop over the 32 bits of a mask, in the byte order of the host. `none` means that the fuel ran
-- out.
unfoldable pub leading_ones : ℕ → ℕ → Option ℕ
leading_ones zero m = none
leading_ones (suc fuel) m =
    let rest = leading_ones fuel (m * 2 % 2 ^ 32) in
    if leb (2 ^ 31) m then Option.map suc rest else some 0

unfoldable pub prefix_from_mask_v4 : ℕ → Option ℕ
unfolding leading_ones
prefix_from_mask_v4 mask = leading_ones 33 mask
