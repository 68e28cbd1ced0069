-- ===== src/Addresses/Subnet.antt =====
-- util/get_server_ip_addresses.c: the prefix length of an IPv6 mask, and the keys of subnets.
pub mod Bits
pub mod Network
use Prim.Native.Nat.{bit_and}
use mathlib.Core.Option
use sending_system.Base.{
  ℕ, zero, suc, ◌+◌, ◌-◌, ◌*◌, ◌/◌, ◌%◌, ◌^◌, Bool, true, false, Option, none, some, List, [], ◌∷◌,
  ◌++◌, Bytes, codes, leb, ltb, ◌==◌, if◌then◌else◌, length, take, drop, snprintf, decimal,
}

-- The loop over the bits of one byte. `none` means that the fuel ran out.
unfoldable pub byte_ones : ℕ → ℕ → Option ℕ
byte_ones zero b = none
byte_ones (suc fuel) b =
    let rest = byte_ones fuel (b * 2 % 256) in if leb 128 b then Option.map suc rest else some 0

-- The loop over the bytes, from the prefix that was counted so far.
unfoldable pub prefix_loop : Bytes → ℕ → Option ℕ
unfolding byte_ones
prefix_loop [] prefix = some prefix
prefix_loop (b ∷ mask) prefix =
    let next = prefix_loop mask (prefix + 8) in
    if b == 255 then next else Option.map (λ k. prefix + k) (byte_ones 9 b)

unfoldable pub prefix_from_mask_v6 : Bytes → Option ℕ
unfolding prefix_loop
prefix_from_mask_v6 mask = prefix_loop mask 0

-- `m` of `subnet_key_v4`, for a prefix that is not negative.
unfoldable pub mask_v4 : ℕ → ℕ
mask_v4 prefix =
    if leb prefix 0
    then 0
    else (if leb 32 prefix then 0xFFFFFFFF else (0xFFFFFFFF * 2 ^ (32 - prefix)) % 2 ^ 32)

-- "%s/%d", and the size of the buffers for it, INET6_ADDRSTRLEN + 8.
abbrev pub key_size : ℕ
key_size = 54

unfoldable pub with_prefix : Bytes → ℕ → Bytes
unfolding decimal codes
with_prefix text prefix = snprintf key_size (text ++ (codes "/" ++ decimal prefix))

-- `memset` of so many bytes.
abbrev pub zeros : ℕ → Bytes
zeros zero = []
zeros (suc n) = 0 ∷ zeros n

-- The byte `i`, kept in its `bits` highest bits.
unfoldable pub keep_high : ℕ → ℕ → Bytes → Bytes
keep_high i bits [] = []
keep_high zero bits (b ∷ net) = bit_and b (255 * 2 ^ (8 - bits) % 256) ∷ net
keep_high (suc i) bits (b ∷ net) = b ∷ keep_high i bits net

-- The first `n` bytes, and zeros.
abbrev pub clear_from : ℕ → Bytes → Bytes
clear_from n net = take n net ++ zeros (16 - n)

-- The 16 bytes of `net` in `subnet_key_v6`.
unfoldable pub network_v6 : Bytes → ℕ → Bytes
unfolding keep_high
network_v6 ip prefix =
    let full_bytes = prefix / 8 in
    let rem_bits = prefix % 8 in
    if ltb full_bytes 16
    then (if ltb 0 rem_bits
        then clear_from (full_bytes + 1) (keep_high full_bytes rem_bits ip)
        else clear_from full_bytes ip)
    else ip

-- `inet_ntop` for the two families, the IPv4 address in the byte order of the host; `none` is NULL.
module _ (ntop4 : ℕ → Option Bytes) (ntop6 : Bytes → Option Bytes) where
  unfoldable pub subnet_key_v4 : ℕ → ℕ → Option Bytes
  unfolding mask_v4 with_prefix
  subnet_key_v4 ip prefix =
      Option.map (λ net_str. with_prefix net_str prefix) (ntop4 (bit_and ip (mask_v4 prefix)))

  unfoldable pub subnet_key_v6 : Bytes → ℕ → Option Bytes
  unfolding network_v6 with_prefix
  subnet_key_v6 ip prefix =
      Option.map (λ net_str. with_prefix net_str prefix) (ntop6 (network_v6 ip prefix))
