-- ===== src/PublicIp.antt =====
-- util/get_public_ip_http.c and util/get_public_ip_upnp.c. libcurl and miniupnpc are not part of the
-- repository: what they deliver is arbitrary.
pub mod Trim
pub mod Http
pub mod Released
use mathlib.Core.Option
use sending_system.Base.{
  ℕ, zero, suc, ◌+◌, ◌==◌, Bool, true, false, ◌&&◌, ◌||◌, Option, none, some, List, [], ◌∷◌, ◌++◌,
  Bytes, ℤ, store_at, c_string, take, length, if◌then◌else◌,
}
use sending_system.Sqlite.{is_positive}
use sending_system.System.{World, emit, ask, curl, buffer, devlist, urls, acquire, release, access}

-- The outcomes of libcurl: whether there is a handle; the pieces of the body, which libcurl hands to
-- the callback one by one until it takes one not whole, and whether the transfer succeeds else.
pub record Curl : Type 0 where
  pub curl_easy_init : ℕ → Bool
  pub pieces : ℕ → List Bytes
  pub transferred : ℕ → Bool

-- The outcomes of miniupnpc: whether devices answer; the result of UPNP_GetValidIGD; and the string
-- in `wanaddr`, if UPNP_GetExternalIPAddress returns 0.
pub record Upnp : Type 0 where
  pub upnp_discover : ℕ → Bool
  pub get_valid_igd : ℕ → ℤ
  pub external_address : ℕ → Option Bytes

-- `strlen` of a buffer, which has a NUL.
unfoldable pub strlen : Bytes → ℕ
strlen block = length (Option.get_or (c_string block) block)

-- The block after the callback; `grown` says that `realloc` returned it.
unfoldable pub write_cb : Bool → Bytes → Bytes → ℕ × Bytes
unfolding strlen
write_cb grown block contents =
    if grown
    then (length contents, take (strlen block) block ++ (contents ++ (0 ∷ [])))
    else (0, block)

-- The byte at an index, and 0 behind the end.
unfoldable pub byte_at : Bytes → ℕ → ℕ
byte_at [] i = 0
byte_at (c ∷ block) zero = c
byte_at (c ∷ block) (suc i) = byte_at block i

abbrev pub is_blank : ℕ → Bool
is_blank c = c == 10 || (c == 13 || c == 32)

-- The loop that cuts blanks off the end: the length, and the block.
unfoldable pub trim_loop : ℕ → Bytes → ℕ × Bytes
unfolding byte_at store_at
trim_loop zero block = (0, block)
trim_loop (suc len) block =
    let rest = trim_loop len (store_at block len 0) in
    if is_blank (byte_at block len) then rest else (suc len, block)

module _ {Db : Type 0} (malloc : ℕ → Bool) where
  -- The calls of the callback: whether all pieces were taken, and the block.
  unfoldable pub receive_all : List Bytes → Bytes → World Db → (Bool × Bytes) × World Db
  unfolding write_cb
  receive_all [] block w = ((true, block), w)
  receive_all (piece ∷ pieces) block w =
      let (grown, w1) = ask malloc w in
      let (taken, block1) = write_cb grown block piece in
      let rest = receive_all pieces block1 w1 in
      if taken == length piece then rest else ((false, block1), w1)

  -- From the end of the transfer on; the string that the returned block holds.
  unfoldable pub trimmed : Bytes → World Db → Option Bytes × World Db
  unfolding trim_loop
  trimmed block w =
      let (len, block1) = trim_loop (strlen block) block in
      if len == 0
      then (none, emit (release buffer) w)
      else (some (Option.get_or (c_string block1) block1), emit (access buffer) w)

  -- From the result of the transfer on.
  unfoldable pub settle : Bool → Bytes → World Db → Option Bytes × World Db
  unfolding trimmed
  settle ok block w = if ok then trimmed block w else (none, emit (release buffer) w)

  -- From the handle on.
  unfoldable pub fetch : Curl → World Db → Option Bytes × World Db
  unfolding receive_all settle
  fetch c w =
      let (got, w1) = ask malloc w in
      let (pieces, w2) = ask c.pieces (emit (acquire buffer) w1) in
      let (outcome, w3) = receive_all pieces (0 ∷ []) w2 in
      let (transferred, w4) = ask c.transferred w3 in
      let w5 = emit (release curl) w4 in
      if got then settle (outcome.0 && transferred) outcome.1 w5 else (none, emit (release curl) w1)

  unfoldable pub get_public_ip_http : Curl → World Db → Option Bytes × World Db
  unfolding fetch
  get_public_ip_http c w =
      let (made, w1) = ask c.curl_easy_init w in
      if made then fetch c (emit (acquire curl) w1) else (none, w1)

  -- `strdup` of a string that is not empty.
  unfoldable pub copy_address : Option Bytes → World Db → Option Bytes × World Db
  copy_address none w = (none, w)
  copy_address (some []) w = (none, w)
  copy_address (some (c ∷ wanaddr)) w =
      let (got, w1) = ask malloc w in
      if got then (some (c ∷ wanaddr), emit (acquire buffer) w1) else (none, w1)

  unfoldable pub get_public_ip_upnp : Upnp → World Db → Option Bytes × World Db
  unfolding copy_address
  get_public_ip_upnp u w =
      let (answered, w1) = ask u.upnp_discover w in
      let (r, w2) = ask u.get_valid_igd (emit (acquire devlist) w1) in
      let (wanaddr, w3) = ask u.external_address (emit (acquire urls) w2) in
      let (result, w4) = copy_address wanaddr w3 in
      if answered
      then (if is_positive r
          then (result, emit (release devlist) (emit (release urls) w4))
          else (none, emit (release devlist) w2))
      else (none, w1)
