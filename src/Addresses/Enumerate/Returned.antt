-- ===== src/Addresses/Enumerate/Returned.antt =====
-- What `get_server_ip_addresses` returns, whatever allocations fail.
use sending_system.Base.{
  ℕ, suc, ◌≡◌, refl, ap, sym, inl, inr, Bool, false, Option, none, some, List, [], ◌∷◌, map, arith,
  Bytes, length, ◌==◌, Bool-cases,
}
use mathlib.Core.Option
use sending_system.Addresses.{ip_in_list, push_ip}
use sending_system.Addresses.Laws.{Fits, push_ip-Pushed}
use sending_system.Addresses.Enumerate.{
  Interface, MaskMode, Described, Found, Addresses, no_ips, entry_of, describe, push_both, visit,
  visit_all, enumerate, returned, get_server_ip_addresses, free_server_ip_addresses,
}
use sending_system.Addresses.Enumerate.Distinct.{
  always, firsts, listed, described, outside_nil, With, visit_all-With,
}

abbrev start : ℕ → Found
start n = record { seen = no_ips; result = no_ips; allocations = n }

-- What is returned has as many strings as `*count` says.
abbrev pub Counted : Addresses → Type 0
Counted a = elim a.ips [ none ↦ a.count ≡ 0 | some ips ↦ a.count ≡ length ips ]

returned-Counted : (f : Found) → Counted (returned f)
unfolding returned
returned-Counted f = elim (Bool-cases (f.result.capacity == 0)) [
  | inl empty ↦ rw (empty) refl
  | inr grown ↦ rw (grown) refl
]

length-map {ℓ κ} :
    {A : Type ℓ} {B : Type κ} (f : A → B) (xs : List A) → length (map f xs) ≡ length xs
length-map f [] = refl
length-map f (x ∷ xs) = ap suc (length-map f xs)

returned-listed :
    (mode : MaskMode) (n : ℕ) (ds : List Described) (f : Found)
    → With mode (start n) ds f
    → returned f ≡ listed mode ds
unfolding returned listed
returned-listed mode n [] f (keys, entries, (fits, fits', inl empty)) = ground arith
returned-listed mode n [] f (keys, entries, (fits, fits', inr some_ip)) = absurd (ground arith)
returned-listed mode n (d ∷ ds) f (keys, entries, (fits, fits', tight)) =
    let grown : (f.result.capacity == 0) ≡ false = ground (arith, entries, fits') in
    rw (grown, entries, keys, length-map (entry_of mode) (d ∷ ds)) refl

abbrev BothFit : Found → Type 0
BothFit f = Fits f.seen × Fits f.result

module _ (ntop4 : ℕ → Option Bytes) (ntop6 : Bytes → Option Bytes) (malloc : ℕ → Bool)
    (mode : MaskMode) where
  abbrev Continues : Option Found → Type 0
  Continues o = (f' : Found) × (o ≡ some f') × BothFit f'

  visit-Continues :
      (o : Option Described) (f : Found) → BothFit f → Continues (visit ntop4 ntop6 malloc mode o f)
  unfolding visit push_both Option.bind
  visit-Continues none f fit = (f, refl, fit)
  visit-Continues (some d) f (seen_fits, fits) = elim (Bool-cases (ip_in_list f.seen.ips d.key)) [
    | inl known ↦ (f, rw (known) refl, (seen_fits, fits))
    | inr new ↦
        let (s, es, s_fits, _) = push_ip-Pushed malloc f.seen d.key f.allocations seen_fits in
        let n = (push_ip malloc f.seen d.key f.allocations).1 in
        let (r, er, r_fits, _) = push_ip-Pushed malloc f.result (entry_of mode d) n fits in
        let m = (push_ip malloc f.result (entry_of mode d) n).1 in
        (record { seen = s; result = r; allocations = m }, rw (new, es, er) refl, (s_fits, r_fits))
  ]

  visit_all-Continues :
      (interfaces : List Interface) (f : Found)
      → BothFit f
      → Continues (visit_all ntop4 ntop6 malloc mode interfaces f)
  unfolding visit_all Option.bind
  visit_all-Continues [] f fit = (f, refl, fit)
  visit_all-Continues (i ∷ interfaces) f fit =
      let (f1, e, fit1) = visit-Continues (describe ntop4 ntop6 i) f fit in
      let (f', done, fit') = visit_all-Continues interfaces f1 fit1 in (f', rw (e) done, fit')

free_server_ip_addresses-map :
    (mode : MaskMode) (ds : List Described)
    → free_server_ip_addresses (some (map (entry_of mode) ds)) (length ds) ≡ map (entry_of mode) ds
unfolding free_server_ip_addresses
free_server_ip_addresses-map mode [] = refl
free_server_ip_addresses-map mode (d ∷ ds) =
    ap (λ l. entry_of mode d ∷ l) (free_server_ip_addresses-map mode ds)

freed-listed :
    (mode : MaskMode) (ds : List Described)
    → free_server_ip_addresses (listed mode ds).ips (listed mode ds).count ≡ map (entry_of mode) ds
unfolding listed free_server_ip_addresses
freed-listed mode [] = refl
freed-listed mode (d ∷ ds) = free_server_ip_addresses-map mode (d ∷ ds)

-- Whichever allocations fail, `get_server_ip_addresses` never writes out of bounds and returns as
-- many strings as its count says. Where none fails and `getifaddrs` succeeds, it returns one entry
-- for every subnet, in the order in which the interfaces that can be described first name it, and
-- NULL where there is none; the keys of these subnets are what it frees. `free_server_ip_addresses`
-- of the result and its count frees each of the strings once.
pub get_server_ip_addresses-listed :
    (ntop4 : ℕ → Option Bytes) (ntop6 : Bytes → Option Bytes) (malloc : ℕ → Bool) (mode : MaskMode)
    (interfaces : List Interface) (n : ℕ)
    → ((a : Addresses) × (get_server_ip_addresses ntop4 ntop6 malloc mode (some interfaces) n
          ≡ some a)
        × Counted a)
      × (get_server_ip_addresses ntop4 ntop6 always mode (some interfaces) n
          ≡ some (listed mode (firsts (described ntop4 ntop6 interfaces))))
      × (let a = listed mode (firsts (described ntop4 ntop6 interfaces)) in
          free_server_ip_addresses a.ips a.count
          ≡ map (entry_of mode) (firsts (described ntop4 ntop6 interfaces)))
unfolding get_server_ip_addresses enumerate
get_server_ip_addresses-listed ntop4 ntop6 malloc mode interfaces n =
    let (f, done, fit) =
      visit_all-Continues ntop4 ntop6 malloc mode interfaces (start n) (omega arith, omega arith) in
    let ds = firsts (described ntop4 ntop6 interfaces) in
    let (f', done', with) =
      visit_all-With ntop4 ntop6 mode interfaces (start n) (omega arith, omega arith, inl refl) in
    (
      (returned f, rw (done) refl, returned-Counted f),
      rw (done') (ap some (returned-listed mode n ds f' (rw (sym (outside_nil ds)) with))),
      freed-listed mode ds,
    )
