-- ===== src/Addresses/Enumerate/Distinct.antt =====
-- The addresses that are returned: one for every subnet, in the order of the interfaces.
use sending_system.Base.{
  ℕ, ◌<◌, ◌≡◌, ◌∙◌, ◌⊎◌, refl, ap, sym, inl, inr, Bool, true, ◌||◌, Option, none, some, List, [],
  ◌∷◌, ◌++◌, map, arith, Bytes, bytes_eq, eq_of_bytes_eq, leb, length, length-append, if◌then◌else◌,
  Bool-cases, Option-cases,
}
use mathlib.Core.Option
use mathlib.Core.List.{append_assoc, append-nil}
use sending_system.Sqlite.Rows.{next_cap}
use sending_system.Addresses.{IpList, ip_in_list, push_ip, push_copy}
use sending_system.Addresses.Laws.{Fits}
use sending_system.Addresses.Enumerate.{
  Interface, MaskMode, Described, Found, Addresses, entry_of, describe, push_both, visit, visit_all,
}

unfoldable pub without_key : Bytes → List Described → List Described
without_key key [] = []
without_key key (d ∷ ds) =
    let rest = without_key key ds in if bytes_eq key d.key then rest else d ∷ rest

-- The first of those that share a key.
unfoldable pub firsts : List Described → List Described
unfolding without_key
firsts [] = []
firsts (d ∷ ds) = d ∷ without_key d.key (firsts ds)

-- Those whose key is not in the list.
unfoldable pub outside : List Bytes → List Described → List Described
unfolding ip_in_list
outside seen [] = []
outside seen (d ∷ ds) =
    let rest = outside seen ds in if ip_in_list seen d.key then rest else d ∷ rest

-- What is returned for these.
unfoldable pub listed : MaskMode → List Described → Addresses
unfolding entry_of
listed mode [] = record { ips = none; count = 0; freed = [] }
listed mode (d ∷ ds) = record {
  ips = some (map (entry_of mode) (d ∷ ds));
  count = length (d ∷ ds);
  freed = map (λ e. e.key) (d ∷ ds);
}

pub outside_nil : (ds : List Described) → outside [] ds ≡ ds
unfolding outside ip_in_list
outside_nil [] = refl
outside_nil (d ∷ ds) = ap (λ l. d ∷ l) (outside_nil ds)

ip_in_list-append :
    (seen : List Bytes) (key value : Bytes)
    → ip_in_list (seen ++ (key ∷ [])) value ≡ (ip_in_list seen value || bytes_eq key value)
unfolding ip_in_list
ip_in_list-append [] key value = ground arith
ip_in_list-append (ip ∷ seen) key value = ground (arith, ip_in_list-append seen key value)

outside-append :
    (seen : List Bytes) (key : Bytes) (ds : List Described)
    → outside (seen ++ (key ∷ [])) ds ≡ outside seen (without_key key ds)
unfolding outside without_key
outside-append seen key [] = refl
outside-append seen key (d ∷ ds) =
    ground (arith, outside-append seen key ds, ip_in_list-append seen key d.key)

outside-without_key :
    (seen : List Bytes) (key : Bytes) (ds : List Described)
    → ip_in_list seen key ≡ true
    → outside seen (without_key key ds) ≡ outside seen ds
unfolding outside without_key
outside-without_key seen key [] h = refl
outside-without_key seen key (d ∷ ds) h = elim (Bool-cases (bytes_eq key d.key)) [
  | inr other ↦ ground (arith, outside-without_key seen key ds h)
  | inl same ↦
      let known : ip_in_list seen d.key ≡ true =
        ap (ip_in_list seen) (sym (eq_of_bytes_eq key d.key same)) ∙ h in
      ground (arith, outside-without_key seen key ds h)
]

-- No allocation fails.
abbrev pub always : ℕ → Bool
always n = true

abbrev Grown : IpList → Bytes → Option IpList → Type 0
Grown l text result = (l' : IpList) × (result ≡ some l') × Fits l' × (l'.ips ≡ l.ips ++ (text ∷ []))

push_ip-Grown :
    (l : IpList) (text : Bytes) (n : ℕ) → Fits l → Grown l text (push_ip always l text n).0
unfolding push_ip push_copy next_cap
push_ip-Grown l text n fits = elim (Bool-cases (leb l.capacity (length l.ips))) [
  | inr free ↦ (
    record l { ips = l.ips ++ (text ∷ []) },
    ground arith,
    ground (arith, length-append l.ips (text ∷ [])),
    refl,
  )
  | inl full ↦ (
    record { ips = l.ips ++ (text ∷ []); capacity = next_cap l.capacity },
    ground arith,
    ground (arith, length-append l.ips (text ∷ [])),
    refl,
  )
]

abbrev pub key_of : Described → Bytes
key_of d = d.key

-- Both lists fit, and the list of results has an array only for results.
abbrev Sound : Found → Type 0
Sound f = Fits f.seen × Fits f.result × ((f.result.capacity ≡ 0) ⊎ (0 < length f.result.ips))

-- `f'` is `f` with these behind the others.
abbrev pub With : MaskMode → Found → List Described → Found → Type 0
With mode f ds f' =
    (f'.seen.ips ≡ f.seen.ips ++ map key_of ds)
    × (f'.result.ips ≡ f.result.ips ++ map (entry_of mode) ds)
    × Sound f'

module _ (ntop4 : ℕ → Option Bytes) (ntop6 : Bytes → Option Bytes) where
  -- The interfaces that are described, in their order.
  unfoldable pub described : List Interface → List Described
  unfolding describe
  described [] = []
  described (i ∷ interfaces) =
      let rest = described interfaces in
      elim (describe ntop4 ntop6 i) [ none ↦ rest | some d ↦ d ∷ rest ]

  module _ (mode : MaskMode) where
    push_both-With :
        (d : Described) (f : Found)
        → Sound f
        → (f' : Found) × (push_both ntop4 ntop6 always mode d f ≡ some f') × With mode f (d ∷ []) f'
    unfolding push_both Option.bind
    push_both-With d f (seen_fits, fits, tight) =
        let (s, es, s_fits, s_ips) = push_ip-Grown f.seen d.key f.allocations seen_fits in
        let n = (push_ip always f.seen d.key f.allocations).1 in
        let (r, er, r_fits, r_ips) = push_ip-Grown f.result (entry_of mode d) n fits in
        let m = (push_ip always f.result (entry_of mode d) n).1 in
        (
          record { seen = s; result = r; allocations = m },
          rw (es, er) refl,
          (
            s_ips,
            r_ips,
            (
              s_fits,
              r_fits,
              inr (ground (arith, r_ips, length-append f.result.ips (entry_of mode d ∷ []))),
            ),
          ),
        )

    abbrev Enumerated : List Interface → Found → List Described → Type 0
    Enumerated interfaces f ds =
        (f' : Found) × (visit_all ntop4 ntop6 always mode interfaces f ≡ some f')
        × With mode f ds f'

    -- After one more, those that follow.
    With-append :
        (d : Described) (ds : List Described) (f f1 f' : Found)
        → With mode f (d ∷ []) f1
        → With mode f1 ds f'
        → With mode f (d ∷ ds) f'
    With-append d ds f f1 f' (s1, r1, w1) (s2, r2, w2) = (
      s2 ∙ ap (λ l. l ++ map key_of ds) s1 ∙ append_assoc f.seen.ips (d.key ∷ []) (map key_of ds),
      r2
          ∙ ap (λ l. l ++ map (entry_of mode) ds) r1
          ∙ append_assoc f.result.ips (entry_of mode d ∷ []) (map (entry_of mode) ds),
      w2,
    )

    pub visit_all-With :
        (interfaces : List Interface) (f : Found)
        → Sound f
        → Enumerated interfaces f (outside f.seen.ips (firsts (described interfaces)))
    unfolding visit_all visit outside firsts described Option.bind
    visit_all-With [] f sound =
        (f, refl, (sym (append-nil f.seen.ips), sym (append-nil f.result.ips), sound))
    visit_all-With (i ∷ interfaces) f sound = elim (Option-cases (describe ntop4 ntop6 i)) [
      | inl skipped ↦ rw (skipped, described) (visit_all-With interfaces f sound)
      | inr (d, found) ↦ elim (Bool-cases (ip_in_list f.seen.ips d.key)) [
        | inl known ↦
            rw
              (
                found,
                described,
                outside,
                known,
                outside-without_key f.seen.ips d.key (firsts (described interfaces)) known,
              )
              (visit_all-With interfaces f sound)
        | inr new ↦
            let ds = firsts (described interfaces) in
            let (f1, pushed, with1) = push_both-With d f sound in
            let (f', done, with2) = visit_all-With interfaces f1 with1.2 in
            let behind : outside f1.seen.ips ds ≡ outside f.seen.ips (without_key d.key ds) =
              ap (λ l. outside l ds) with1.0 ∙ outside-append f.seen.ips d.key ds in
            let tail = outside f.seen.ips (without_key d.key ds) in
            (
              f',
              rw (found, new, pushed) done,
              rw (found, described, outside, new)
                  (With-append d tail f f1 f' with1 (rw (sym behind) with2)),
            )
      ]
    ]
