-- ===== src/PublicIp/Trim.antt =====
-- The loop that trims the answer leaves the string without the blanks at its end.
use sending_system.Base.{
  ℕ, zero, suc, ◌<◌, ◌≡◌, ◌≢◌, ◌∙◌, refl, ap, sym, Bool, some, [], ◌∷◌, ◌++◌, arith, Bytes, All,
  store_at, c_string, take, length, length-take, if◌then◌else◌, Bool-cases, inl, inr,
}
use sending_system.PublicIp.{byte_at, is_blank, trim_loop}

-- A byte before what is kept of the rest.
unfoldable put_back : ℕ → Bytes → Bytes
put_back c [] = if is_blank c then [] else c ∷ []
put_back c (d ∷ s) = c ∷ d ∷ s

-- A string without the blanks at its end.
unfoldable pub rtrim : Bytes → Bytes
unfolding put_back
rtrim [] = []
rtrim (c ∷ s) = put_back c (rtrim s)

abbrev pub NonZero : Bytes → Type 0
NonZero = All (λ c. c ≢ 0)

put_back-append : (d : ℕ) (s : Bytes) (c : ℕ) → put_back d (s ++ (c ∷ [])) ≡ d ∷ (s ++ (c ∷ []))
unfolding put_back
put_back-append d [] c = refl
put_back-append d (e ∷ s) c = refl

rtrim-append :
    (s : Bytes) (c : ℕ) → rtrim (s ++ (c ∷ [])) ≡ (if is_blank c then rtrim s else s ++ (c ∷ []))
unfolding rtrim put_back
rtrim-append [] c = refl
rtrim-append (d ∷ s) c = elim (Bool-cases (is_blank c)) [
  | inl blank ↦ ap (put_back d) (rtrim-append s c) ∙ rw (blank) refl
  | inr other ↦ ap (put_back d) (rtrim-append s c) ∙ rw (other) (put_back-append d s c)
]

take-suc :
    (n : ℕ) (block : Bytes)
    → n < length block
    → take (suc n) block ≡ take n block ++ (byte_at block n ∷ [])
unfolding byte_at
take-suc n [] h = absurd (omega arith)
take-suc zero (c ∷ block) h = refl
take-suc (suc n) (c ∷ block) h = ap (λ l. c ∷ l) (take-suc n block (omega arith))

c_string-take :
    (n : ℕ) (block : Bytes)
    → NonZero (take n block)
    → n < length block
    → byte_at block n ≡ 0
    → c_string block ≡ some (take n block)
unfolding c_string byte_at
c_string-take n [] nz h e = absurd (omega arith)
c_string-take zero (c ∷ block) nz h e = ground arith
c_string-take (suc n) (c ∷ block) (nc, nz) h e =
    ground (arith, c_string-take n block nz (omega arith) e)

store_at_lem :
    (n v : ℕ) (block : Bytes)
    → n < length block
    → (take n (store_at block n v) ≡ take n block)
      × (byte_at (store_at block n v) n ≡ v)
      × (length (store_at block n v) ≡ length block)
unfolding store_at byte_at
store_at_lem n v [] h = absurd (omega arith)
store_at_lem zero v (c ∷ block) h = (refl, refl, refl)
store_at_lem (suc n) v (c ∷ block) h =
    let (a, b, l) = store_at_lem n v block (omega arith) in (ap (λ t. c ∷ t) a, b, ap suc l)

take-NonZero : (n : ℕ) (block : Bytes) → NonZero (take (suc n) block) → NonZero (take n block)
take-NonZero zero block nz = tt
take-NonZero (suc n) [] nz = tt
take-NonZero (suc n) (c ∷ block) (nc, nz) = (nc, take-NonZero n block nz)

pub trim_loop-rtrim :
    (len : ℕ) (block : Bytes)
    → NonZero (take len block)
    → len < length block
    → byte_at block len ≡ 0
    → ((trim_loop len block).0 ≡ length (rtrim (take len block)))
      × (c_string (trim_loop len block).1 ≡ some (rtrim (take len block)))
unfolding trim_loop rtrim
trim_loop-rtrim zero block nz h e = (refl, c_string-take zero block nz h e)
trim_loop-rtrim (suc len) block nz h e =
    let c = byte_at block len in
    let block1 = store_at block len 0 in
    let (kept, zeroed, size) = store_at_lem len 0 block (omega arith) in
    let last : take (suc len) block ≡ take len block ++ (c ∷ []) =
      take-suc len block (omega arith) in
    let pick : Bool → Bytes =
      λ b. if b then rtrim (take len block) else take len block ++ (c ∷ []) in
    let picked : rtrim (take (suc len) block) ≡ pick (is_blank c) =
      ap rtrim last ∙ rtrim-append (take len block) c in
    elim (Bool-cases (is_blank c)) [
      | inl blank ↦
          let cut : rtrim (take (suc len) block) ≡ rtrim (take len block1) =
            picked ∙ ap pick blank ∙ ap rtrim (sym kept) in
          let (n, text) =
            trim_loop-rtrim len block1 (rw (kept) (take-NonZero len block nz))
              (omega (arith, size, h)) zeroed in
          (rw (blank) (n ∙ ap length (sym cut)), rw (blank) (text ∙ ap some (sym cut)))
      | inr other ↦
          let all : rtrim (take (suc len) block) ≡ take (suc len) block =
            picked ∙ ap pick other ∙ sym last in
          let size1 : suc len ≡ length (take (suc len) block) =
            omega (arith, length-take (suc len) block, h) in
          (
            rw (other) (size1 ∙ ap length (sym all)),
            rw (other) (c_string-take (suc len) block nz h e ∙ ap some (sym all)),
          )
    ]
