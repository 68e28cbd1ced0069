-- ===== src/Sqlite/Rows/Laws.antt =====
-- The row loop stays inside its array, and returns all the rows or none.
use mathlib.Core.List.{append_assoc, append-nil}
use mathlib.Core.Path.{subst}
use sending_system.Base.{
  ℕ, suc, ◌≤◌, ◌<◌, ◌≡◌, ◌≢◌, refl, sym, ap, Bool, true, Option, none, some, List, [], ◌∷◌, ◌++◌,
  map, arith, ltb, leb, Bool-cases, inl, inr, length, length-append,
}
use sending_system.Sqlite.{Sqlite, Value, Row, column_text}
use sending_system.Sqlite.Rows.{
  Alloc, Fetched, rows, failed, out_of_bounds, next_cap, dup_col, append_row, fetch_loop,
}

lt-next_cap : (n size : ℕ) → n ≤ size → n < next_cap size
unfolding next_cap
lt-next_cap n size h = ground arith

module _ {ℓ} {A : Type ℓ} where
  -- The array holds `k` rows after those of `arr`, or the function gave up and returned NULL.
  pub data AllOrNothing (arr : List A) (k : ℕ) : Fetched A → Type ℓ where
    nothing : AllOrNothing arr k failed
    all : (xs : List A) → length xs ≡ k → AllOrNothing arr k (rows (arr ++ xs))

  AllOrNothing-cons :
      (arr : List A) (a : A) (k : ℕ) {f : Fetched A}
      → AllOrNothing (arr ++ (a ∷ [])) k f
      → AllOrNothing arr (suc k) f
  AllOrNothing-cons arr a k nothing = nothing
  AllOrNothing-cons arr a k (all xs h) = rw (append_assoc arr (a ∷ []) xs) (all (a ∷ xs) (ap suc h))

  pub AllOrNothing-in_bounds :
      {arr : List A} {k : ℕ} {f : Fetched A} → AllOrNothing arr k f → f ≢ out_of_bounds
  AllOrNothing-in_bounds nothing e = cc
  AllOrNothing-in_bounds (all xs h) e = cc

module _ {ℓ} {A : Type ℓ} (malloc : ℕ → Bool) (decode : Row → Alloc (Option A)) where
  append_row-AllOrNothing :
      (next : List A → Alloc (Fetched A)) (arr : List A) (size k : ℕ) (row : Option A) (n : ℕ)
      → length arr < size
      → ((a : A) (m : ℕ) → AllOrNothing (arr ++ (a ∷ [])) k (next (arr ++ (a ∷ [])) m).0)
      → AllOrNothing arr (suc k) (append_row malloc decode next arr size row n).0
  unfolding append_row
  append_row-AllOrNothing next arr size k none n h rest = nothing
  append_row-AllOrNothing next arr size k (some a) n h rest =
      elim (Bool-cases (ltb (length arr) size)) [
        | inl room ↦ rw room (AllOrNothing-cons arr a k (rest a n))
        | inr full ↦ absurd (ground arith)
      ]

  -- From an array with room, the loop returns every row or nothing, and never writes out of bounds.
  pub fetch_loop-AllOrNothing :
      (rs : List Row) (size : ℕ) (arr : List A) (n : ℕ)
      → length arr ≤ size
      → AllOrNothing arr (length rs) (fetch_loop malloc decode rs size arr n).0
  unfolding fetch_loop
  fetch_loop-AllOrNothing [] size arr n h =
      subst (λ (l : List A). AllOrNothing arr 0 (rows l)) (append-nil arr) (all [] refl)
  fetch_loop-AllOrNothing (r ∷ rs) size arr n h = elim (Bool-cases (leb size (length arr))) [
    | inr free ↦ rw free (
        append_row-AllOrNothing (fetch_loop malloc decode rs size) arr size (length rs) _ _
          (ground arith)
          (λ a m.
            fetch_loop-AllOrNothing rs size (arr ++ (a ∷ [])) m
              (ground (arith, length-append arr (a ∷ [])))))
    | inl full ↦ elim (Bool-cases (malloc n)) [
      | inr refused ↦ rw (full, refused) nothing
      | inl grown ↦
          let room : length arr < next_cap size = lt-next_cap (length arr) size h in
          rw (full, grown)
            (append_row-AllOrNothing (fetch_loop malloc decode rs (next_cap size)) arr
              (next_cap size) (length rs) _ _ room
              (λ a m.
                fetch_loop-AllOrNothing rs (next_cap size) (arr ++ (a ∷ [])) m
                  (omega (arith, length-append arr (a ∷ [])))))
    ]
  ]

  module _ (plain : Row → A) (ok : (n : ℕ) → malloc n ≡ true)
      (reads : (r : Row) (n : ℕ) → (decode r n).0 ≡ some (plain r)) where
    append_row_reads :
        (next : List A → Alloc (Fetched A)) (arr : List A) (size : ℕ) (r : Row) (n m : ℕ)
        → length arr < size
        → append_row malloc decode next arr size (decode r n).0 m ≡ next (arr ++ (plain r ∷ [])) m
    unfolding append_row
    append_row_reads next arr size r n m h =
        rw (reads r n) (elim (Bool-cases (ltb (length arr) size)) [
          | inl room ↦ rw room refl
          | inr full ↦ absurd (ground arith)
        ])

    longer :
        (r : Row) (arr : List A) (size : ℕ)
        → length arr < size
        → length (arr ++ (plain r ∷ [])) ≤ size
    longer r arr size h = omega (arith, length-append arr (plain r ∷ []))

    continue :
        (rs : List Row) (r : Row) (arr : List A) (size n : ℕ)
        → length arr < size
        → (fetch_loop malloc decode rs size (arr ++ (plain r ∷ [])) (decode r n).1).0
          ≡ rows ((arr ++ (plain r ∷ [])) ++ map plain rs)
        → (append_row malloc decode
            (fetch_loop malloc decode rs size)
            arr
            size
            (decode r n).0
            (decode r n).1).0
          ≡ rows (arr ++ (plain r ∷ map plain rs))
    continue rs r arr size n room rest =
        rw
          (
            append_row_reads (fetch_loop malloc decode rs size) arr size r n (decode r n).1 room,
            ← append_assoc arr (plain r ∷ []) (map plain rs),
          )
          rest

    -- If no allocation fails, the array holds the rows of the query, in the query's order.
    pub fetch_loop-map :
        (rs : List Row) (size : ℕ) (arr : List A) (n : ℕ)
        → length arr ≤ size
        → (fetch_loop malloc decode rs size arr n).0 ≡ rows (arr ++ map plain rs)
    unfolding fetch_loop
    fetch_loop-map [] size arr n h = ap rows (sym (append-nil arr))
    fetch_loop-map (r ∷ rs) size arr n h = elim (Bool-cases (leb size (length arr))) [
      | inr free ↦ rw free (
          continue rs r arr size n (ground arith) (
            fetch_loop-map rs size (arr ++ (plain r ∷ [])) (decode r n).1
              (longer r arr size (ground arith))))
      | inl full ↦
          let room : length arr < next_cap size = lt-next_cap (length arr) size h in
          rw (full, ok n)
            (continue rs r arr (next_cap size) (suc n) room (
              fetch_loop-map rs (next_cap size) (arr ++ (plain r ∷ [])) (decode r (suc n)).1
                (longer r arr (next_cap size) room)))
    ]

-- If no allocation fails, a text column is copied as it is.
pub dup_col_lem :
    (E : Sqlite) (malloc : ℕ → Bool) (v : Value) (n : ℕ)
    → ((n : ℕ) → malloc n ≡ true)
    → (dup_col E malloc v n).0 ≡ column_text E v
unfolding dup_col column_text
dup_col_lem E malloc v n ok = ground (arith, ok n)
