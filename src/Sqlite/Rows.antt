-- ===== src/Sqlite/Rows.antt =====
-- Reading rows into the heap: `db_dup_col` of database/model/db_helpers.h and the loop of the
-- `*_get_all` functions, over an allocator that may fail at any call.
pub mod Laws
use sending_system.Base.{
  ℕ, zero, suc, ◌*◌, String, Bool, Option, none, some, List, [], ◌∷◌, ◌++◌, Bytes, ltb, leb, ◌==◌,
  if◌then◌else◌, length,
}
use sending_system.Sqlite.{Sqlite, Value, Row, column_text}

-- An action that allocates. `malloc n` says whether the allocation number `n` succeeds, and the
-- state counts the allocations made.
abbrev pub Alloc {ℓ} : Type ℓ → Type ℓ
Alloc A = ℕ → A × ℕ

-- What a `*_get_all` function returns: an array and its length, NULL, or a write past the end of
-- the array (which no C program returns from).
pub data Fetched {ℓ} (A : Type ℓ) : Type ℓ where
  rows : List A → Fetched A
  failed : Fetched A
  out_of_bounds : Fetched A

module _ (E : Sqlite) (malloc : ℕ → Bool) where
  -- `db_dup_col`: `none` is NULL, for SQL NULL or a failed allocation.
  unfoldable pub dup_col : Value → Alloc (Option Bytes)
  dup_col v n = elim (column_text E v) [
    | none ↦ (none, n)
    | some t ↦ (if malloc n then some t else none, suc n)
  ]

-- `cap ? cap * 2 : 8`
unfoldable pub next_cap : ℕ → ℕ
next_cap size = if size == 0 then 8 else size * 2

module _ {ℓ} {A : Type ℓ} (malloc : ℕ → Bool) (decode : Row → Alloc (Option A)) where
  -- `arr[count++] = row` in an array of `size` elements, then the rest of the loop.
  unfoldable pub append_row :
      (List A → Alloc (Fetched A)) → List A → ℕ → Option A → Alloc (Fetched A)
  append_row next arr size none n = (failed, n)
  append_row next arr size (some a) n =
      if ltb (length arr) size then next (arr ++ (a ∷ [])) n else (out_of_bounds, n)

  -- The loop over the rows still to come: grow the array if it is full, then read one row.
  unfoldable pub fetch_loop : List Row → ℕ → List A → Alloc (Fetched A)
  unfolding append_row next_cap
  fetch_loop [] size arr n = (rows arr, n)
  fetch_loop (r ∷ rs) size arr n =
      let grown = next_cap size in
      let full = leb size (length arr) in
      let size' = (if full then grown else size) in
      let start = (if full then suc n else n) in
      let (row, m) = decode r start in
      let rest = append_row (fetch_loop rs size') arr size' row m in
      if full then (if malloc n then rest else (failed, suc n)) else rest

  -- The whole function: prepare, then the loop from an empty array.
  unfoldable pub fetch_all : (E : Sqlite) → E.Db → String → List Value → Alloc (Fetched A)
  unfolding fetch_loop
  fetch_all E db sql vs n =
      if E.prepare db sql then fetch_loop (E.query db sql vs) 0 [] n else (failed, n)
