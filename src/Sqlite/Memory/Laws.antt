-- ===== src/Sqlite/Memory/Laws.antt =====
-- The table in memory meets the assumptions of `Table`: they can hold together.
use package.text.Mathlib.Text.{◌==◌ as str_eq}
use package.text.Mathlib.TextPositions.{eq_refl}
use sending_system.Base.{
  ℕ, ◌≤◌, ◌≡◌, refl, ap, String, Bool, true, false, Option, none, some, List, [], ◌∷◌, ◌++◌, map,
  arith, ℤ, pos, int_eq, is_nonneg, All, if◌then◌else◌, Bool-cases, inl, inr,
}
use sending_system.Sqlite.{Sqlite, Statements, null, int, text, Row, is_positive}
use sending_system.Sqlite.Table.{
  Rows, IsTable, find_row, replace_row, remove_row, is_some, full_row, selected,
}
use sending_system.Sqlite.Memory.{
  Store, view_of, fresh, replace_in, remove_in, split_id, count_of, run_query, run_exec, memory,
}

view_of-append :
    (rows : List (ℕ × Row)) (n : ℕ) (r : Row)
    → view_of (rows ++ ((n, r) ∷ [])) ≡ view_of rows ++ ((pos n, r) ∷ [])
unfolding view_of
view_of-append [] n r = refl
view_of-append ((m, s) ∷ rows) n r = ap (◌∷◌ (pos m, s)) (view_of-append rows n r)

view_of-replace :
    (id : ℤ) (vs : Row) (rows : List (ℕ × Row))
    → view_of (replace_in id vs rows) ≡ replace_row id vs (view_of rows)
unfolding view_of replace_in replace_row
view_of-replace id vs [] = refl
view_of-replace id vs ((m, s) ∷ rows) =
    ap (◌∷◌ (pos m, if int_eq id (pos m) then vs else s)) (view_of-replace id vs rows)

view_of-remove :
    (id : ℤ) (rows : List (ℕ × Row)) → view_of (remove_in id rows) ≡ remove_row id (view_of rows)
unfolding view_of remove_in remove_row
view_of-remove id [] = refl
view_of-remove id ((m, s) ∷ rows) = ground (arith, view_of-remove id rows)

find_row-fresh :
    (n : ℕ) (rows : List (ℕ × Row)) → fresh rows ≤ n → find_row (pos n) (view_of rows) ≡ none
unfolding view_of find_row fresh
find_row-fresh n [] h = refl
find_row-fresh n ((m, s) ∷ rows) h = ground (arith, find_row-fresh n rows)

split_id-append : (vs : Row) (id : ℤ) → split_id (vs ++ (int id ∷ [])) ≡ (vs, id)
unfolding split_id
split_id-append [] id = refl
split_id-append (null ∷ r) id = rw (split_id-append r id)
split_id-append (text t ∷ r) id = rw (split_id-append r id)
split_id-append (int z ∷ []) id = refl
split_id-append (int z ∷ v ∷ r) id = rw (split_id-append (v ∷ r) id)

positive-count : (o : Option Row) → is_positive (count_of o) ≡ is_some o
positive-count none = refl
positive-count (some r) = refl

-- Ids in memory are not negative.
pub view_of_nonneg : (rows : List (ℕ × Row)) → All (λ r. is_nonneg r.0 ≡ true) (view_of rows)
unfolding view_of
view_of_nonneg [] = tt
view_of_nonneg ((n, r) ∷ rows) = (refl, view_of_nonneg rows)

-- The statements of a repository are different texts.
pub record IsDistinct (k : Statements) : Type 0 where
  pub get_all_get : str_eq k.get_all k.get ≡ false
  pub update_insert : str_eq k.update k.insert ≡ false
  pub delete_insert : str_eq k.delete k.insert ≡ false
  pub delete_update : str_eq k.delete k.update ≡ false

module _ (k : Statements) (extra : String → Row → Rows → List Row) (refused : Row → Rows → Bool)
    (d : IsDistinct k) where
  abbrev M : Sqlite
  M = memory k extra refused

  pub get_rows_lem :
      (db : Store) (id : ℤ)
      → run_query k extra refused db k.get (int id ∷ [])
        ≡ selected id (find_row id (view_of db.rows))
  unfolding run_query
  get_rows_lem db id = rw (eq_refl k.get)

  pub get_all_rows_lem :
      (db : Store) → run_query k extra refused db k.get_all [] ≡ map full_row (view_of db.rows)
  unfolding run_query
  get_all_rows_lem db = rw (d.get_all_get, eq_refl k.get_all)

  insert_lem :
      (db : Store) (vs : Row)
      → run_exec k extra refused db k.insert vs ≡ (
          if refused vs (view_of db.rows) then (false, db) else (
            true,
            record {
              rows = db.rows ++ ((fresh db.rows, vs) ∷ []);
              last = pos (fresh db.rows);
              changed = pos 1;
            },
          ))
  unfolding run_exec
  insert_lem db vs = rw (eq_refl k.insert)

  pub insert_refused :
      (db : Store) (vs : Row)
      → refused vs (view_of db.rows) ≡ true
      → (run_exec k extra refused db k.insert vs).0 ≡ false
  insert_refused db vs taken = rw (insert_lem db vs, taken) refl

  update_lem :
      (db : Store) (vs : Row) (id : ℤ)
      → run_exec k extra refused db k.update (vs ++ (int id ∷ [])) ≡ (
        true,
        record db {
          rows = replace_in id vs db.rows;
          changed = count_of (find_row id (view_of db.rows));
        },
      )
  unfolding run_exec
  update_lem db vs id = rw (d.update_insert, eq_refl k.update, split_id-append vs id)

  delete_lem :
      (db : Store) (id : ℤ)
      → run_exec k extra refused db k.delete (int id ∷ []) ≡ (
        true,
        record db {
          rows = remove_in id db.rows;
          changed = count_of (find_row id (view_of db.rows));
        },
      )
  unfolding run_exec
  delete_lem db id = rw (d.delete_insert, d.delete_update, eq_refl k.delete)

  pub insert_done_lem :
      (db : Store) (vs : Row)
      → (run_exec k extra refused db k.insert vs).0 ≡ true
      → let db' = (run_exec k extra refused db k.insert vs).1 in
        (view_of db'.rows ≡ view_of db.rows ++ ((db'.last, vs) ∷ []))
        × (find_row db'.last (view_of db.rows) ≡ none)
  insert_done_lem db vs h = elim (Bool-cases (refused vs (view_of db.rows))) [
    | inl r ↦ absurd (ground (arith, insert_lem db vs))
    | inr r ↦
        rw (insert_lem db vs, r)
          (
            view_of-append db.rows (fresh db.rows) vs,
            find_row-fresh (fresh db.rows) db.rows (ground arith),
          )
  ]

  pub insert_failed_lem :
      (db : Store) (vs : Row)
      → (run_exec k extra refused db k.insert vs).0 ≡ false
      → view_of (run_exec k extra refused db k.insert vs).1.rows ≡ view_of db.rows
  insert_failed_lem db vs h = ground (arith, insert_lem db vs)

  pub update_done_lem :
      (db : Store) (vs : Row) (id : ℤ)
      → let db' = (run_exec k extra refused db k.update (vs ++ (int id ∷ []))).1 in
        (view_of db'.rows ≡ replace_row id vs (view_of db.rows))
        × (is_positive db'.changed ≡ is_some (find_row id (view_of db.rows)))
  update_done_lem db vs id =
      rw (update_lem db vs id)
        (view_of-replace id vs db.rows, positive-count (find_row id (view_of db.rows)))

  pub delete_done_lem :
      (db : Store) (id : ℤ)
      → let db' = (run_exec k extra refused db k.delete (int id ∷ [])).1 in
        (view_of db'.rows ≡ remove_row id (view_of db.rows))
        × (is_positive db'.changed ≡ is_some (find_row id (view_of db.rows)))
  delete_done_lem db id =
      rw (delete_lem db id)
        (view_of-remove id db.rows, positive-count (find_row id (view_of db.rows)))

  update_ok :
      (db : Store) (vs : Row) (id : ℤ)
      → (run_exec k extra refused db k.update (vs ++ (int id ∷ []))).0 ≡ true
  update_ok db vs id = rw (update_lem db vs id)

  delete_ok : (db : Store) (id : ℤ) → (run_exec k extra refused db k.delete (int id ∷ [])).0 ≡ true
  delete_ok db id = rw (delete_lem db id)

  pub update_failed_lem :
      (db : Store) (vs : Row) (id : ℤ)
      → (run_exec k extra refused db k.update (vs ++ (int id ∷ []))).0 ≡ false
      → view_of (run_exec k extra refused db k.update (vs ++ (int id ∷ []))).1.rows
        ≡ view_of db.rows
  update_failed_lem db vs id h = ground (arith, update_ok db vs id)

  pub delete_failed_lem :
      (db : Store) (id : ℤ)
      → (run_exec k extra refused db k.delete (int id ∷ [])).0 ≡ false
      → view_of (run_exec k extra refused db k.delete (int id ∷ [])).1.rows ≡ view_of db.rows
  delete_failed_lem db id h = ground (arith, delete_ok db id)

  unfoldable pub memory-IsTable : IsTable M k
  memory-IsTable = record {
    view = λ db. view_of db.rows;
    get_rows = get_rows_lem;
    get_all_rows = get_all_rows_lem;
    insert_done = insert_done_lem;
    insert_failed = insert_failed_lem;
    update_done = λ db vs id h. update_done_lem db vs id;
    update_failed = update_failed_lem;
    delete_done = λ db id h. delete_done_lem db id;
    delete_failed = delete_failed_lem;
  }
