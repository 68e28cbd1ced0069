-- ===== src/Sqlite/Runs.antt =====
-- The bodies of the repository functions, on a table.
use mathlib.Core.Option
use sending_system.Base.{
  ◌≡◌, refl, Bool, true, false, Option, none, some, [], ◌∷◌, ◌++◌, arith, ℤ, if◌then◌else◌,
}
use sending_system.Sqlite.{Sqlite, Statements, int, Row, run_insert, run_change, first_row}
use sending_system.Sqlite.Table.{
  IsTable, find_row, replace_row, remove_row, is_some, selected, replace_row_absent,
  remove_row_absent,
}

none_of_is_some : (o : Option Row) → is_some o ≡ false → o ≡ none
none_of_is_some none h = refl
none_of_is_some (some r) h = ground arith

module _ (E : Sqlite) (k : Statements) (T : IsTable E k) (db : E.Db) where
  first_of_selected :
      (id : ℤ) (o : Option Row)
      → (elim (selected id o) [ [] ↦ none | r ∷ _ ↦ some r ]) ≡ Option.map (λ r. int id ∷ r) o
  first_of_selected id none = refl
  first_of_selected id (some r) = refl

  -- SELECT by id.
  pub first_row_get :
      (id : ℤ)
      → E.prepare db k.get ≡ true
      → first_row E db k.get (int id ∷ []) ≡ Option.map (λ r. int id ∷ r) (find_row id (T.view db))
  unfolding first_row
  first_row_get id ready = rw (ready, T.get_rows db id) (first_of_selected id _)

  -- The row of a successful insert is the last one, under a new id.
  pub run_insert-some :
      (vs : Row) {id : ℤ} {db' : E.Db}
      → run_insert E db k.insert vs ≡ (some id, db')
      → (T.view db' ≡ T.view db ++ ((id, vs) ∷ [])) × (find_row id (T.view db) ≡ none)
  unfolding run_insert
  run_insert-some vs h = ground (arith, T.insert_done db vs)

  -- A failed insert leaves the table alone.
  pub run_insert-none :
      (vs : Row) {db' : E.Db} → run_insert E db k.insert vs ≡ (none, db') → T.view db' ≡ T.view db
  unfolding run_insert
  run_insert-none vs h = ground (arith, T.insert_failed db vs)

  -- An update that returns 0 has replaced a row that was there; one that returns -1 changed none.
  pub run_update :
      (vs : Row) (id : ℤ) {ok : Bool} {db' : E.Db}
      → run_change E db k.update (vs ++ (int id ∷ [])) ≡ (ok, db')
      → (T.view db' ≡ (if ok then replace_row id vs (T.view db) else T.view db))
        × (ok ≡ true → is_some (find_row id (T.view db)) ≡ true)
  unfolding run_change
  run_update vs id {ok} h = ground (
    arith,
    T.update_done db vs id,
    T.update_failed db vs id,
    none_of_is_some (find_row id (T.view db)),
    replace_row_absent (T.view db) id vs,
  )

  pub run_delete :
      (id : ℤ) {ok : Bool} {db' : E.Db}
      → run_change E db k.delete (int id ∷ []) ≡ (ok, db')
      → (T.view db' ≡ (if ok then remove_row id (T.view db) else T.view db))
        × (ok ≡ true → is_some (find_row id (T.view db)) ≡ true)
  unfolding run_change
  run_delete id {ok} h = ground (
    arith,
    T.delete_done db id,
    T.delete_failed db id,
    none_of_is_some (find_row id (T.view db)),
    remove_row_absent (T.view db) id,
  )
