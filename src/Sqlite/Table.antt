-- ===== src/Sqlite/Table.antt =====
-- What the program relies on of SQLite, for one table with a row id and the statements of its
-- repository: the documented meaning of INSERT, SELECT, UPDATE and DELETE by id.
use sending_system.Base.{
  ◌≡◌, refl, Bool, true, false, Option, none, some, List, [], ◌∷◌, ◌++◌, map, arith, ℤ, int_eq,
  int_eq_refl, eq_of_int_eq, if◌then◌else◌,
}
use sending_system.Sqlite.{Sqlite, Statements, int, Row, is_positive}

-- The rows of a table in the order of their ids: the id, and the other columns.
abbrev pub Rows : Type 0
Rows = List (ℤ × Row)

unfoldable pub find_row : ℤ → Rows → Option Row
find_row id [] = none
find_row id ((j, r) ∷ rows) = if int_eq id j then some r else find_row id rows

unfoldable pub replace_row : ℤ → Row → Rows → Rows
replace_row id vs [] = []
replace_row id vs ((j, r) ∷ rows) = (j, if int_eq id j then vs else r) ∷ replace_row id vs rows

unfoldable pub remove_row : ℤ → Rows → Rows
remove_row id [] = []
remove_row id ((j, r) ∷ rows) =
    let rest = remove_row id rows in if int_eq id j then rest else (j, r) ∷ rest

abbrev pub is_some : Option Row → Bool
is_some none = false
is_some (some r) = true

-- A row as a SELECT of all columns yields it.
abbrev pub full_row : ℤ × Row → Row
full_row (id, r) = int id ∷ r

abbrev pub selected : ℤ → Option Row → List Row
selected id none = []
selected id (some r) = (int id ∷ r) ∷ []

pub record IsTable (E : Sqlite) (k : Statements) : Type 0 where
  pub view : E.Db → Rows
  pub get_rows :
      (db : E.Db) (id : ℤ) → E.query db k.get (int id ∷ []) ≡ selected id (find_row id (view db))
  pub get_all_rows : (db : E.Db) → E.query db k.get_all [] ≡ map full_row (view db)
  -- AUTOINCREMENT gives a new row an id above all others.
  pub insert_done :
      (db : E.Db) (vs : Row)
      → (E.exec db k.insert vs).0 ≡ true
      → let db' = (E.exec db k.insert vs).1 in
        (view db' ≡ view db ++ ((E.last_insert_rowid db', vs) ∷ []))
        × (find_row (E.last_insert_rowid db') (view db) ≡ none)
  pub insert_failed :
      (db : E.Db) (vs : Row)
      → (E.exec db k.insert vs).0 ≡ false
      → view (E.exec db k.insert vs).1 ≡ view db
  pub update_done :
      (db : E.Db) (vs : Row) (id : ℤ)
      → (E.exec db k.update (vs ++ (int id ∷ []))).0 ≡ true
      → let db' = (E.exec db k.update (vs ++ (int id ∷ []))).1 in
        (view db' ≡ replace_row id vs (view db))
        × (is_positive (E.changes db') ≡ is_some (find_row id (view db)))
  pub update_failed :
      (db : E.Db) (vs : Row) (id : ℤ)
      → (E.exec db k.update (vs ++ (int id ∷ []))).0 ≡ false
      → view (E.exec db k.update (vs ++ (int id ∷ []))).1 ≡ view db
  pub delete_done :
      (db : E.Db) (id : ℤ)
      → (E.exec db k.delete (int id ∷ [])).0 ≡ true
      → let db' = (E.exec db k.delete (int id ∷ [])).1 in
        (view db' ≡ remove_row id (view db))
        × (is_positive (E.changes db') ≡ is_some (find_row id (view db)))
  pub delete_failed :
      (db : E.Db) (id : ℤ)
      → (E.exec db k.delete (int id ∷ [])).0 ≡ false
      → view (E.exec db k.delete (int id ∷ [])).1 ≡ view db

-- A row put behind the others is found under its id, if that is new, and no other id is touched.
pub find_row-append :
    (rows : Rows) (id j : ℤ) (vs : Row)
    → find_row id rows ≡ none
    → find_row j (rows ++ ((id, vs) ∷ [])) ≡ (if int_eq j id then some vs else find_row j rows)
unfolding find_row
find_row-append [] id j vs h = refl
find_row-append ((i, r) ∷ rows) id j vs h = ground (
  arith,
  find_row-append rows id j vs,
  eq_of_int_eq j i,
  eq_of_int_eq j id,
  int_eq_refl id,
  int_eq_refl i,
)

-- An update or a delete of an id that is not there changes nothing.
pub replace_row_absent :
    (rows : Rows) (id : ℤ) (vs : Row) → find_row id rows ≡ none → replace_row id vs rows ≡ rows
unfolding find_row replace_row
replace_row_absent [] id vs h = refl
replace_row_absent ((i, r) ∷ rows) id vs h = ground (arith, replace_row_absent rows id vs)

pub remove_row_absent : (rows : Rows) (id : ℤ) → find_row id rows ≡ none → remove_row id rows ≡ rows
unfolding find_row remove_row
remove_row_absent [] id h = refl
remove_row_absent ((i, r) ∷ rows) id h = ground (arith, remove_row_absent rows id)

pub find_row-replace :
    (rows : Rows) (id j : ℤ) (vs : Row)
    → find_row j (replace_row id vs rows) ≡ (
        if int_eq j id
        then (if is_some (find_row id rows) then some vs else none)
        else find_row j rows)
unfolding find_row replace_row
find_row-replace [] id j vs = ground arith
find_row-replace ((i, r) ∷ rows) id j vs = ground (
  arith,
  find_row-replace rows id j vs,
  eq_of_int_eq j i,
  eq_of_int_eq j id,
  eq_of_int_eq id i,
  int_eq_refl id,
  int_eq_refl i,
)

pub find_row-remove :
    (rows : Rows) (id j : ℤ)
    → find_row j (remove_row id rows) ≡ (if int_eq j id then none else find_row j rows)
unfolding find_row remove_row
find_row-remove [] id j = ground arith
find_row-remove ((i, r) ∷ rows) id j = ground (
  arith,
  find_row-remove rows id j,
  eq_of_int_eq j i,
  eq_of_int_eq j id,
  eq_of_int_eq id i,
  int_eq_refl id,
  int_eq_refl i,
)
