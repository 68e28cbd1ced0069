-- ===== src/Repository/Reference.antt =====
-- What the four repositories of reference tables share: their functions differ in the statements
-- alone, and in nothing else than the table's name.
pub mod Crud
use sending_system.Base.{ℕ, suc, Bool, Option, none, some, List, [], ◌∷◌, Bytes, ℤ, if◌then◌else◌}
use sending_system.Sqlite.{
  Statements, Sqlite, int, Row, bind_text_or_null, column, column_int64, run_insert, run_change,
  first_row,
}
use sending_system.Sqlite.Rows.{Alloc, Fetched, dup_col, fetch_all}
use sending_system.Database.Models.{ReferenceRow}

module _ (E : Sqlite) (malloc : ℕ → Bool) (k : Statements) where
  unfoldable pub insert : E.Db → Option Bytes → Option ℤ × E.Db
  unfolding run_insert bind_text_or_null
  insert db name = run_insert E db k.insert (bind_text_or_null name ∷ [])

  -- The fields of a row, read in the order of the assignments.
  unfoldable pub read_row : Row → Alloc ReferenceRow
  unfolding column column_int64 dup_col
  read_row r n =
      let id = column_int64 E (column r 0) in
      let (name, m) = dup_col E malloc (column r 1) n in (record { id = id; name = name }, m)

  -- NULL if there is no such row, or no memory for it.
  unfoldable pub get : E.Db → ℤ → Alloc (Option ReferenceRow)
  unfolding first_row read_row
  get db id n = elim (first_row E db k.get (int id ∷ [])) [
    | none ↦ (none, n)
    | some r ↦
        let (out, m) = read_row r (suc n) in if malloc n then (some out, m) else (none, suc n)
  ]

  unfoldable pub decode_row : Row → Alloc (Option ReferenceRow)
  unfolding read_row
  decode_row r n = let (row, m) = read_row r n in (some row, m)

  unfoldable pub get_all : E.Db → Alloc (Fetched ReferenceRow)
  unfolding decode_row fetch_all
  get_all db = fetch_all malloc decode_row E db k.get_all []

  unfoldable pub update : E.Db → ℤ → Option Bytes → Bool × E.Db
  unfolding run_change bind_text_or_null
  update db id name = run_change E db k.update (bind_text_or_null name ∷ int id ∷ [])

  unfoldable pub delete : E.Db → ℤ → Bool × E.Db
  unfolding run_change
  delete db id = run_change E db k.delete (int id ∷ [])
