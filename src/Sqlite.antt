-- ===== src/Sqlite.antt =====
-- The SQLite calls that the repositories make. The library is not part of the repository: an
-- open database is a value of an unknown type, and the calls are the fields of a record.
pub mod Rows
pub mod Table
pub mod Runs
pub mod Memory
use sending_system.Base.{
  ℕ, zero, suc, String, Bool, true, false, Option, none, some, List, [], ◌∷◌, Bytes, ℤ, pos, negsuc,
  if◌then◌else◌,
}

-- A column of a row, or the value bound to a parameter.
pub data Value : Type 0 where
  null : Value
  int : ℤ → Value
  text : Bytes → Value

abbrev pub Row : Type 0
Row = List Value

-- The texts k_insert, k_get, k_getall, k_update and k_delete of a repository.
pub record Statements : Type 0 where
  pub insert : String
  pub get : String
  pub get_all : String
  pub update : String
  pub delete : String

pub record Sqlite : Type 1 where
  pub Db : Type 0
  -- `sqlite3_prepare_v2(db, sql, ...) == SQLITE_OK`
  pub prepare : Db → String → Bool
  -- The rows for which `sqlite3_step` of a query returns SQLITE_ROW, one after the other.
  pub query : Db → String → List Value → List Row
  -- `sqlite3_step` of any other statement: whether it returned SQLITE_DONE, and the database after.
  pub exec : Db → String → List Value → Bool × Db
  pub last_insert_rowid : Db → ℤ
  pub changes : Db → ℤ
  -- The conversions of a column that is read as another type.
  pub text_to_int : Bytes → ℤ
  pub int_to_text : ℤ → Bytes

-- `n > 0`
abbrev pub is_positive : ℤ → Bool
is_positive (pos zero) = false
is_positive (pos (suc n)) = true
is_positive (negsuc n) = false

-- `db_bind_text_or_null`, and also `sqlite3_bind_text`, which binds NULL for a null pointer.
unfoldable pub bind_text_or_null : Option Bytes → Value
bind_text_or_null none = null
bind_text_or_null (some v) = text v

-- The column `i` of the current row.
unfoldable pub column : Row → ℕ → Value
column [] i = null
column (v ∷ r) zero = v
column (v ∷ r) (suc i) = column r i

module _ (E : Sqlite) where
  open E use {Db, prepare, query, exec, last_insert_rowid, changes, text_to_int, int_to_text}

  unfoldable pub column_int64 : Value → ℤ
  column_int64 null = pos 0
  column_int64 (int z) = z
  column_int64 (text t) = text_to_int t

  unfoldable pub column_text : Value → Option Bytes
  column_text null = none
  column_text (int z) = some (int_to_text z)
  column_text (text t) = some t

  -- prepare, bind, step, finalize, and the id of the new row: the body of every `*_insert`.
  -- `none` is the result -1, with `*out_id` left alone.
  unfoldable pub run_insert : Db → String → List Value → Option ℤ × Db
  run_insert db sql vs =
      if prepare db sql
      then (let (done, db') = exec db sql vs in
          if done then (some (last_insert_rowid db'), db') else (none, db'))
      else (none, db)

  -- The body of every `*_update` and `*_delete`: `true` is the result 0.
  unfoldable pub run_change : Db → String → List Value → Bool × Db
  run_change db sql vs =
      if prepare db sql
      then (let (done, db') = exec db sql vs in
          (if done then is_positive (changes db') else false, db'))
      else (false, db)

  -- prepare, bind and the first step of a query.
  unfoldable pub first_row : Db → String → List Value → Option Row
  first_row db sql vs =
      if prepare db sql then elim (query db sql vs) [ [] ↦ none | r ∷ _ ↦ some r ] else none
