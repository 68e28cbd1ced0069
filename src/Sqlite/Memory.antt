-- ===== src/Sqlite/Memory.antt =====
-- A table in memory: an instance of the interface, for which the assumptions of `Table` hold.
pub mod Laws
use Prim.Native.Nat.{max}
use package.text.Mathlib.Text.{◌==◌ as str_eq}
use package.text.Mathlib.TextPositions.{eq_refl}
use sending_system.Base.{
  ℕ, zero, suc, ◌+◌, ◌≤◌, ◌<◌, ◌≡◌, ◌≢◌, refl, ap, sym, ◌∙◌, String, Bool, true, false, ◌&&◌,
  Option, none, some, List, [], ◌∷◌, ◌++◌, map, arith, Bytes, ℤ, pos, negsuc, int_eq, int_eq_refl,
  eq_of_int_eq, is_nonneg, All, if◌then◌else◌, Bool-cases, Option-cases, inl, inr,
}
use sending_system.Sqlite.{Sqlite, Statements, Value, null, int, text, Row, is_positive}
use sending_system.Sqlite.Table.{
  Rows, IsTable, find_row, replace_row, remove_row, is_some, full_row, selected,
}

pub record Store : Type 0 where
  pub rows : List (ℕ × Row)
  pub last : ℤ
  pub changed : ℤ

abbrev pub empty : Store
empty = record { rows = []; last = pos 0; changed = pos 0 }

unfoldable pub view_of : List (ℕ × Row) → Rows
view_of [] = []
view_of ((n, r) ∷ rows) = (pos n, r) ∷ view_of rows

unfoldable pub fresh : List (ℕ × Row) → ℕ
fresh [] = 1
fresh ((n, r) ∷ rows) = max (suc n) (fresh rows)

unfoldable pub replace_in : ℤ → Row → List (ℕ × Row) → List (ℕ × Row)
replace_in id vs [] = []
replace_in id vs ((n, r) ∷ rows) = (n, if int_eq id (pos n) then vs else r) ∷ replace_in id vs rows

unfoldable pub remove_in : ℤ → List (ℕ × Row) → List (ℕ × Row)
remove_in id [] = []
remove_in id ((n, r) ∷ rows) =
    let rest = remove_in id rows in if int_eq id (pos n) then rest else (n, r) ∷ rest

-- The bound values of an update: the columns, and the id behind them.
unfoldable pub split_id : Row → Row × ℤ
split_id [] = ([], pos 0)
split_id (int id ∷ []) = ([], id)
split_id (v ∷ r) = let (vs, id) = split_id r in (v ∷ vs, id)

abbrev pub bound_id : Row → ℤ
bound_id (int id ∷ r) = id
bound_id _ = pos 0

abbrev pub count_of : Option Row → ℤ
count_of none = pos 0
count_of (some r) = pos 1

module _ (k : Statements) (extra : String → Row → Rows → List Row)
    (refused : Row → Rows → Bool) where
  unfoldable pub run_query : Store → String → Row → List Row
  unfolding find_row view_of
  run_query db sql vs =
      if str_eq sql k.get
      then selected (bound_id vs) (find_row (bound_id vs) (view_of db.rows))
      else if str_eq sql k.get_all
      then map full_row (view_of db.rows)
      else extra sql vs (view_of db.rows)

  unfoldable pub run_exec : Store → String → Row → Bool × Store
  unfolding view_of fresh replace_in remove_in split_id find_row
  run_exec db sql vs =
      if str_eq sql k.insert
      then (if refused vs (view_of db.rows) then (false, db) else (
        true,
        record {
          rows = db.rows ++ ((fresh db.rows, vs) ∷ []);
          last = pos (fresh db.rows);
          changed = pos 1;
        },
      ))
      else if str_eq sql k.update
      then (
        true,
        record db {
          rows = replace_in (split_id vs).1 (split_id vs).0 db.rows;
          changed = count_of (find_row (split_id vs).1 (view_of db.rows));
        },
      )
      else if str_eq sql k.delete
      then (
        true,
        record db {
          rows = remove_in (bound_id vs) db.rows;
          changed = count_of (find_row (bound_id vs) (view_of db.rows));
        },
      )
      else (false, db)

  abbrev pub memory : Sqlite
  memory = record {
    Db = Store;
    prepare = λ db sql. true;
    query = run_query;
    exec = run_exec;
    last_insert_rowid = λ db. db.last;
    changes = λ db. db.changed;
    text_to_int = λ t. pos 0;
    int_to_text = λ z. [];
  }
