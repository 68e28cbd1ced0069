-- ===== src/Repository/Messages/LastSuccessful.antt =====
-- `message_get_last_successful`, whose query asks for the status 2.
use sending_system.Base.{
  ℕ, ◌≡◌, refl, Bool, true, false, none, some, List, [], ◌∷◌, String, ◌∙◌, ap, arith, ℤ, pos,
  int_eq, eq_of_int_eq, All, if◌then◌else◌, List-cases, Bool-cases, inl, inr,
}
use sending_system.Sqlite.{Sqlite, null, int, text, Row, column, column_int64}
use sending_system.Sqlite.Table.{Rows, IsTable, full_row}
use sending_system.Database.Models.{Message, MessageStatusId, success, failed, status_id}
use sending_system.Repository.Messages.{message_sql, k_lastok, message_get_last_successful}

-- The column messageStatusId, the second one after the id, equals a number.
unfoldable pub has_status : ℤ → Row → Bool
has_status s (_ ∷ int z ∷ r) = int_eq z s
has_status s _ = false

-- WHERE messageStatusId = s ORDER BY id DESC LIMIT 1, over rows in the order of their ids.
unfoldable pub last_with_status : ℤ → Rows → List Row
unfolding has_status
last_with_status s [] = []
last_with_status s (e ∷ rows) = elim (last_with_status s rows) [
  | r ∷ rest ↦ r ∷ rest
  | [] ↦ if has_status s e.1 then full_row e ∷ [] else []
]

-- The query for the last row with a status, as SQL.
abbrev pub select_last : MessageStatusId → String
select_last success =
    "SELECT id, connectionId, messageStatusId, messageTypeId, directionId, response, sendingTime, request FROM Message WHERE messageStatusId=1 ORDER BY id DESC LIMIT 1"
select_last failed =
    "SELECT id, connectionId, messageStatusId, messageTypeId, directionId, response, sendingTime, request FROM Message WHERE messageStatusId=2 ORDER BY id DESC LIMIT 1"

-- SQLite answers the query for either status by the last row that has it.
pub record IsStatusTable (E : Sqlite) (T : IsTable E message_sql) : Type 0 where
  pub status_rows :
      (db : E.Db) (s : MessageStatusId)
      → E.query db (select_last s) [] ≡ last_with_status (status_id s) (T.view db)

-- Which of the two the code asks.
asked : k_lastok ≡ select_last failed
asked = refl

last_with_status-has :
    (E : Sqlite) (s : ℤ) (rows : Rows) (r : Row) (rest : List Row)
    → last_with_status s rows ≡ r ∷ rest
    → column_int64 E (column r 2) ≡ s
unfolding last_with_status column column_int64
last_with_status-has E s [] r rest h = absurd (ground arith)
last_with_status-has E s ((id, vs) ∷ rows) r rest h = elim (List-cases (last_with_status s rows)) [
  | inr (r', rest', later) ↦ last_with_status-has E s rows r rest (ground arith)
  | inl last ↦ elim (Bool-cases (has_status s vs)) [
    | inr other ↦ absurd (ground arith)
    | inl here ↦ go vs here (ground arith)
  ]
]
  where
    go :
        (vs : Row)
        → has_status s vs ≡ true
        → r ≡ full_row (id, vs)
        → column_int64 E (column r 2) ≡ s
    go (c ∷ int z ∷ vs) here e = rw e (eq_of_int_eq z s here)
    go [] here e = absurd (ground arith)
    go (c ∷ []) here e = absurd (ground arith)
    go (c ∷ null ∷ vs) here e = absurd (ground arith)
    go (c ∷ text t ∷ vs) here e = absurd (ground arith)

last_with_status-nil :
    (s t : ℤ) (rows : Rows)
    → int_eq t s ≡ false
    → All (λ e. has_status t e.1 ≡ true) rows
    → last_with_status s rows ≡ []
unfolding last_with_status
last_with_status-nil s t [] ne all = refl
last_with_status-nil s t ((id, vs) ∷ rows) ne (here, all) =
    rw (last_with_status-nil s t rows ne all) (go vs here)
  where
    go :
        (vs : Row)
        → has_status t vs ≡ true
        → (if has_status s vs then full_row (id, vs) ∷ [] else []) ≡ []
    go (c ∷ int z ∷ vs) here = ground (arith, eq_of_int_eq z t here)
    go [] here = refl
    go (c ∷ []) here = refl
    go (c ∷ null ∷ vs) here = refl
    go (c ∷ text x ∷ vs) here = refl

module _ (E : Sqlite) (malloc : ℕ → Bool) (T : IsTable E message_sql) (S : IsStatusTable E T) where
  lastok_rows : (db : E.Db) → E.query db k_lastok [] ≡ last_with_status (pos 2) (T.view db)
  unfolding status_id
  lastok_rows db = ap (λ sql. E.query db sql []) asked ∙ S.status_rows db failed

  -- Every message that `message_get_last_successful` returns has the status FAILED, where SQLite
  -- answers the query for either status by the last row that has it.
  pub message_get_last_successful-failed :
      (db : E.Db) (n : ℕ) (m : Message)
      → (message_get_last_successful E malloc db n).0 ≡ some m
      → m.message_status_id ≡ status_id failed
  unfolding message_get_last_successful status_id
  message_get_last_successful-failed db n m h =
      elim (List-cases (last_with_status (pos 2) (T.view db))) [
        | inl absent ↦ absurd (ground (arith, lastok_rows db))
        | inr (r, rest, found) ↦
            ground (arith, lastok_rows db, last_with_status-has E (pos 2) (T.view db) r rest found)
      ]

  -- On a table whose messages all have the status SUCCESS, `message_get_last_successful` returns
  -- NULL, where SQLite answers the query for either status by the last row that has it.
  pub message_get_last_successful_misses :
      (db : E.Db) (n : ℕ)
      → All (λ e. has_status (status_id success) e.1 ≡ true) (T.view db)
      → (message_get_last_successful E malloc db n).0 ≡ none
  unfolding message_get_last_successful status_id
  message_get_last_successful_misses db n all =
      ground (arith, lastok_rows db, last_with_status-nil (pos 2) (pos 1) (T.view db) refl all)
