-- ===== src/Repository/Messages.antt =====
-- database/message_repository.c
pub mod Crud
pub mod LastSuccessful
use sending_system.Base.{
  ℕ, suc, String, Bool, true, false, Option, none, some, List, [], ◌∷◌, Bytes, ℤ, if◌then◌else◌,
}
use sending_system.Sqlite.{
  Statements, Sqlite, Value, int, Row, bind_text_or_null, column, column_int64, run_insert,
  run_change, first_row,
}
use sending_system.Sqlite.Rows.{Alloc, Fetched, dup_col, fetch_all}
use sending_system.Database.Models.{Message}

abbrev pub message_sql : Statements
message_sql = record {
  insert =
      "INSERT INTO Message(connectionId, messageStatusId, messageTypeId, directionId, response, sendingTime, request) VALUES(?,?,?,?,?,?,?)";
  get =
      "SELECT id, connectionId, messageStatusId, messageTypeId, directionId, response, sendingTime, request FROM Message WHERE id=?";
  get_all =
      "SELECT id, connectionId, messageStatusId, messageTypeId, directionId, response, sendingTime, request FROM Message ORDER BY id";
  update =
      "UPDATE Message SET connectionId=?, messageStatusId=?, messageTypeId=?, directionId=?, response=?, sendingTime=?, request=? WHERE id=?";
  delete = "DELETE FROM Message WHERE id=?";
}

abbrev pub k_lastok : String
k_lastok =
    "SELECT id, connectionId, messageStatusId, messageTypeId, directionId, response, sendingTime, request FROM Message WHERE messageStatusId=2 ORDER BY id DESC LIMIT 1"

-- The seven columns that an insert binds.
unfoldable pub bind_message : ℤ → ℤ → ℤ → ℤ → Option Bytes → Option Bytes → Option Bytes → Row
unfolding bind_text_or_null
bind_message connection_id status_id type_id direction_id response sending_time request =
    int connection_id
    ∷ int status_id
    ∷ int type_id
    ∷ int direction_id
    ∷ bind_text_or_null response
    ∷ bind_text_or_null sending_time
    ∷ bind_text_or_null request
    ∷ []

module _ (E : Sqlite) (malloc : ℕ → Bool) where
  -- The strings of a row, once the struct itself is allocated.
  unfoldable pub read_message : Row → Alloc Message
  unfolding column column_int64 dup_col
  read_message r n =
      let (response, n1) = dup_col E malloc (column r 5) n in
      let (sending_time, n2) = dup_col E malloc (column r 6) n1 in
      let (request, n3) = dup_col E malloc (column r 7) n2 in
      (
        record {
          id = column_int64 E (column r 0);
          connection_id = column_int64 E (column r 1);
          message_status_id = column_int64 E (column r 2);
          message_type_id = column_int64 E (column r 3);
          direction_id = column_int64 E (column r 4);
          response = response;
          sending_time = sending_time;
          request = request;
        },
        n3,
      )

  unfoldable pub row_to_message : Row → Alloc (Option Message)
  unfolding read_message
  row_to_message r n =
      let (m, n') = read_message r (suc n) in if malloc n then (some m, n') else (none, suc n)

  unfoldable pub message_insert :
      E.Db → ℤ → ℤ → ℤ → ℤ → Option Bytes → Option Bytes → Option Bytes → Option ℤ × E.Db
  unfolding bind_message run_insert
  message_insert db connection_id status_id type_id direction_id response sending_time request =
      run_insert E db message_sql.insert
        (bind_message connection_id status_id type_id direction_id response sending_time request)

  -- A query for one row.
  unfoldable pub message_of : Option Row → Alloc (Option Message)
  unfolding row_to_message
  message_of none n = (none, n)
  message_of (some r) n = row_to_message r n

  unfoldable pub message_get : E.Db → ℤ → Alloc (Option Message)
  unfolding first_row message_of
  message_get db id = message_of (first_row E db message_sql.get (int id ∷ []))

  unfoldable pub message_get_all : E.Db → Alloc (Fetched Message)
  unfolding row_to_message fetch_all
  message_get_all db = fetch_all malloc row_to_message E db message_sql.get_all []

  unfoldable pub message_get_last_successful : E.Db → Alloc (Option Message)
  unfolding first_row message_of
  message_get_last_successful db = message_of (first_row E db k_lastok [])

  unfoldable pub message_update :
      E.Db → ℤ → ℤ → ℤ → ℤ → ℤ → Option Bytes → Option Bytes → Option Bytes → Bool × E.Db
  unfolding bind_text_or_null run_change
  message_update db id connection_id status_id type_id direction_id response sending_time request =
      run_change E db message_sql.update (
        int connection_id
        ∷ int status_id
        ∷ int type_id
        ∷ int direction_id
        ∷ bind_text_or_null response
        ∷ bind_text_or_null sending_time
        ∷ bind_text_or_null request
        ∷ int id
        ∷ [])

  unfoldable pub message_delete : E.Db → ℤ → Bool × E.Db
  unfolding run_change
  message_delete db id = run_change E db message_sql.delete (int id ∷ [])
