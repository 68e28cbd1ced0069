-- ===== src/Tests/History.antt =====
-- The tables of messages and of named connections in memory.
use sending_system.Base.{
  ℕ, ◌≡◌, ◌≢◌, ◌⊎◌, refl, Bool, true, false, ◌==◌, Option, none, some, [], ◌∷◌, Bytes, ℤ, pos,
}
use sending_system.Sqlite.{column_text, Row, null, text, int}
use sending_system.Sqlite.Memory.{Store, empty, view_of, run_exec, run_query}
use sending_system.Sqlite.Rows.Laws.{AllOrNothing}
use sending_system.Database.Models.{Message, status_id, failed}
use sending_system.Repository.Messages.{
  message_insert, message_get, message_get_all, message_update, message_delete,
  message_get_last_successful,
}
use sending_system.Repository.Messages.Crud.{
  message_get_all-AllOrNothing, message_get-insert, message_get-update_delete,
}
use sending_system.Repository.Messages.LastSuccessful.{
  last_with_status, message_get_last_successful-failed,
}
use sending_system.Repository.NamedConnections.{
  named_connection_insert, named_connection_get, named_connection_update, named_connection_delete,
}
use sending_system.Repository.NamedConnections.Crud.{named, named_connection_get-changed}
use sending_system.Tests.Samples.{
  messages, named_connections, message_table, named_connection_table, status_table,
}

abbrev ok : ℕ → Bool
ok n = true

-- The second allocation fails.
abbrev scarce : ℕ → Bool
scarce n = elim (n == 1) [ true ↦ false | false ↦ true ]

abbrev sent_as : ℤ → Message
sent_as status = record {
  id = pos 1;
  connection_id = pos 1;
  message_status_id = status;
  message_type_id = pos 1;
  direction_id = pos 2;
  response = some (104 ∷ 105 ∷ []);
  sending_time = none;
  request = some (123 ∷ 125 ∷ []);
}

abbrev columns : ℤ → Row
columns status =
    int (pos 1)
    ∷ int status
    ∷ int (pos 1)
    ∷ int (pos 2)
    ∷ text (104 ∷ 105 ∷ [])
    ∷ null
    ∷ text (123 ∷ 125 ∷ [])
    ∷ []

abbrev one_row : Row → Store
one_row r = record { rows = (1, r) ∷ []; last = pos 1; changed = pos 1 }

abbrev no_row : Store
no_row = record { rows = []; last = pos 1; changed = pos 1 }

message_get_all-AllOrNothing_example :
    AllOrNothing [] 1 (message_get_all messages scarce (one_row (columns (pos 2))) 0).0
unfolding run_query view_of
message_get_all-AllOrNothing_example =
    message_get_all-AllOrNothing messages scarce (one_row (columns (pos 2))) 0

message_inserted :
    message_insert messages ok empty
      (pos 1)
      (pos 2)
      (pos 1)
      (pos 2)
      (some (104 ∷ 105 ∷ []))
      none
      (some (123 ∷ 125 ∷ []))
    ≡ (some (pos 1), one_row (columns (pos 2)))
unfolding message_insert run_exec
message_inserted = refl

message_get-insert_example :
    (message_get messages ok (one_row (columns (pos 2))) (pos 1) 0).0 ≡ some (sent_as (pos 2))
message_get-insert_example =
    message_get-insert messages ok (λ n. refl) message_table empty (sent_as (pos 2)) (pos 1) 0
      message_inserted refl refl

message_updated :
    message_update messages ok
      (one_row (columns (pos 1)))
      (pos 1)
      (pos 1)
      (pos 2)
      (pos 1)
      (pos 2)
      (some (104 ∷ 105 ∷ []))
      none
      (some (123 ∷ 125 ∷ []))
    ≡ (true, one_row (columns (pos 2)))
unfolding message_update run_exec
message_updated = refl

message_deleted : message_delete messages ok (one_row (columns (pos 1))) (pos 1) ≡ (true, no_row)
unfolding message_delete run_exec
message_deleted = refl

message_get-update_delete_example :
    ((message_get messages ok (one_row (columns (pos 2))) (pos 1) 0).0 ≡ some (sent_as (pos 2)))
    × ((message_get messages ok no_row (pos 1) 0).0 ≡ none)
    × ((true ≡ false) ⊎ ((message_get messages ok (one_row (columns (pos 1))) (pos 1) 0).0 ≢ none))
message_get-update_delete_example =
    message_get-update_delete messages ok (λ n. refl) message_table (one_row (columns (pos 1)))
      (pos 1) (sent_as (pos 2)) (pos 1) 0 message_updated message_deleted refl refl refl

last_found :
    (message_get_last_successful messages ok (one_row (columns (pos 2))) 0).0
    ≡ some (sent_as (pos 2))
unfolding message_get_last_successful run_query view_of last_with_status column_text
last_found = refl

message_get_last_successful-failed_example : (sent_as (pos 2)).message_status_id ≡ status_id failed
message_get_last_successful-failed_example =
    message_get_last_successful-failed messages ok message_table status_table
      (one_row (columns (pos 2))) 0 (sent_as (pos 2)) last_found

abbrev home : Option Bytes
home = some (104 ∷ [])

abbrev one_name : Store
one_name = one_row (text (104 ∷ []) ∷ int (pos 7) ∷ [])

named_updated :
    named_connection_update named_connections ok one_name (pos 1) none (pos 8)
    ≡ (true, one_row (null ∷ int (pos 8) ∷ []))
unfolding named_connection_update run_exec
named_updated = refl

named_deleted : named_connection_delete named_connections ok one_name (pos 1) ≡ (true, no_row)
unfolding named_connection_delete run_exec
named_deleted = refl

-- A second row, without a name.
abbrev two_names : Store
two_names = record {
  rows = (1, text (104 ∷ []) ∷ int (pos 7) ∷ []) ∷ (2, null ∷ int (pos 8) ∷ []) ∷ [];
  last = pos 2;
  changed = pos 1;
}

named_inserted_again :
    named_connection_insert named_connections ok one_name none (pos 8) ≡ (some (pos 2), two_names)
unfolding named_connection_insert run_exec
named_inserted_again = refl

named_connection_get-changed_example :
    ((named_connection_get named_connections ok two_names (pos 1) 0).0
      ≡ (named_connection_get named_connections ok one_name (pos 1) 0).0)
    × ((named_connection_get named_connections ok one_name (pos 2) 0).0 ≡ none)
    × ((named_connection_get named_connections ok (one_row (null ∷ int (pos 8) ∷ [])) (pos 1) 0).0
        ≡ some (named (pos 1) none (pos 8)))
    × ((named_connection_get named_connections ok no_row (pos 1) 0).0 ≡ none)
    × ((true ≡ false) ⊎ ((named_connection_get named_connections ok one_name (pos 1) 0).0 ≢ none))
named_connection_get-changed_example =
    named_connection_get-changed named_connections ok (λ n. refl) named_connection_table one_name
      (pos 1) none (pos 8) (pos 1) 0 named_inserted_again named_updated named_deleted refl refl refl
      refl
