-- ===== src/Database/Free.antt =====
-- database/model/database_models.c. The log lists the blocks that were freed, the oldest first.
pub mod Laws
use sending_system.Base.{Option, none, some, List, [], ◌∷◌, ◌++◌, Bytes}
use sending_system.Database.Models.{ReferenceRow, Connection, Message, NamedConnection}

-- A string of a row, or an array of rows.
pub data Block : Type 0 where
  row_string : Bytes → Block
  row_array : Block

-- `free_str`: the pointer and the log after it.
unfoldable pub free_str : Option Bytes → List Block → Option Bytes × List Block
free_str none log = (none, log)
free_str (some s) log = (none, log ++ (row_string s ∷ []))

-- The four functions of the reference rows, which do the same. Of NULL, these and the functions below
-- do nothing.
unfoldable pub reference_free : ReferenceRow → List Block → ReferenceRow × List Block
unfolding free_str
reference_free t log = let (name, log1) = free_str t.name log in (record t { name = name }, log1)

abbrev pub message_type_free : ReferenceRow → List Block → ReferenceRow × List Block
message_type_free = reference_free

abbrev pub message_status_free : ReferenceRow → List Block → ReferenceRow × List Block
message_status_free = reference_free

abbrev pub message_direction_free : ReferenceRow → List Block → ReferenceRow × List Block
message_direction_free = reference_free

abbrev pub connection_role_free : ReferenceRow → List Block → ReferenceRow × List Block
connection_role_free = reference_free

unfoldable pub connection_free : Connection → List Block → Connection × List Block
unfolding free_str
connection_free c log = let (ip, log1) = free_str c.ip log in (record c { ip = ip }, log1)

unfoldable pub message_free : Message → List Block → Message × List Block
unfolding free_str
message_free m log =
    let (response, log1) = free_str m.response log in
    let (sending_time, log2) = free_str m.sending_time log1 in
    let (request, log3) = free_str m.request log2 in
    (record m { response = response; sending_time = sending_time; request = request }, log3)

unfoldable pub named_connection_free : NamedConnection → List Block → NamedConnection × List Block
unfolding free_str
named_connection_free nc log =
    let (name, log1) = free_str nc.name log in (record nc { name = name }, log1)

module _ {ℓ} {A : Type ℓ} (free_row : A → List Block → A × List Block) where
  -- The loop over an array.
  unfoldable pub free_rows : List A → List Block → List Block
  free_rows [] log = log
  free_rows (a ∷ arr) log = free_rows arr (free_row a log).1

  -- `*_free_all`; `none` is NULL.
  unfoldable pub free_all : Option (List A) → List Block → List Block
  unfolding free_rows
  free_all none log = log
  free_all (some arr) log = free_rows arr log ++ (row_array ∷ [])

abbrev pub message_type_free_all : Option (List ReferenceRow) → List Block → List Block
message_type_free_all = free_all message_type_free

abbrev pub message_status_free_all : Option (List ReferenceRow) → List Block → List Block
message_status_free_all = free_all message_status_free

abbrev pub message_direction_free_all : Option (List ReferenceRow) → List Block → List Block
message_direction_free_all = free_all message_direction_free

abbrev pub connection_role_free_all : Option (List ReferenceRow) → List Block → List Block
connection_role_free_all = free_all connection_role_free

abbrev pub connection_free_all : Option (List Connection) → List Block → List Block
connection_free_all = free_all connection_free

abbrev pub message_free_all : Option (List Message) → List Block → List Block
message_free_all = free_all message_free

abbrev pub named_connection_free_all : Option (List NamedConnection) → List Block → List Block
named_connection_free_all = free_all named_connection_free
