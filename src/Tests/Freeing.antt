-- ===== src/Tests/Freeing.antt =====
-- Rows that are freed.
use sending_system.Base.{◌≡◌, refl, none, some, [], ◌∷◌, pos}
use sending_system.Database.Models.{Message}
use sending_system.Database.Free.{
  row_string, row_array, reference_free, message_free, free_all, message_free_all,
  connection_role_free_all,
}

abbrev m : Message
m = record {
  id = pos 1;
  connection_id = pos 1;
  message_status_id = pos 1;
  message_type_id = pos 1;
  direction_id = pos 2;
  response = some (104 ∷ []);
  sending_time = none;
  request = some (105 ∷ []);
}

message_strings :
    message_free_all (some (m ∷ m ∷ [])) []
    ≡ row_string (104 ∷ [])
      ∷ row_string (105 ∷ [])
      ∷ row_string (104 ∷ [])
      ∷ row_string (105 ∷ [])
      ∷ row_array
      ∷ []
unfolding free_all message_free
message_strings = refl

role_strings :
    connection_role_free_all (some (record { id = pos 1; name = some (97 ∷ []) } ∷ [])) []
    ≡ row_string (97 ∷ []) ∷ row_array ∷ []
unfolding free_all reference_free
role_strings = refl
