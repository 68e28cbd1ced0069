-- ===== src/Tests/Rows.antt =====
-- The repositories on tables in memory.
use sending_system.Base.{
  ℕ, ◌≡◌, ◌≢◌, ◌⊎◌, refl, Bool, true, false, Option, none, some, [], ◌∷◌, arith, Bytes, pos,
  minus_one,
}
use sending_system.Sqlite.{Row, null, text}
use sending_system.Sqlite.Memory.{Store, empty, view_of, run_exec, run_query}
use sending_system.Repository.Connections.{
  bind_peer, connection_insert, connection_get, connection_update, connection_delete,
  connection_get_or_create,
}
use sending_system.Repository.Connections.Crud.{
  peer_row, connection_get-insert, connection_get-update_delete,
}
use sending_system.Repository.Connections.Index.{peer_ids, conflicts}
use sending_system.Repository.Connections.Peers.{get_or_create_twice, get_or_create_null}
use sending_system.Repository.Roles.{connection_role_sql}
use sending_system.Repository.Reference
use sending_system.Repository.Reference.Crud.{get-update_delete_reference}
use sending_system.Tests.Samples.{connections, roles, connection_table, role_table, peer_table}

abbrev ok : ℕ → Bool
ok n = true

abbrev address : Option Bytes
address = some (49 ∷ 46 ∷ 49 ∷ [])

abbrev peer : Option Bytes → Row
peer ip = bind_peer ip (pos 5000) (pos 1) (pos 2)

abbrev one_row : Row → Store
one_row r = record { rows = (1, r) ∷ []; last = pos 1; changed = pos 1 }

abbrev one_peer : Store
one_peer = one_row (peer address)

peer_inserted :
    connection_insert connections ok empty address (pos 5000) (pos 1) (pos 2)
    ≡ (some (pos 1), one_peer)
unfolding connection_insert run_exec conflicts
peer_inserted = refl

connection_get-insert_example :
    (connection_get connections ok one_peer (pos 1) 0).0
    ≡ some (peer_row (pos 1) address (pos 5000) (pos 1) (pos 2))
connection_get-insert_example =
    connection_get-insert connections ok (λ n. refl) connection_table empty address (pos 5000)
      (pos 1) (pos 2) (pos 1) 0 peer_inserted (omega arith, omega arith, omega arith) refl refl

peer_deleted :
    connection_delete connections ok one_peer (pos 1)
    ≡ (true, record { rows = []; last = pos 1; changed = pos 1 })
unfolding connection_delete run_exec
peer_deleted = refl

peer_updated :
    connection_update connections ok one_peer (pos 1) none (pos 5000) (pos 1) (pos 2)
    ≡ (true, one_row (peer none))
unfolding connection_update run_exec bind_peer
peer_updated = refl

connection_get-update_delete_example :
    ((connection_get connections ok (one_row (peer none)) (pos 1) 0).0
      ≡ some (peer_row (pos 1) none (pos 5000) (pos 1) (pos 2)))
    × ((connection_get connections ok
          (record { rows = []; last = pos 1; changed = pos 1 })
          (pos 1)
          0).0
        ≡ none)
    × ((true ≡ false) ⊎ ((connection_get connections ok one_peer (pos 1) 0).0 ≢ none))
connection_get-update_delete_example =
    connection_get-update_delete connections ok (λ n. refl) connection_table one_peer (pos 1) none
      (pos 5000) (pos 1) (pos 2) (pos 1) 0 peer_updated peer_deleted
      (omega arith, omega arith, omega arith) refl refl refl

peer_created :
    connection_get_or_create connections ok empty address (pos 5000) (pos 1) (pos 2)
    ≡ (pos 1, one_peer)
unfolding connection_get_or_create run_exec run_query bind_peer peer_ids conflicts
peer_created = refl

get_or_create_twice_example :
    connection_get_or_create connections ok one_peer address (pos 5000) (pos 1) (pos 2)
    ≡ (pos 1, one_peer)
get_or_create_twice_example =
    get_or_create_twice connections ok connection_table peer_table empty (49 ∷ 46 ∷ 49 ∷ [])
      (pos 5000) (pos 1) (pos 2) peer_created refl refl

null_created :
    connection_get_or_create connections ok empty none (pos 5000) (pos 1) (pos 2)
    ≡ (pos 1, one_row (peer none))
unfolding connection_get_or_create run_exec run_query bind_peer peer_ids conflicts
null_created = refl

get_or_create_null_example :
    (view_of (one_row (peer none)).rows ≡ (pos 1, peer none) ∷ [])
    × ((connection_get_or_create connections ok
          (one_row (peer none))
          none
          (pos 5000)
          (pos 1)
          (pos 2)).0
        ≡ minus_one)
unfolding connection_table view_of
get_or_create_null_example =
    get_or_create_null connections ok connection_table peer_table empty (pos 5000) (pos 1) (pos 2)
      null_created refl

role_inserted :
    Reference.insert roles ok connection_role_sql empty address
    ≡ (some (pos 1), one_row (text (49 ∷ 46 ∷ 49 ∷ []) ∷ []))
unfolding Reference.insert run_exec
role_inserted = refl

abbrev one_role : Store
one_role = one_row (text (49 ∷ 46 ∷ 49 ∷ []) ∷ [])

role_updated :
    Reference.update roles ok connection_role_sql one_role (pos 1) none
    ≡ (true, one_row (null ∷ []))
unfolding Reference.update run_exec
role_updated = refl

role_deleted :
    Reference.delete roles ok connection_role_sql one_role (pos 1)
    ≡ (true, record { rows = []; last = pos 1; changed = pos 1 })
unfolding Reference.delete run_exec
role_deleted = refl

get-update_delete_reference_example :
    ((Reference.get roles ok connection_role_sql (one_row (null ∷ [])) (pos 1) 0).0
      ≡ some (record { id = pos 1; name = none }))
    × ((Reference.get roles ok connection_role_sql
          (record { rows = []; last = pos 1; changed = pos 1 })
          (pos 1)
          0).0
        ≡ none)
    × ((true ≡ false) ⊎ ((Reference.get roles ok connection_role_sql one_role (pos 1) 0).0 ≢ none))
get-update_delete_reference_example =
    get-update_delete_reference roles ok (λ n. refl) connection_role_sql role_table one_role (pos 1)
      none (pos 1) 0 role_updated role_deleted refl refl refl
