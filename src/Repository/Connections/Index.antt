-- ===== src/Repository/Connections/Index.antt =====
-- What `connection_get_or_create` relies on: the meaning of `=` in its query, and the unique
-- index ux_Connection_peer on (roleId, IFNULL(ip, ''), port, isSSLEncrypted).
use sending_system.Base.{
  ◌≡◌, refl, Bool, true, false, ◌&&◌, ◌||◌, List, [], ◌∷◌, ◌++◌, arith, bytes_eq, ℤ, int_eq,
  is_nonneg, All, if◌then◌else◌,
}
use sending_system.Sqlite.{Sqlite, Value, null, int, text, Row}
use sending_system.Sqlite.Table.{Rows, IsTable}
use sending_system.Repository.Connections.{connection_sql, k_find}

-- `a = b` holds of no NULL.
unfoldable pub sql_eq : Value → Value → Bool
sql_eq (int a) (int b) = int_eq a b
sql_eq (text s) (text t) = bytes_eq s t
sql_eq _ _ = false

-- All columns are equal.
unfoldable pub sql_matches : Row → Row → Bool
unfolding sql_eq
sql_matches [] [] = true
sql_matches (a ∷ r) (b ∷ s) = sql_eq a b && sql_matches r s
sql_matches _ _ = false

-- The rows that the query for a peer yields.
unfoldable pub peer_ids : Row → Rows → List Row
unfolding sql_matches
peer_ids vs [] = []
peer_ids vs ((id, r) ∷ rows) =
    let rest = peer_ids vs rows in if sql_matches r vs then (int id ∷ []) ∷ rest else rest

unfoldable pub if_null : Row → Row
if_null (null ∷ r) = text [] ∷ r
if_null r = r

-- Another row has the same entry in the index.
unfoldable pub conflicts : Row → Rows → Bool
unfolding if_null sql_matches
conflicts vs [] = false
conflicts vs ((id, r) ∷ rows) = sql_matches (if_null r) (if_null vs) || conflicts vs rows

pub record IsPeerTable (E : Sqlite) (T : IsTable E connection_sql) : Type 0 where
  pub find_rows : (db : E.Db) (vs : Row) → E.query db k_find vs ≡ peer_ids vs (T.view db)
  pub unique :
      (db : E.Db) (vs : Row)
      → conflicts vs (T.view db) ≡ true
      → (E.exec db connection_sql.insert vs).0 ≡ false
  -- AUTOINCREMENT gives no negative id.
  pub ids_nonneg : (db : E.Db) → All (λ r. is_nonneg r.0 ≡ true) (T.view db)

pub peer_ids-append :
    (vs : Row) (rows : Rows) (id : ℤ) (r : Row)
    → peer_ids vs (rows ++ ((id, r) ∷ []))
      ≡ peer_ids vs rows ++ (if sql_matches r vs then (int id ∷ []) ∷ [] else [])
unfolding peer_ids
peer_ids-append vs [] id r = refl
peer_ids-append vs ((j, s) ∷ rows) id r = ground (arith, peer_ids-append vs rows id r)

pub conflicts-append :
    (vs : Row) (rows : Rows) (id : ℤ) (r : Row)
    → sql_matches (if_null r) (if_null vs) ≡ true
    → conflicts vs (rows ++ ((id, r) ∷ [])) ≡ true
unfolding conflicts
conflicts-append vs [] id r h = ground arith
conflicts-append vs ((j, s) ∷ rows) id r h = ground (arith, conflicts-append vs rows id r h)
