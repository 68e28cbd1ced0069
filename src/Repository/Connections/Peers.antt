-- ===== src/Repository/Connections/Peers.antt =====
-- `connection_get_or_create`: one row for a peer with an address, and the peer without one.
use sending_system.Base.{
  ℕ, ◌≡◌, refl, sym, ap, ◌∙◌, Bool, true, false, Option, none, some, List, [], ◌∷◌, ◌++◌, arith,
  Bytes, bytes_eq, bytes_eq_refl, ℤ, minus_one, int_eq_refl, is_nonneg, to_int32, All, Bool-cases,
  List-cases, inl, inr,
}
use sending_system.Sqlite.{Sqlite, null, int, text, Row, column, column_int64}
use sending_system.Sqlite.Table.{Rows, IsTable}
use sending_system.Repository.Connections.{
  connection_sql, k_find, bind_peer, create_connection, connection_get_or_create,
}
use sending_system.Repository.Connections.Index.{
  sql_matches, peer_ids, if_null, conflicts, IsPeerTable, peer_ids-append, conflicts-append,
}

sql_matches-bind_peer :
    (ip : Bytes) (port ssl role_id : ℤ)
    → sql_matches (bind_peer (some ip) port ssl role_id) (bind_peer (some ip) port ssl role_id)
      ≡ true
unfolding sql_matches bind_peer
sql_matches-bind_peer ip port ssl role_id =
    rw (bytes_eq_refl ip, int_eq_refl port, int_eq_refl ssl, int_eq_refl (to_int32 role_id))

sql_matches-if_null :
    (port ssl role_id : ℤ)
    → sql_matches
        (if_null (bind_peer none port ssl role_id))
        (if_null (bind_peer none port ssl role_id))
      ≡ true
unfolding sql_matches bind_peer if_null bytes_eq
sql_matches-if_null port ssl role_id =
    rw (int_eq_refl port, int_eq_refl ssl, int_eq_refl (to_int32 role_id))

-- The query finds no row for a peer without an address.
peer_ids_null :
    (port ssl role_id : ℤ) (rows : Rows) → peer_ids (bind_peer none port ssl role_id) rows ≡ []
unfolding peer_ids bind_peer
peer_ids_null port ssl role_id [] = refl
peer_ids_null port ssl role_id ((j, []) ∷ rows) = peer_ids_null port ssl role_id rows
peer_ids_null port ssl role_id ((j, null ∷ r) ∷ rows) = peer_ids_null port ssl role_id rows
peer_ids_null port ssl role_id ((j, int z ∷ r) ∷ rows) = peer_ids_null port ssl role_id rows
peer_ids_null port ssl role_id ((j, text t ∷ r) ∷ rows) = peer_ids_null port ssl role_id rows

-- A row that the query yields holds an id that is not negative.
peer_ids_nonneg :
    (E : Sqlite) (vs : Row) (rows : Rows) (r : Row) (rest : List Row)
    → All (λ r. is_nonneg r.0 ≡ true) rows
    → peer_ids vs rows ≡ r ∷ rest
    → is_nonneg (column_int64 E (column r 0)) ≡ true
unfolding peer_ids column column_int64
peer_ids_nonneg E vs [] r rest h e = absurd (ground arith)
peer_ids_nonneg E vs ((j, s) ∷ rows) r rest (here, h) e = elim (Bool-cases (sql_matches s vs)) [
  | inl same ↦ ground arith
  | inr other ↦ peer_ids_nonneg E vs rows r rest h (ground arith)
]

module _ (E : Sqlite) (malloc : ℕ → Bool) (T : IsTable E connection_sql) (P : IsPeerTable E T) where
  module _ (db : E.Db) (ip : Option Bytes) (port ssl role_id : ℤ) where
    abbrev peer : Row
    peer = bind_peer ip port ssl role_id

    -- A row that is there is used, and the database is left alone.
    get_or_create_hit :
        (r : Row) (rest : List Row)
        → E.prepare db k_find ≡ true
        → peer_ids peer (T.view db) ≡ r ∷ rest
        → connection_get_or_create E malloc db ip port ssl role_id
          ≡ (column_int64 E (column r 0), db)
    unfolding connection_get_or_create
    get_or_create_hit r rest ready found = ground (
      arith,
      P.find_rows db peer,
      peer_ids_nonneg E peer (T.view db) r rest (P.ids_nonneg db) found,
    )

    get_or_create_miss :
        E.prepare db k_find ≡ true
        → peer_ids peer (T.view db) ≡ []
        → connection_get_or_create E malloc db ip port ssl role_id
          ≡ create_connection E malloc db ip port ssl role_id
    unfolding connection_get_or_create
    get_or_create_miss ready absent = ground (arith, P.find_rows db peer)

    get_or_create_unprepared :
        E.prepare db k_find ≡ false
        → connection_get_or_create E malloc db ip port ssl role_id ≡ (minus_one, db)
    unfolding connection_get_or_create
    get_or_create_unprepared h = ground arith

    -- A new row that is created is in the table under the id that is returned.
    create_connection_lem :
        {id : ℤ} {db' : E.Db}
        → create_connection E malloc db ip port ssl role_id ≡ (id, db')
        → is_nonneg id ≡ true
        → T.view db' ≡ T.view db ++ ((id, peer) ∷ [])
    unfolding create_connection
    create_connection_lem h nonneg = ground (arith, T.insert_done db peer)

    -- An insert that meets the index fails.
    create_connection_conflict :
        conflicts peer (T.view db) ≡ true
        → (create_connection E malloc db ip port ssl role_id).0 ≡ minus_one
    unfolding create_connection
    create_connection_conflict taken = ground (arith, P.unique db peer taken)

  -- If `connection_get_or_create` returned an id that is not negative for a peer with an address,
  -- the same call returns that id again and changes nothing, where SQLite meets the laws of the
  -- table of peers and the query can be prepared.
  pub get_or_create_twice :
      (db : E.Db) (ip : Bytes) (port ssl role_id : ℤ) {id : ℤ} {db' : E.Db}
      → connection_get_or_create E malloc db (some ip) port ssl role_id ≡ (id, db')
      → is_nonneg id ≡ true
      → E.prepare db' k_find ≡ true
      → connection_get_or_create E malloc db' (some ip) port ssl role_id ≡ (id, db')
  unfolding column_int64 column
  get_or_create_twice db ip port ssl role_id {id} {db'} h nonneg ready' =
      elim (Bool-cases (E.prepare db k_find)) [
        | inr unready ↦
            absurd (ground (arith, get_or_create_unprepared db (some ip) port ssl role_id unready))
        | inl ready ↦ elim (List-cases (peer_ids vs (T.view db))) [
          | inr (r, rest, found) ↦
              let hit = get_or_create_hit db (some ip) port ssl role_id r rest ready found in
              let same : db ≡ db' = ap (λ (p : ℤ × E.Db). p.1) (sym hit ∙ h) in rw same at h
          | inl absent ↦
              let created =
                sym (get_or_create_miss db (some ip) port ssl role_id ready absent) ∙ h in
              let view' = create_connection_lem db (some ip) port ssl role_id created nonneg in
              get_or_create_hit db' (some ip) port ssl role_id (int id ∷ []) [] ready'
                (rw (view', peer_ids-append, absent, sql_matches-bind_peer ip port ssl role_id))
        ]
      ]
    where
      vs : Row
      vs = bind_peer (some ip) port ssl role_id

  -- If `connection_get_or_create` returned an id that is not negative for a peer without an
  -- address (`ip` is NULL), it inserted a row, and the same call then returns -1, where SQLite
  -- meets the laws of the table of peers: the query never finds a NULL, and the index refuses
  -- another.
  pub get_or_create_null :
      (db : E.Db) (port ssl role_id : ℤ) {id : ℤ} {db' : E.Db}
      → connection_get_or_create E malloc db none port ssl role_id ≡ (id, db')
      → is_nonneg id ≡ true
      → (T.view db' ≡ T.view db ++ ((id, bind_peer none port ssl role_id) ∷ []))
        × ((connection_get_or_create E malloc db' none port ssl role_id).0 ≡ minus_one)
  get_or_create_null db port ssl role_id {id} {db'} h nonneg =
      elim (Bool-cases (E.prepare db k_find)) [
        | inr unready ↦
            absurd (ground (arith, get_or_create_unprepared db none port ssl role_id unready))
        | inl ready ↦
            let absent = peer_ids_null port ssl role_id (T.view db) in
            let created = sym (get_or_create_miss db none port ssl role_id ready absent) ∙ h in
            let view' = create_connection_lem db none port ssl role_id created nonneg in
            (view', refused view')
      ]
    where
      vs : Row
      vs = bind_peer none port ssl role_id

      refused :
          T.view db' ≡ T.view db ++ ((id, vs) ∷ [])
          → (connection_get_or_create E malloc db' none port ssl role_id).0 ≡ minus_one
      refused view' = elim (Bool-cases (E.prepare db' k_find)) [
        | inr unready ↦
            ap (λ (p : ℤ × E.Db). p.0) (get_or_create_unprepared db' none port ssl role_id unready)
        | inl ready ↦
            ap (λ (p : ℤ × E.Db). p.0)
              (get_or_create_miss db' none port ssl role_id ready
                (peer_ids_null port ssl role_id (T.view db')))
            ∙ create_connection_conflict db' none port ssl role_id (
                rw view'
                  (conflicts-append vs (T.view db) id vs (sql_matches-if_null port ssl role_id)))
      ]
