-- ===== src/Tests/Samples.antt =====
-- The parameters of the model as concrete values: tables in memory, an environment in which every
-- call succeeds, and a cJSON of flat objects.
use sending_system.Base.{
  Option, none, Bytes, bytes_eq, ◌≡◌, refl, String, Bool, true, false, some, List, [], codes, pos,
  if◌then◌else◌,
}
use package.text.Mathlib.Text.{◌==◌ as str_eq}
use sending_system.Sqlite.{Sqlite, Row}
use sending_system.Sqlite.Table.{Rows, IsTable}
use sending_system.Sqlite.Memory.{Store, empty, memory, view_of, run_query, run_exec}
use sending_system.Sqlite.Memory.Laws.{IsDistinct, memory-IsTable, view_of_nonneg, insert_refused}
use sending_system.Handlers.Json.{Cjson}
use sending_system.Handlers.OpenApi.Document.{CjsonHeap}
use sending_system.System.{Env, World}
use sending_system.Repository.Connections.{connection_sql, k_find}
use sending_system.Repository.Connections.Index.{peer_ids, conflicts, IsPeerTable}
use sending_system.Database.Models.{MessageStatusId, success, failed, status_id}
use sending_system.Repository.Messages.{message_sql}
use sending_system.Repository.Messages.LastSuccessful.{last_with_status, select_last, IsStatusTable}
use sending_system.Repository.NamedConnections.{named_connection_sql}
use sending_system.Repository.Roles.{connection_role_sql}

abbrev no_extra : String → Row → Rows → List Row
no_extra sql vs rows = []

abbrev no_index : Row → Rows → Bool
no_index vs rows = false

abbrev peer_query : String → Row → Rows → List Row
peer_query sql vs rows = if str_eq sql k_find then peer_ids vs rows else []

abbrev status_query : String → Row → Rows → List Row
status_query sql vs rows =
    if str_eq sql (select_last success)
    then last_with_status (pos 1) rows
    else if str_eq sql (select_last failed)
    then last_with_status (pos 2) rows
    else []

abbrev pub connections : Sqlite
connections = memory connection_sql peer_query conflicts

abbrev pub messages : Sqlite
messages = memory message_sql status_query no_index

abbrev pub named_connections : Sqlite
named_connections = memory named_connection_sql no_extra no_index

abbrev pub roles : Sqlite
roles = memory connection_role_sql no_extra no_index

pub connection_sql-IsDistinct : IsDistinct connection_sql
connection_sql-IsDistinct = record {
  get_all_get = refl;
  update_insert = refl;
  delete_insert = refl;
  delete_update = refl;
}

pub message_sql-IsDistinct : IsDistinct message_sql
message_sql-IsDistinct = record {
  get_all_get = refl;
  update_insert = refl;
  delete_insert = refl;
  delete_update = refl;
}

pub named_connection_sql-IsDistinct : IsDistinct named_connection_sql
named_connection_sql-IsDistinct = record {
  get_all_get = refl;
  update_insert = refl;
  delete_insert = refl;
  delete_update = refl;
}

pub connection_role_sql-IsDistinct : IsDistinct connection_role_sql
connection_role_sql-IsDistinct = record {
  get_all_get = refl;
  update_insert = refl;
  delete_insert = refl;
  delete_update = refl;
}

unfoldable pub connection_table : IsTable connections connection_sql
unfolding memory-IsTable
connection_table = memory-IsTable connection_sql peer_query conflicts connection_sql-IsDistinct

unfoldable pub message_table : IsTable messages message_sql
unfolding memory-IsTable
message_table = memory-IsTable message_sql status_query no_index message_sql-IsDistinct

unfoldable pub named_connection_table : IsTable named_connections named_connection_sql
unfolding memory-IsTable
named_connection_table =
    memory-IsTable named_connection_sql no_extra no_index named_connection_sql-IsDistinct

unfoldable pub role_table : IsTable roles connection_role_sql
unfolding memory-IsTable
role_table = memory-IsTable connection_role_sql no_extra no_index connection_role_sql-IsDistinct

find_rows_lem :
    (db : Store) (vs : Row)
    → run_query connection_sql peer_query conflicts db k_find vs ≡ peer_ids vs (view_of db.rows)
unfolding run_query
find_rows_lem db vs = refl

unique_lem :
    (db : Store) (vs : Row)
    → conflicts vs (view_of db.rows) ≡ true
    → (run_exec connection_sql peer_query conflicts db connection_sql.insert vs).0 ≡ false
unique_lem = insert_refused connection_sql peer_query conflicts connection_sql-IsDistinct

pub peer_table : IsPeerTable connections connection_table
unfolding connection_table
peer_table = record {
  find_rows = find_rows_lem;
  unique = unique_lem;
  ids_nonneg = λ db. view_of_nonneg db.rows;
}

status_rows_lem :
    (db : Store) (s : MessageStatusId)
    → run_query message_sql status_query no_index db (select_last s) []
      ≡ last_with_status (status_id s) (view_of db.rows)
unfolding run_query status_id
status_rows_lem db success = refl
status_rows_lem db failed = refl

pub status_table : IsStatusTable messages message_table
unfolding message_table
status_table = record { status_rows = status_rows_lem }

abbrev pub healthy : (E : Sqlite) → Env E
healthy E = record {
  malloc = λ n. true;
  regcomp = λ n. true;
  access_ok = λ n. true;
  fopen = λ n. true;
  fseek = λ n. true;
  ftell = λ n. some 0;
  fread = λ n size. [];
  utimensat = λ n. true;
  sqlite3_open = λ n. true;
  sqlite3_exec = λ n db sql. (true, db);
  now = λ n. codes "2026-01-01 00:00:00";
}

-- Every body parses to an object whose "data" is "hello", and whose "saveToPath" is given.
abbrev pub flat_json : Option Bytes → Cjson
flat_json path = record {
  Json = Option Bytes;
  parse = λ text. some (some (codes "hello"));
  get_object_item = λ o key.
      if bytes_eq key (codes "data")
      then some o
      else if bytes_eq key (codes "saveToPath")
      then some path
      else none;
  valuestring = λ o. o;
  create_object = λ n. some [];
  add_string = λ o key s. some s;
  print_unformatted = λ n o. o;
}

abbrev pub start : World Store
start = record { db = empty; log = []; calls = 0 }

-- A cJSON whose nodes are all alike, and which prints every document as "{}".
abbrev pub blank : CjsonHeap
blank = record {
  Heap = Unit;
  Node = Unit;
  create_object = λ h. (tt, tt);
  create_string = λ s h. (tt, tt);
  add_string = λ o key s h. tt;
  add_bool = λ o key b h. tt;
  add_object = λ o key h. (tt, tt);
  add_array = λ o key h. (tt, tt);
  add_item = λ o key item h. tt;
  add_element = λ a item h. tt;
  parse = λ s h. (some tt, tt);
  get_object_item = λ o key h. none;
  print_unformatted = λ o h. (some (codes "{}"), tt);
  delete = λ o h. tt;
}
