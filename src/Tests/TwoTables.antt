-- ===== src/Tests/TwoTables.antt =====
-- A database with the table of peers and the one of messages, which leave each other alone.
use package.text.Mathlib.Text.{◌==◌ as str_eq}
use sending_system.Base.{refl, true, [], ℤ, pos, if◌then◌else◌}
use sending_system.Sqlite.{Sqlite}
use sending_system.Sqlite.Table.{IsTable}
use sending_system.Sqlite.Memory.{Store, empty}
use sending_system.Repository.Connections.{connection_sql, k_find}
use sending_system.Repository.Messages.{message_sql}
use sending_system.Handlers.History.{IsApart}
use sending_system.Tests.Samples.{connections, messages, message_table, healthy}

pub record Two : Type 0 where
  pub peers : Store
  pub texts : Store
  pub last : ℤ
  pub changed : ℤ

abbrev pub two_empty : Two
two_empty = record { peers = empty; texts = empty; last = pos 0; changed = pos 0 }

abbrev pub two : Sqlite
two = record {
  Db = Two;
  prepare = λ db sql. true;
  query = λ db sql vs.
      if str_eq sql k_find
      then connections.query db.peers sql vs
      else messages.query db.texts sql vs;
  exec = λ db sql vs.
      let p = connections.exec db.peers sql vs in
      let t = messages.exec db.texts sql vs in
      if str_eq sql connection_sql.insert
      then (p.0, record db { peers = p.1; last = p.1.last; changed = p.1.changed })
      else (t.0, record db { texts = t.1; last = t.1.last; changed = t.1.changed });
  last_insert_rowid = λ db. db.last;
  changes = λ db. db.changed;
  text_to_int = λ t. pos 0;
  int_to_text = λ z. [];
}

unfoldable pub two_table : IsTable two message_sql
unfolding message_table
two_table = record {
  view = λ db. message_table.view db.texts;
  get_rows = λ db id. message_table.get_rows db.texts id;
  get_all_rows = λ db. message_table.get_all_rows db.texts;
  insert_done = λ db vs. message_table.insert_done db.texts vs;
  insert_failed = λ db vs. message_table.insert_failed db.texts vs;
  update_done = λ db vs id. message_table.update_done db.texts vs id;
  update_failed = λ db vs id. message_table.update_failed db.texts vs id;
  delete_done = λ db id. message_table.delete_done db.texts id;
  delete_failed = λ db id. message_table.delete_failed db.texts id;
}

pub two_apart : IsApart two (healthy two) two_table
unfolding two_table
two_apart = record {
  peers_apart = λ db vs. refl;
  foreign_keys_apart = λ n db. refl;
  journal_apart = λ n db. refl;
  schema_apart = λ w n db sql e. refl;
}
