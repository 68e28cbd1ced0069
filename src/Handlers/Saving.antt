-- ===== src/Handlers/Saving.antt =====
-- handlers/save_connection.c, handlers/save_message.c and `save_text_to_file` of api_send.c.
pub mod Resources
pub mod Paths
pub mod Working
use mathlib.Core.Option
use sending_system.Base.{
  ℕ, ◌+◌, ◌-◌, Bool, true, false, Option, none, some, [], ◌++◌, Bytes, codes, c_string, snprintf,
  decimal, length, ℤ, pos, minus_one, if◌then◌else◌,
}
use sending_system.Sqlite.{Sqlite}
use sending_system.System.{
  Env, World, emit, ask, file_mutex, file, acquire, release, make_dir, opened, logged, wrote,
  recorded,
}
use sending_system.Console.{print_info}
use sending_system.FileService.Sanitize.{max_filename, sanitize_filename}
use sending_system.Database.Models.{Message, client, role_id}
use sending_system.Database.Open.{database_open, database_close}
use sending_system.Repository.Connections.{connection_get_or_create}
use sending_system.Repository.Messages.{message_insert}

-- util/config.h: CONNECTION_PORT, SSL_ENCRYPT, SAVE_DIR and SAVE_DIR_LENGTH.
abbrev pub connection_port : ℤ
connection_port = pos 5000

abbrev pub ssl_encrypt : ℤ
ssl_encrypt = pos 1

abbrev pub save_dir : Bytes
save_dir = codes "build/saves"

abbrev pub save_dir_length : ℕ
save_dir_length = 11

-- The C string that `sanitize_filename` leaves in `safe_name`.
unfoldable pub safe_name_of : Bool → Bytes → Bytes
unfolding sanitize_filename c_string
safe_name_of compiled name =
    Option.get_or (Option.bind (sanitize_filename (max_filename + 1) compiled (some name)) c_string)
      []

-- "%s/%s" of SAVE_DIR and a name, into a buffer of `size` bytes.
unfoldable pub save_path : ℕ → Bytes → Bytes
save_path size name = snprintf size (save_dir ++ (codes "/" ++ name))

module _ (E : Sqlite) (env : Env E) where
  -- The id of the row of the peer, -1 if the database fails.
  unfoldable pub save_connection : Bytes → World E.Db → ℤ × World E.Db
  save_connection remote_addr w =
      let (open_ok, w1) = database_open E env w in
      let (element, db') =
        connection_get_or_create E env.malloc w1.db (some remote_addr) connection_port ssl_encrypt
          (role_id client) in
      if open_ok then (element, database_close E env (record w1 { db = db' })) else (minus_one, w1)

  -- The result of the insert, noted in the log if it is 0.
  unfoldable pub note_insert : Message → Option ℤ → World E.Db → ℤ × World E.Db
  note_insert m none w = (minus_one, w)
  note_insert m (some id) w = (id, emit (recorded m) w)

  unfoldable pub save_message : Message → World E.Db → ℤ × World E.Db
  save_message m w =
      let (open_ok, w1) = database_open E env w in
      let (inserted, db') =
        message_insert E env.malloc w1.db m.connection_id m.message_status_id m.message_type_id
          m.direction_id m.response m.sending_time m.request in
      let (element, w2) = note_insert m inserted (record w1 { db = db' }) in
      if open_ok then (element, database_close E env w2) else (minus_one, w1)

  -- `save_text_to_file`: `true` is the result 0.
  unfoldable pub save_text_to_file : Bytes → Bytes → World E.Db → Bool × World E.Db
  save_text_to_file text save_to_path w =
      let (compiled, w1) = ask env.regcomp w in
      let safe_name = safe_name_of compiled save_to_path in
      let w2 =
        emit (release file_mutex) (emit (make_dir save_dir) (emit (acquire file_mutex) w1)) in
      let full_path = save_path (max_filename + save_dir_length + 2) safe_name in
      let (open_ok, w3) = ask env.fopen (emit (acquire file_mutex) w2) in
      let w4 = emit (wrote full_path text) (emit (acquire file) (emit (opened full_path) w3)) in
      let line = print_info (
        codes "[RAW_DATA] saved to "
        ++ (full_path ++ (codes " (" ++ (decimal (length text) ++ codes " bytes)\n")))) in
      if open_ok
      then (true, emit (logged line) (emit (release file_mutex) (emit (release file) w4)))
      else (false, emit (release file_mutex) w3)
