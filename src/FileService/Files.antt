-- ===== src/FileService/Files.antt =====
-- `file_exists`, `read_file_full`, `touch_file` and `print_pwd` of FileService/FileService.c. What the
-- first three print on the console is left out.
pub mod Closed
use sending_system.Base.{
  ℕ, Bool, true, false, Option, none, some, List, ◌++◌, Bytes, codes, if◌then◌else◌,
}
use sending_system.Console.{Output, print_info, print_failure}
use sending_system.Sqlite.{Sqlite}
use sending_system.System.{Env, World, emit, ask, file, schema, acquire, release, access, opened}

module _ (E : Sqlite) (env : Env E) where
  -- `access(filename, 0) == 0`
  unfoldable pub file_exists : Bytes → World E.Db → Bool × World E.Db
  file_exists filename = ask env.access_ok

  -- The buffer is filled and the file closed.
  unfoldable pub fill_buffer : ℕ → World E.Db → Option Bytes × World E.Db
  fill_buffer size w =
      let (got, w) = ask (λ n. env.fread n size) w in
      (some got, emit (release file) (emit (access schema) w))

  -- The steps after `fopen`: the size, the buffer, the bytes. Each early return closes the file.
  unfoldable pub read_open_file : World E.Db → Option Bytes × World E.Db
  unfolding fill_buffer
  read_open_file w =
      let (sought, w1) = ask env.fseek w in
      let (told, w2) = ask env.ftell w1 in
      let (got, w3) = ask env.malloc w2 in
      if sought
      then elim told [
        | none ↦ (none, emit (release file) w2)
        | some size ↦
            if got
            then fill_buffer size (emit (acquire schema) w3)
            else (none, emit (release file) w3)
      ]
      else (none, emit (release file) w1)

  -- The bytes of the file, in a buffer that the caller frees; `none` for NULL.
  unfoldable pub read_file_full : Bytes → World E.Db → Option Bytes × World E.Db
  unfolding file_exists read_open_file
  read_file_full filename w =
      let (found, w1) = file_exists filename w in
      let (open_ok, w2) = ask env.fopen w1 in
      if found
      then (if open_ok
          then read_open_file (emit (acquire file) (emit (opened filename) w2))
          else (none, w2))
      else (none, w1)

  -- The POSIX branch: `fopen(filename, "a")`, `fclose`, `utimensat`. `true` is the result 0.
  unfoldable pub touch_file : Bytes → World E.Db → Bool × World E.Db
  touch_file filename w =
      let (open_ok, w1) = ask env.fopen w in
      let closed = emit (release file) (emit (acquire file) (emit (opened filename) w1)) in
      if open_ok then ask env.utimensat closed else (false, w1)

  -- The branch for Windows: `CreateFileA`, `SetFileTime`, and `CloseHandle` on both ways out.
  unfoldable pub touch_file_windows :
      (create_file set_file_time : ℕ → Bool) → Bytes → World E.Db → Bool × World E.Db
  touch_file_windows create_file set_file_time filename w =
      let (open_ok, w1) = ask create_file w in
      let (set, w2) = ask set_file_time (emit (acquire file) (emit (opened filename) w1)) in
      if open_ok then (set, emit (release file) w2) else (false, w1)

-- `getcwd` delivers `none` when it fails; `source_file` is __FILE__.
unfoldable pub print_pwd :
    Option Bytes → (last_error : ℕ → ℕ × Bytes) (source_file : Bytes) → List Output
unfolding print_info print_failure codes
print_pwd (some buffer) last_error source_file =
    print_info (codes "Current working directory: " ++ (buffer ++ codes "\n"))
print_pwd none last_error source_file =
    print_failure last_error (codes "Error getting current directory\n") source_file (codes "142")
      (codes "print_pwd")
