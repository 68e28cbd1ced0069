-- ===== src/FileService/Sanitize.antt =====
-- `sanitize_filename` of FileService/FileService.c, loop by loop.
use mathlib.Core.Option
use sending_system.Base.{
  ℕ, zero, suc, ◌+◌, ◌-◌, Bool, true, false, ◌&&◌, ◌||◌, Option, none, some, [], ◌∷◌, ◌++◌, Bytes,
  codes, leb, ltb, ◌==◌, if◌then◌else◌, length, take, drop, strncpy, store_at,
}

-- MAX_FILENAME of util/config.h
abbrev pub max_filename : ℕ
max_filename = 255

-- The POSIX class [:alnum:] in the C locale, which the program never changes.
abbrev pub is_alnum : ℕ → Bool
is_alnum c = leb b'0' c && leb c b'9' || leb b'A' c && leb c b'Z' || leb b'a' c && leb c b'z'

-- A byte that the expression "[^[:alnum:]._-]" does not match.
unfoldable pub is_allowed : ℕ → Bool
is_allowed c = is_alnum c || c == b'.' || c == b'_' || c == b'-'

-- `regexec` of that expression: `rm_so` of the first match. The match is one byte long.
unfoldable pub find_invalid : Bytes → Option ℕ
find_invalid [] = none
find_invalid (c ∷ p) = if is_allowed c then Option.map suc (find_invalid p) else some 0

-- The count of bytes to copy, cut so that `temp` keeps a free byte.
unfoldable pub copy_len : ℕ → ℕ → ℕ
copy_len temp_len len =
    if leb max_filename (temp_len + len) then max_filename - temp_len - 1 else len

-- The bytes `temp[0 .. temp_len)` after a match at offset `so`.
unfoldable pub copy_match : Bytes → Bytes → ℕ → Bytes
unfolding copy_len
copy_match temp p so =
    let copied = temp ++ take (copy_len (length temp) so) p in
    if ltb (length copied) max_filename then copied ++ (b'_' ∷ []) else copied

-- The first loop, over the rest `p` of the name and the bytes `temp[0 .. temp_len)`.
-- `none` means that the fuel ran out.
unfoldable pub copy_loop : ℕ → Bytes → Bytes → Option Bytes
unfolding find_invalid copy_match copy_len is_allowed
copy_loop zero p temp = none
copy_loop (suc fuel) [] temp = some temp
copy_loop (suc fuel) (c ∷ p) temp =
    let last = temp ++ take (copy_len (length temp) (length (c ∷ p))) (c ∷ p) in
    if ltb (length temp) max_filename
    then elim (find_invalid (c ∷ p)) [
      | some so ↦ copy_loop fuel (drop (so + 1) (c ∷ p)) (copy_match temp (c ∷ p) so)
      | none ↦ some last
    ]
    else some temp

-- `strstr(temp, "..")`
unfoldable pub find_dotdot : Bytes → Option ℕ
find_dotdot [] = none
find_dotdot (a ∷ []) = none
find_dotdot (a ∷ b ∷ r) =
    if a == b'.' && b == b'.' then some 0 else Option.map suc (find_dotdot (b ∷ r))

-- The body of the second loop: two underscores are written, and `memmove` moves the tail over
-- the second one.
unfoldable pub splice : Bytes → ℕ → Bytes
splice temp i = take i temp ++ (b'_' ∷ drop (i + 2) temp)

-- The second loop. `none` means that the fuel ran out.
unfoldable pub collapse : ℕ → Bytes → Option Bytes
unfolding find_dotdot splice
collapse zero temp = none
collapse (suc fuel) temp = elim (find_dotdot temp) [
  | none ↦ some temp
  | some i ↦ collapse fuel (splice temp i)
]

-- `if (final[0] == '.') ++final;`
unfoldable pub skip_dot : Bytes → Bytes
skip_dot [] = []
skip_dot (c ∷ r) = if c == b'.' then r else c ∷ r

abbrev pub unnamed : Bytes
unnamed = codes "unnamed.dat"

-- The last part: the copy to `dest`, whose `dest_size` bytes are returned.
unfoldable pub finish : ℕ → Bytes → Bytes
unfolding skip_dot strncpy store_at codes
finish dest_size temp =
    let final = skip_dot temp in
    let chosen = if length final == 0 then unnamed else final in
    store_at (strncpy chosen dest_size) (dest_size - 1) 0

-- `sanitize_filename(dest, dest_size, src)`: the bytes of `dest`. `src` is `none` for NULL, and
-- `compiled` says whether `regcomp` succeeded.
unfoldable pub sanitize_filename : ℕ → Bool → Option Bytes → Option Bytes
unfolding copy_loop collapse finish
sanitize_filename dest_size compiled none = some (strncpy unnamed dest_size)
sanitize_filename dest_size false (some src) = some (strncpy unnamed dest_size)
sanitize_filename dest_size true (some src) = elim (copy_loop (length src + 1) src []) [
  | none ↦ none
  | some temp ↦ Option.map (finish dest_size) (collapse (length temp + 1) temp)
]
