-- ===== src/Database/Free/Laws.antt =====
-- Every string of every row is freed once, and the array after them.
use mathlib.Core.List.{append_assoc, append-nil}
use sending_system.Base.{◌≡◌, ◌∙◌, refl, ap, sym, Option, none, some, List, [], ◌∷◌, ◌++◌, Bytes}
use sending_system.Database.Models.{Message}
use sending_system.Database.Free.{
  Block, row_string, row_array, free_str, reference_free, connection_free, message_free,
  named_connection_free, free_rows, free_all, message_type_free_all, message_status_free_all,
  message_direction_free_all, connection_role_free_all, connection_free_all, message_free_all,
  named_connection_free_all,
}

-- The blocks that a pointer stands for.
abbrev pub block_of : Option Bytes → List Block
block_of none = []
block_of (some s) = row_string s ∷ []

abbrev pub message_blocks : Message → List Block
message_blocks m = block_of m.response ++ (block_of m.sending_time ++ block_of m.request)

unfoldable pub all_blocks {ℓ} : {A : Type ℓ} → (A → List Block) → List A → List Block
all_blocks blocks [] = []
all_blocks blocks (a ∷ arr) = blocks a ++ all_blocks blocks arr

free_str_lem : (p : Option Bytes) (log : List Block) → free_str p log ≡ (none, log ++ block_of p)
unfolding free_str
free_str_lem none log = ap (λ l. (none, l)) (sym (append-nil log))
free_str_lem (some s) log = refl

message_free_lem :
    (m : Message) (log : List Block)
    → message_free m log
      ≡ (record m { response = none; sending_time = none; request = none }, log ++ message_blocks m)
unfolding message_free
message_free_lem m log =
    rw
      (
        free_str_lem m.response log,
        free_str_lem m.sending_time (log ++ block_of m.response),
        free_str_lem m.request ((log ++ block_of m.response) ++ block_of m.sending_time),
      )
      (ap (λ l. (record m { response = none; sending_time = none; request = none }, l))
        (append_assoc (log ++ block_of m.response) (block_of m.sending_time) (block_of m.request)
          ∙ append_assoc log (block_of m.response) (block_of m.sending_time ++ block_of m.request)))

module _ {ℓ} {A : Type ℓ} (free_row : A → List Block → A × List Block) (blocks : A → List Block)
    (frees : (a : A) (log : List Block) → (free_row a log).1 ≡ log ++ blocks a) where
  free_rows_lem :
      (arr : List A) (log : List Block) → free_rows free_row arr log ≡ log ++ all_blocks blocks arr
  unfolding free_rows all_blocks
  free_rows_lem [] log = sym (append-nil log)
  free_rows_lem (a ∷ arr) log =
      free_rows_lem arr (free_row a log).1
      ∙ ap (λ l. l ++ all_blocks blocks arr) (frees a log)
      ∙ append_assoc log (blocks a) (all_blocks blocks arr)

  free_all_lem :
      (arr : List A) (log : List Block)
      → free_all free_row (some arr) log ≡ (log ++ all_blocks blocks arr) ++ (row_array ∷ [])
  unfolding free_all
  free_all_lem arr log = ap (λ l. l ++ (row_array ∷ [])) (free_rows_lem arr log)

-- What `*_free_all` of an array frees, behind the log: the strings, once and in order, and the array.
abbrev pub Frees {ℓ} :
    {A : Type ℓ} → (Option (List A) → List Block → List Block) → (A → List Block) → Type ℓ
Frees {A} free_array blocks =
    (arr : List A) (log : List Block)
    → (free_array (some arr) log ≡ (log ++ all_blocks blocks arr) ++ (row_array ∷ []))
      × (free_array none log ≡ log)

module _ {ℓ} {A : Type ℓ} (free_row : A → List Block → A × List Block) (blocks : A → List Block)
    (frees : (a : A) (log : List Block) → (free_row a log).1 ≡ log ++ blocks a) where
  free_all-Frees : Frees (free_all free_row) blocks
  unfolding free_all
  free_all-Frees arr log = (free_all_lem free_row blocks frees arr log, refl)

string_freed : (p : Option Bytes) (log : List Block) → (free_str p log).1 ≡ log ++ block_of p
string_freed p log = ap (λ (q : Option Bytes × List Block). q.1) (free_str_lem p log)

reference-Frees : Frees (free_all reference_free) (λ t. block_of t.name)
reference-Frees =
    free_all-Frees reference_free (λ t. block_of t.name)
      (λ t log. unfold reference_free in string_freed t.name log)

-- Each of the seven functions `*_free_all` frees each string of each row that is not NULL, once and in
-- order, and then the array; of NULL it frees nothing.
pub free_all-Frees_each :
    Frees message_type_free_all (λ t. block_of t.name)
    × Frees message_status_free_all (λ s. block_of s.name)
    × Frees message_direction_free_all (λ d. block_of d.name)
    × Frees connection_role_free_all (λ r. block_of r.name)
    × Frees connection_free_all (λ c. block_of c.ip)
    × Frees message_free_all message_blocks
    × Frees named_connection_free_all (λ n. block_of n.name)
free_all-Frees_each = (
  reference-Frees,
  reference-Frees,
  reference-Frees,
  reference-Frees,
  free_all-Frees connection_free (λ c. block_of c.ip)
      (λ c log. unfold connection_free in string_freed c.ip log),
  free_all-Frees message_free message_blocks
      (λ m log. ap (λ (q : Message × List Block). q.1) (message_free_lem m log)),
  free_all-Frees named_connection_free (λ n. block_of n.name)
      (λ n log. unfold named_connection_free in string_freed n.name log),
)

-- A message that was freed is not freed again: its pointers are NULL, and a second call frees
-- nothing.
pub message_free_twice :
    (m : Message) (log : List Block)
    → message_free (message_free m log).0 (message_free m log).1 ≡ message_free m log
unfolding free_str
message_free_twice m log = rw (message_free_lem m log) (unfold message_free in refl)
