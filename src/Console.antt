-- ===== src/Console.antt =====
-- PrintProcedures/PrintProcedures.c, the branches for POSIX. A text is what the format expands to.
use mathlib.Core.List.{append-nil}
use sending_system.Base.{ℕ, ◌≡◌, List, [], ◌∷◌, ◌++◌, Bytes, codes, decimal}

pub data Stream : Type 0 where
  stdout stderr : Stream

-- One call of printf, vprintf or fprintf.
pub record Output : Type 0 where
  pub stream : Stream
  pub text : Bytes

-- The escape sequences of PrintProcedures.h.
unfoldable pub colour : Bytes → Bytes
unfolding codes
colour code = 27 ∷ (codes "[" ++ (code ++ codes "m"))

abbrev pub red_color : Bytes
red_color = colour (codes "31")

abbrev pub green_color : Bytes
green_color = colour (codes "32")

abbrev pub yellow_color : Bytes
yellow_color = colour (codes "33")

abbrev pub reset_color : Bytes
reset_color = colour (codes "0")

-- The message goes to stdout, unlike what stands around it. `errno` and its text come from the C
-- library.
unfoldable pub print_error : ℕ → Bytes → Bytes → List Output
unfolding colour codes decimal
print_error errno strerror message =
    record { stream = stderr; text = red_color ++ codes "[ERROR] " }
    ∷ record { stream = stdout; text = message }
    ∷ record {
      stream = stderr;
      text = codes "\nCode: " ++ (decimal errno ++ (codes "\t" ++ (strerror ++ codes "\n")));
    }
    ∷ record { stream = stderr; text = reset_color }
    ∷ []

-- The two calls after a failure: the message, and where it happened. `last_error` has what the first
-- and the second call find in `errno`.
unfoldable pub print_failure :
    (last_error : ℕ → ℕ × Bytes) (message source_file line function : Bytes) → List Output
unfolding print_error codes
print_failure last_error message source_file line function =
    print_error (last_error 0).0 (last_error 0).1 message
    ++ print_error (last_error 1).0 (last_error 1).1 (
        codes "Error in file '"
        ++ (source_file
            ++ (codes "', line:" ++ (line ++ (codes " in '" ++ (function ++ codes "'\n"))))))

unfoldable pub print_success : Bytes → List Output
unfolding colour codes
print_success message =
    record { stream = stdout; text = green_color ++ codes "[SUCCESS] " }
    ∷ record { stream = stdout; text = message }
    ∷ record { stream = stdout; text = reset_color }
    ∷ []

unfoldable pub print_info : Bytes → List Output
unfolding colour codes
print_info message =
    record { stream = stdout; text = yellow_color ++ codes "[INFO] " }
    ∷ record { stream = stdout; text = message }
    ∷ record { stream = stdout; text = reset_color }
    ∷ []

-- `print_info` of one line after the other.
unfoldable pub print_lines : List Bytes → List Output
unfolding print_info
print_lines [] = []
print_lines (line ∷ lines) = print_info line ++ print_lines lines

-- What reaches stdout.
unfoldable pub on_stdout : List Output → Bytes
on_stdout [] = []
on_stdout (o ∷ outputs) = (elim o.stream [ stdout ↦ o.text | stderr ↦ [] ]) ++ on_stdout outputs

-- Of an error, its message alone reaches stdout, and without a colour.
pub on_stdout-print_error :
    (errno : ℕ) (strerror message : Bytes)
    → on_stdout (print_error errno strerror message) ≡ message
unfolding on_stdout print_error
on_stdout-print_error errno strerror message = append-nil message
