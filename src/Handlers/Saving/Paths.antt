-- ===== src/Handlers/Saving/Paths.antt =====
-- The file that `save_text_to_file` writes lies in SAVE_DIR, under a safe name that is not cut.
use mathlib.Core.Option
use sending_system.Base.{
  ◌+◌, ◌≤◌, ◌≡◌, ◌⊎◌, inl, inr, refl, Bool, some, ◌∷◌, ◌++◌, arith, Bytes, codes, length,
  take_of_length-le, length-append, Bool-cases,
}
use sending_system.Sqlite.{Sqlite}
use sending_system.System.{Env, World}
use sending_system.System.Held.{written}
use sending_system.FileService.Sanitize.{max_filename}
use sending_system.FileService.Safety.{IsSafeName, sanitize_filename-HoldsSafeName}
use sending_system.Handlers.Saving.{
  save_dir, save_dir_length, safe_name_of, save_path, save_text_to_file,
}

-- A path below SAVE_DIR: a safe name has no `/`, so the file is in the directory itself.
abbrev pub InSaveDir : Bytes → Type 0
InSaveDir path = (name : Bytes) × IsSafeName name × (path ≡ save_dir ++ (codes "/" ++ name))

pub safe_name_of_lem :
    (compiled : Bool) (name : Bytes)
    → (safe : Bytes) × (safe_name_of compiled name ≡ safe)
      × IsSafeName safe
      × (length safe ≤ max_filename)
unfolding safe_name_of Option.bind
safe_name_of_lem compiled name =
    let (dest, safe, returned, holds, good, fits) =
      sanitize_filename-HoldsSafeName (max_filename + 1) compiled (some name) (omega arith) in
    (safe, rw (returned, holds) refl, good, omega arith)

-- SAVE_DIR_LENGTH is the length of SAVE_DIR.
pub length-save_dir : length save_dir ≡ save_dir_length
unfolding codes
length-save_dir = refl

pub length-slash : length (codes "/") ≡ 1
unfolding codes
length-slash = refl

-- The buffers of `save_text_to_file` and `upload_ctx_t` hold every path whole.
pub save_path_whole :
    (name : Bytes)
    → length name ≤ max_filename
    → save_path (max_filename + save_dir_length + 2) name ≡ save_dir ++ (codes "/" ++ name)
unfolding save_path
save_path_whole name h = take_of_length-le 267 (save_dir ++ (codes "/" ++ name)) (
    omega (
      arith,
      length-append save_dir (codes "/" ++ name),
      length-append (codes "/") name,
      length-save_dir,
      length-slash,
    ))

pub save_path-InSaveDir :
    (compiled : Bool) (name : Bytes)
    → InSaveDir (save_path (max_filename + save_dir_length + 2) (safe_name_of compiled name))
save_path-InSaveDir compiled name =
    let (safe, is_safe, good, fits) = safe_name_of_lem compiled name in
    (safe, good, rw is_safe (save_path_whole safe fits))

-- Whatever name the client gives, `save_text_to_file` writes at most one file, and that file lies in
-- SAVE_DIR under a safe name.
pub save_text_to_file-InSaveDir :
    (E : Sqlite) (env : Env E) (text save_to_path : Bytes) (w : World E.Db)
    → let w' = (save_text_to_file E env text save_to_path w).1 in
      (written w'.log ≡ written w.log)
      ⊎ ((path : Bytes) × InSaveDir path × (written w'.log ≡ (path, text) ∷ written w.log))
unfolding save_text_to_file written
save_text_to_file-InSaveDir E env text save_to_path w =
    elim (Bool-cases (env.fopen (w.calls + 1))) [
      | inr refused ↦ inl (ground arith)
      | inl opened ↦
          let compiled = env.regcomp w.calls in
          inr (
            save_path (max_filename + save_dir_length + 2) (safe_name_of compiled save_to_path),
            save_path-InSaveDir compiled save_to_path,
            ground arith,
          )
    ]
