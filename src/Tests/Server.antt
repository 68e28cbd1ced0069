-- ===== src/Tests/Server.antt =====
-- File names, files and the opening of the database.
use mathlib.Core.Option
use sending_system.Base.{◌≡◌, refl, true, some, arith, Bytes, codes, c_string}
use sending_system.System.{handle}
use sending_system.System.Held.{held, Leaves}
use sending_system.FileService.Sanitize.{is_allowed, find_dotdot, finish, sanitize_filename}
use sending_system.FileService.Safety.{HoldsSafeName, IsSafeName, sanitize_filename-HoldsSafeName}
use sending_system.FileService.Exact.{sanitize_filename_of_safe}
use sending_system.Database.Open.{database_open}
use sending_system.Database.Open.Closed.{database_open-Leaves}
use sending_system.Tests.Samples.{roles, healthy, start}

sanitize_filename_traversal :
    Option.bind (sanitize_filename 256 true (some (codes "../../etc/passwd"))) c_string
    ≡ some (codes "____etc_passwd")
unfolding sanitize_filename codes finish c_string Option.bind
sanitize_filename_traversal = refl

sanitize_filename-HoldsSafeName_example :
    HoldsSafeName 256 (sanitize_filename 256 true (some (codes "../../etc/passwd")))
sanitize_filename-HoldsSafeName_example =
    sanitize_filename-HoldsSafeName 256 true (some (codes "../../etc/passwd")) (omega arith)

notes-IsSafeName : IsSafeName (codes "notes.txt")
unfolding codes is_allowed find_dotdot
notes-IsSafeName = record {
  allowed = (refl, (refl, (refl, (refl, (refl, (refl, (refl, (refl, (refl, tt)))))))));
  nonempty = omega arith;
  no_dotdot = refl;
  no_dot = λ h. ground arith;
}

sanitize_filename_of_safe_example :
    (dest : Bytes) × (sanitize_filename 256 true (some (codes "notes.txt")) ≡ some dest)
    × (c_string dest ≡ some (codes "notes.txt"))
unfolding codes
sanitize_filename_of_safe_example =
    sanitize_filename_of_safe 255 (codes "notes.txt") notes-IsSafeName (omega arith) (omega arith)

database_open-Leaves_example :
    Leaves true handle start (database_open roles (healthy roles) start).1
unfolding database_open held
database_open-Leaves_example = database_open-Leaves roles (healthy roles) start refl refl refl
