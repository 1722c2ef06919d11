-- ===== src/Gqlerror.antt =====
-- gqlerror/error.go: the errors that every part reports.
use gqlparser.Ast.Path.{ErrorPath, path_string}
use gqlparser.Ast.Source.{Position}
use gqlparser.Base.{
  ℕ, Bytes, codes, bytes_eq, List, [], ◌∷◌, ◌++◌, Option, none, some, if◌then◌else◌, itoa,
}

pub record Location : Type 0 where
  pub line : ℕ
  pub column : ℕ

-- `Extensions` is a map with at most the key "file" in this program, so that key's value. The
-- wrapped error of another package is left out.
pub record Error : Type 0 where
  pub message : Bytes
  pub path : ErrorPath
  pub locations : List Location
  pub file : Option Bytes
  pub rule : Bytes

unfoldable pub set_file : Bytes → Error → Error
unfolding bytes_eq
set_file file err = if bytes_eq file [] then err else record err { file = some file }

unfoldable pub error_pathf : ErrorPath → Bytes → Error
error_pathf path message = record {
  message = message;
  path = path;
  locations = [];
  file = none;
  rule = [];
}

unfoldable pub error_locf : Bytes → ℕ → ℕ → Bytes → Error
unfolding bytes_eq
error_locf file line col message = record {
  message = message;
  path = [];
  locations = record { line = line; column = col } ∷ [];
  file = if bytes_eq file [] then none else some file;
  rule = [];
}

unfoldable pub error_posf : Position → Bytes → Error
unfolding error_locf
error_posf pos message = error_locf pos.src.name pos.line pos.column message

abbrev file_or_input : Option Bytes → Bytes
file_or_input none = codes "input"
file_or_input (some []) = codes "input"
file_or_input (some (c ∷ s)) = c ∷ s

abbrev line_part : List Location → Bytes
line_part [] = []
line_part (l ∷ _) = b':' ∷ itoa l.line

abbrev path_part : Bytes → Bytes
path_part [] = []
path_part (c ∷ s) = (c ∷ s) ++ b' ' ∷ []

-- `Error.Error`, on an error that is not nil.
unfoldable pub error_string : Error → Bytes
unfolding itoa path_string
error_string err =
    file_or_input err.file
    ++ (line_part err.locations
        ++ (codes ": " ++ (path_part (path_string err.path) ++ err.message)))
