-- ===== src/Ast/Path.antt =====
-- ast/path.go: where in a response an error arose, and how that is written.
use gqlparser.Base.{ℕ, ◌++◌, ◌+◌, Bytes, List, [], ◌∷◌, ◌==◌, if◌then◌else◌, itoa}

pub data PathElement : Type 0 where
  path_index : ℕ → PathElement
  path_name : Bytes → PathElement

abbrev pub ErrorPath : Type 0
ErrorPath = List PathElement

-- One turn of the loop in `String`: the element `v` at position `i`.
unfoldable pub element_string : ℕ → PathElement → Bytes
unfolding itoa
element_string i (path_index n) = b'[' ∷ (itoa n ++ (b']' ∷ []))
element_string i (path_name s) = if i == 0 then s else b'.' ∷ s

path_string_from : ℕ → ErrorPath → Bytes
path_string_from i [] = []
path_string_from i (v ∷ path) = element_string i v ++ path_string_from (i + 1) path

-- `Path.String`
unfoldable pub path_string : ErrorPath → Bytes
unfolding path_string_from element_string
path_string path = path_string_from 0 path
