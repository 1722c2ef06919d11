-- ===== src/Ast/TypeRef.antt =====
-- ast/type.go: references to types, `Name`, `[Elem]` and each with `!`. The struct's two forms are
-- two constructors; a nil `Elem` beside an empty `NamedType` is `named []`, which the parser makes
-- after an error only, and on which `Name` and `String` fault (`none`).
use gqlparser.Ast.Source.{Position}
use gqlparser.Base.{
  Bool, true, false, ◌&&◌, Bytes, bytes_eq, [], ◌∷◌, ◌++◌, Option, none, some, if◌then◌else◌,
}

-- name or element, `NonNull`, and the position
pub data TypeRef : Type 0 where
  named : Bytes → Bool → Option Position → TypeRef
  list : TypeRef → Bool → Option Position → TypeRef

unfoldable pub non_null_named_type : Bytes → Option Position → TypeRef
non_null_named_type name pos = named name true pos

unfoldable pub named_type : Bytes → Option Position → TypeRef
named_type name pos = named name false pos

unfoldable pub non_null_list_type : TypeRef → Option Position → TypeRef
non_null_list_type elem pos = list elem true pos

unfoldable pub list_type : TypeRef → Option Position → TypeRef
list_type elem pos = list elem false pos

-- the field `NonNull`
abbrev pub is_non_null : TypeRef → Bool
is_non_null (named _ nn _) = nn
is_non_null (list _ nn _) = nn

-- `Type.Name`
unfoldable pub type_name : TypeRef → Option Bytes
type_name (named [] _ _) = none
type_name (named (c ∷ s) _ _) = some (c ∷ s)
type_name (list elem _ _) = type_name elem

abbrev bang_if : Bool → Bytes
bang_if nn = if nn then b'!' ∷ [] else []

abbrev bracketed : Bool → Option Bytes → Option Bytes
bracketed nn none = none
bracketed nn (some s) = some (b'[' ∷ (s ++ b']' ∷ bang_if nn))

-- `Type.String`, and `Dump`
unfoldable pub type_string : TypeRef → Option Bytes
type_string (named [] _ _) = none
type_string (named (c ∷ s) nn _) = some ((c ∷ s) ++ bang_if nn)
type_string (list elem nn _) = bracketed nn (type_string elem)

-- `Type.IsCompatible`: the last two returns are `if other.NonNull then t.NonNull else true`.
unfoldable pub is_compatible : TypeRef → TypeRef → Bool
unfolding bytes_eq
is_compatible (named a nn _) (named b other_nn _) = bytes_eq a b && (if other_nn then nn else true)
is_compatible (named a nn _) (list _ other_nn _) = bytes_eq a [] && (if other_nn then nn else true)
is_compatible (list elem nn _) (named b other_nn _) = false
is_compatible (list elem nn _) (list other other_nn _) =
    is_compatible elem other && (if other_nn then nn else true)
