-- ===== src/Validator/Schema/Covariant.antt =====
-- validator/schema.go: `isCovariant`.
use gqlparser.Ast.TypeRef.{TypeRef, named, list, is_non_null}
use gqlparser.Base.{
  Bool, true, false, not, ◌&&◌, Bytes, bytes_eq, List, [], ◌∷◌, Option, none, some, if◌then◌else◌,
}
use gqlparser.Validator.Schema.State.{Schema, pointers_of}

-- The field `NamedType`
abbrev pub named_type : TypeRef → Bytes
named_type (named a nn p) = a
named_type (list t nn p) = []

-- The loop over possible types: `none` is the nil pointer that `pt.Name` reads.
unfoldable pub some_named : Bytes → List (Option Bytes) → Option Bool
unfolding bytes_eq
some_named name [] = some false
some_named name (none ∷ l) = none
some_named name (some n ∷ l) = if bytes_eq n name then some true else some_named name l

unfoldable pub is_covariant : Schema → TypeRef → TypeRef → Option Bool
unfolding some_named pointers_of bytes_eq
is_covariant s (named [] nn p) actual = if nn && not (is_non_null actual) then some false else none
is_covariant s (named (c ∷ a) nn p) actual =
    if nn && not (is_non_null actual)
    then some false
    else if bytes_eq (c ∷ a) (named_type actual)
    then some true
    else some_named (named_type actual) (pointers_of (c ∷ a) s.possible_types)
is_covariant s (list t nn p) (named b other q) = some false
is_covariant s (list t nn p) (list u other q) =
    if nn && not other then some false else is_covariant s t u
