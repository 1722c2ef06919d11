-- ===== src/Validator/Schema/State.antt =====
-- ast/document.go: `Schema`, and what the checks of validator/schema.go return.
use gqlparser.Ast.Definition.{Definition, DefinitionKind, DirectiveDefinition}
use gqlparser.Ast.Document.{Operation}
use gqlparser.Ast.Lookup.{definition_for_name, directive_definition_for_name}
use gqlparser.Ast.Source.{Position}
use gqlparser.Ast.TypeRef.{TypeRef, type_name}
use gqlparser.Base.{Bytes, bytes_eq, List, [], ◌∷◌, ◌++◌, Option, none, some, if◌then◌else◌}

-- A Go map from names to lists of pointers. A pointer to a definition is its name: the definitions
-- of a schema have distinct names, and a definition is changed only in place. `none` is nil.
abbrev pub Pointers : Type 0
Pointers = List (Bytes × List (Option Bytes))

-- The maps `Types` and `Directives` are lists, in the order in which they are filled.
pub record Schema : Type 0 where
  pub query : Option Bytes
  pub mutation : Option Bytes
  pub subscription : Option Bytes
  pub types : List Definition
  pub directives : List DirectiveDefinition
  pub possible_types : Pointers
  pub implements : Pointers

abbrev pub empty_schema_state : Schema
empty_schema_state = record {
  query = none;
  mutation = none;
  subscription = none;
  types = [];
  directives = [];
  possible_types = [];
  implements = [];
}

-- `m[name]`
unfoldable pub pointers_of : Bytes → Pointers → List (Option Bytes)
unfolding bytes_eq
pointers_of name [] = []
pointers_of name ((n, l) ∷ m) = if bytes_eq n name then l else pointers_of name m

-- `m[name] = append(m[name], p)`
unfoldable pub add_pointer : Bytes → Option Bytes → Pointers → Pointers
unfolding bytes_eq
add_pointer name p [] = (name, p ∷ []) ∷ []
add_pointer name p ((n, l) ∷ m) =
    if bytes_eq n name then (n, l ++ p ∷ []) ∷ m else (n, l) ∷ add_pointer name p m

-- `AddPossibleType`, `AddImplements`, `GetPossibleTypes` and `GetImplements`
unfoldable pub add_possible_type : Bytes → Option Bytes → Schema → Schema
unfolding add_pointer
add_possible_type name p s = record s { possible_types = add_pointer name p s.possible_types }

unfoldable pub add_implements : Bytes → Option Bytes → Schema → Schema
unfolding add_pointer
add_implements name p s = record s { implements = add_pointer name p s.implements }

unfoldable pub get_possible_types : Schema → Definition → List (Option Bytes)
unfolding pointers_of
get_possible_types s d = pointers_of d.name s.possible_types

unfoldable pub get_implements : Schema → Definition → List (Option Bytes)
unfolding pointers_of
get_implements s d = pointers_of d.name s.implements

-- `schema.Types[name]` and `schema.Directives[name]`
abbrev pub type_named : Schema → Bytes → Option Definition
type_named s name = definition_for_name name s.types

abbrev pub directive_named : Schema → Bytes → Option DirectiveDefinition
directive_named s name = directive_definition_for_name name s.directives

-- `schema.Types[typ.Name()]`; a type of the parser has a name.
abbrev pub type_at : Schema → TypeRef → Option Definition
type_at s t = elim (type_name t) [ none ↦ none | some name ↦ type_named s name ]

-- The messages of schema.go, by their format string. `gqlerror.ErrorPosf` panics on a nil position;
-- the parser gives every node of a document its position, so that an error at a position that is
-- `none`, which only a document made otherwise has, is an ordinary problem here.
pub data SchemaMessage : Type 0 where
  redeclared_type : Bytes → SchemaMessage
  wrong_extension : Bytes → DefinitionKind → DefinitionKind → SchemaMessage
  redeclared_directive : Bytes → SchemaMessage
  many_entry_points : SchemaMessage
  unknown_root : Operation → Bytes → SchemaMessage
  undefined_type : TypeRef → SchemaMessage
  undefined_name : Bytes → SchemaMessage
  wrong_member : DefinitionKind → Bytes → SchemaMessage
  no_fields : DefinitionKind → SchemaMessage
  wrong_field_kind : DefinitionKind → SchemaMessage
  no_enum_values : DefinitionKind → SchemaMessage
  repeated_field : Bytes → Bytes → SchemaMessage
  reserved_name : Bytes → SchemaMessage
  not_input_type : TypeRef → Bytes → DefinitionKind → SchemaMessage
  unsupported_argument : Bytes → Bytes → SchemaMessage
  self_reference : Bytes → SchemaMessage
  undefined_directive : Bytes → SchemaMessage
  wrong_location : Bytes → Bytes → SchemaMessage
  not_an_interface : Bytes → DefinitionKind → SchemaMessage
  missing_field : Bytes → Bytes → Bytes → SchemaMessage
  wrong_field_type : Bytes → Bytes → Bytes → TypeRef → SchemaMessage
  missing_argument : Bytes → Bytes → Bytes → Bytes → SchemaMessage
  wrong_argument_type : Bytes → Bytes → Bytes → Bytes → SchemaMessage
  required_argument : Bytes → Bytes → Bytes → Bytes → SchemaMessage

-- nil, an error at a position, or a nil pointer that is read.
pub data Check : Type 0 where
  fine : Check
  problem : Option Position → SchemaMessage → Check
  crash : Check

-- `if err != nil { return err }`, and then the rest
infixr 20 ◌then_check◌
abbrev pub ◌then_check◌ : Check → Check → Check
fine then_check c = c
problem p m then_check c = problem p m
crash then_check c = crash

-- A loop that returns the first error.
unfoldable pub check_all : {A : Type 0} → (A → Check) → List A → Check
check_all f [] = fine
check_all f (a ∷ l) = f a then_check check_all f l
