-- ===== src/Ast/Definition.antt =====
-- ast/definition.go, and the schema documents of ast/document.go.
use gqlparser.Ast.Document.{Directive, Operation}
use gqlparser.Ast.Source.{Position}
use gqlparser.Ast.TypeRef.{TypeRef}
use gqlparser.Ast.Value.{Value}
use gqlparser.Base.{Bool, true, false, Bytes, bytes_eq, List, [], ◌∷◌, ◌++◌, ◌||◌, Option}

pub data DefinitionKind : Type 0 where
  scalar_kind object_kind interface_kind union_kind enum_kind input_object_kind : DefinitionKind

-- A default value that is not there is the nil value.
pub record ArgumentDefinition : Type 0 where
  pub description : Bytes
  pub name : Bytes
  pub default_value : Value
  pub type_ref : TypeRef
  pub directives : List Directive
  pub position : Option Position

pub record FieldDefinition : Type 0 where
  pub description : Bytes
  pub name : Bytes
  pub arguments : List ArgumentDefinition
  pub default_value : Value
  pub type_ref : TypeRef
  pub directives : List Directive
  pub position : Option Position

pub record EnumValueDefinition : Type 0 where
  pub description : Bytes
  pub name : Bytes
  pub directives : List Directive
  pub position : Option Position

-- The locations are the strings that the parser read.
pub record DirectiveDefinition : Type 0 where
  pub description : Bytes
  pub name : Bytes
  pub arguments : List ArgumentDefinition
  pub locations : List Bytes
  pub position : Option Position

pub record Definition : Type 0 where
  pub kind : DefinitionKind
  pub description : Bytes
  pub name : Bytes
  pub directives : List Directive
  pub interfaces : List Bytes
  pub fields : List FieldDefinition
  pub types : List Bytes
  pub enum_values : List EnumValueDefinition
  pub position : Option Position
  pub built_in : Bool

-- `IsLeafType`, `IsAbstractType`, `IsCompositeType` and `IsInputType`, by the kind
unfoldable pub is_leaf_type : DefinitionKind → Bool
is_leaf_type scalar_kind = true
is_leaf_type enum_kind = true
is_leaf_type _ = false

unfoldable pub is_abstract_type : DefinitionKind → Bool
is_abstract_type interface_kind = true
is_abstract_type union_kind = true
is_abstract_type _ = false

unfoldable pub is_composite_type : DefinitionKind → Bool
is_composite_type object_kind = true
is_composite_type interface_kind = true
is_composite_type union_kind = true
is_composite_type _ = false

unfoldable pub is_input_type : DefinitionKind → Bool
is_input_type scalar_kind = true
is_input_type enum_kind = true
is_input_type input_object_kind = true
is_input_type _ = false

-- `OneOf`
unfoldable pub one_of : Definition → List Bytes → Bool
unfolding bytes_eq
one_of d [] = false
one_of d (t ∷ types) = bytes_eq d.name t || one_of d types

pub record OperationTypeDefinition : Type 0 where
  pub operation : Operation
  pub type_name : Bytes
  pub position : Option Position

pub record SchemaDefinition : Type 0 where
  pub description : Bytes
  pub directives : List Directive
  pub operation_types : List OperationTypeDefinition
  pub position : Option Position

pub record SchemaDocument : Type 0 where
  pub schema : List SchemaDefinition
  pub schema_extension : List SchemaDefinition
  pub directives : List DirectiveDefinition
  pub definitions : List Definition
  pub extensions : List Definition
  pub position : Option Position

-- `SchemaDocument.Merge`
unfoldable pub merge : SchemaDocument → SchemaDocument → SchemaDocument
merge d other = record d {
  schema = d.schema ++ other.schema;
  schema_extension = d.schema_extension ++ other.schema_extension;
  directives = d.directives ++ other.directives;
  definitions = d.definitions ++ other.definitions;
  extensions = d.extensions ++ other.extensions;
}
