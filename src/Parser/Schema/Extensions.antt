-- ===== src/Parser/Schema/Extensions.antt =====
-- parser/schema.go: extensions. Each must extend by something, or an error is reported.
use gqlparser.Ast.Definition.{
  Definition, SchemaDefinition, SchemaDocument, scalar_kind, object_kind, interface_kind,
  union_kind, enum_kind, input_object_kind,
}
use gqlparser.Base.{
  Bytes, ℕ, Bool, false, true, ◌&&◌, codes, bytes_eq, List, [], ◌∷◌, ◌++◌, if◌then◌else◌,
}
use gqlparser.Lexer.Token.{brace_l, brace_r}
use gqlparser.Parser.Many.{at_least_one}
use gqlparser.Parser.Schema.Fields.{
  parse_enum_values_definition, parse_fields_definition, parse_implements_interfaces,
  parse_input_fields_definition, parse_operation_type_definition, parse_union_member_types,
}
use gqlparser.Parser.Schema.Types.{new_definition}
use gqlparser.Parser.State.{
  M, ◌>>=◌, ◌>>◌, return, peek, peek_pos, expect_keyword, unexpected_error,
}
use gqlparser.Parser.Value.{parse_name, parse_directives}

-- `len(l) == 0`
abbrev pub is_empty : {A : Type 0} → List A → Bool
is_empty [] = true
is_empty (a ∷ l) = false

-- `if nothing { p.unexpectedError() }` and the return behind it
unfoldable pub unless_empty : {A : Type 0} → Bool → A → M A
unfolding unexpected_error
unless_empty nothing a = if nothing then (do unexpected_error; return a) else return a

module _ (f : ℕ) where
  -- `parseSchemaExtension`
  unfoldable pub parse_schema_extension : M SchemaDefinition
  unfolding expect_keyword peek_pos parse_directives at_least_one parse_operation_type_definition
      unless_empty
  parse_schema_extension = do
    expect_keyword (codes "schema")
    pos ← peek_pos
    directives ← parse_directives f true
    operation_types ← at_least_one f brace_l brace_r (parse_operation_type_definition f)
    unless_empty (is_empty directives && is_empty operation_types) (record {
      description = [];
      directives = directives;
      operation_types = operation_types;
      position = pos;
    })

  -- `parseScalarTypeExtension`
  unfoldable pub parse_scalar_type_extension : M Definition
  unfolding expect_keyword peek_pos parse_name parse_directives unless_empty
  parse_scalar_type_extension = do
    expect_keyword (codes "scalar")
    pos ← peek_pos
    n ← parse_name
    directives ← parse_directives f true
    unless_empty (is_empty directives) (new_definition scalar_kind [] pos n directives)

  -- `parseObjectTypeExtension`
  unfoldable pub parse_object_type_extension : M Definition
  unfolding expect_keyword peek_pos parse_name parse_implements_interfaces parse_directives
      parse_fields_definition unless_empty
  parse_object_type_extension = do
    expect_keyword (codes "type")
    pos ← peek_pos
    n ← parse_name
    interfaces ← parse_implements_interfaces f
    directives ← parse_directives f true
    fields ← parse_fields_definition f
    unless_empty (is_empty interfaces && is_empty directives && is_empty fields)
        (record (new_definition object_kind [] pos n directives) {
          interfaces = interfaces;
          fields = fields;
        })

  -- `parseInterfaceTypeExtension`
  unfoldable pub parse_interface_type_extension : M Definition
  unfolding expect_keyword peek_pos parse_name parse_directives parse_fields_definition unless_empty
  parse_interface_type_extension = do
    expect_keyword (codes "interface")
    pos ← peek_pos
    n ← parse_name
    directives ← parse_directives f true
    fields ← parse_fields_definition f
    unless_empty (is_empty directives && is_empty fields)
        (record (new_definition interface_kind [] pos n directives) { fields = fields })

  -- `parseUnionTypeExtension`
  unfoldable pub parse_union_type_extension : M Definition
  unfolding expect_keyword peek_pos parse_name parse_directives parse_union_member_types
      unless_empty
  parse_union_type_extension = do
    expect_keyword (codes "union")
    pos ← peek_pos
    n ← parse_name
    directives ← parse_directives f true
    types ← parse_union_member_types f
    unless_empty (is_empty directives && is_empty types)
        (record (new_definition union_kind [] pos n directives) { types = types })

  -- `parseEnumTypeExtension`
  unfoldable pub parse_enum_type_extension : M Definition
  unfolding expect_keyword peek_pos parse_name parse_directives parse_enum_values_definition
      unless_empty
  parse_enum_type_extension = do
    expect_keyword (codes "enum")
    pos ← peek_pos
    n ← parse_name
    directives ← parse_directives f true
    values ← parse_enum_values_definition f
    unless_empty (is_empty directives && is_empty values)
        (record (new_definition enum_kind [] pos n directives) { enum_values = values })

  -- `parseInputObjectTypeExtension`: here variables are let into the directives
  unfoldable pub parse_input_object_type_extension : M Definition
  unfolding expect_keyword peek_pos parse_name parse_directives parse_input_fields_definition
      unless_empty
  parse_input_object_type_extension = do
    expect_keyword (codes "input")
    pos ← peek_pos
    n ← parse_name
    directives ← parse_directives f false
    fields ← parse_input_fields_definition f
    unless_empty (is_empty directives && is_empty fields)
        (record (new_definition input_object_kind [] pos n directives) { fields = fields })

  -- `append(doc.Extensions, …)`
  unfoldable pub add_extension : SchemaDocument → M Definition → M SchemaDocument
  add_extension doc m = do d ← m; return (record doc { extensions = doc.extensions ++ d ∷ [] })

  unfoldable pub add_schema_extension : SchemaDocument → M SchemaDocument
  add_schema_extension doc = do
    d ← parse_schema_extension
    return (record doc { schema_extension = doc.schema_extension ++ d ∷ [] })

  unfoldable pub no_extension : SchemaDocument → M SchemaDocument
  no_extension doc = do unexpected_error; return doc

  -- the switch of `parseTypeSystemExtension`
  unfoldable pub extension_cases : SchemaDocument → Bytes → M SchemaDocument
  unfolding add_extension add_schema_extension no_extension bytes_eq
  extension_cases doc word =
      if bytes_eq word (codes "schema")
      then add_schema_extension doc
      else if bytes_eq word (codes "scalar")
      then add_extension doc parse_scalar_type_extension
      else if bytes_eq word (codes "type")
      then add_extension doc parse_object_type_extension
      else if bytes_eq word (codes "interface")
      then add_extension doc parse_interface_type_extension
      else if bytes_eq word (codes "union")
      then add_extension doc parse_union_type_extension
      else if bytes_eq word (codes "enum")
      then add_extension doc parse_enum_type_extension
      else if bytes_eq word (codes "input")
      then add_extension doc parse_input_object_type_extension
      else no_extension doc

  -- `parseTypeSystemExtension`
  unfoldable pub parse_type_system_extension : SchemaDocument → M SchemaDocument
  unfolding expect_keyword peek extension_cases unexpected_error parse_schema_extension
      parse_scalar_type_extension parse_object_type_extension parse_interface_type_extension
      parse_union_type_extension parse_enum_type_extension parse_input_object_type_extension
  parse_type_system_extension doc = do
    expect_keyword (codes "extend")
    tok ← peek
    extension_cases doc tok.value
