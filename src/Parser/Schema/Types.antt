-- ===== src/Parser/Schema/Types.antt =====
-- parser/schema.go: the definitions of types, of directives and of the schema itself.
use gqlparser.Ast.Document.{Directive}
use gqlparser.Ast.Definition.{
  Definition, DefinitionKind, DirectiveDefinition, SchemaDefinition, scalar_kind, object_kind,
  interface_kind, union_kind, enum_kind, input_object_kind,
}
use gqlparser.Ast.Source.{Position}
use gqlparser.Base.{
  ℕ, false, true, Bytes, codes, bytes_eq, List, [], Option, none, some, not, if◌then◌else◌,
}
use gqlparser.Lexer.Token.{at, brace_l, brace_r, name, kind_eq}
use gqlparser.Parser.Many.{at_least_one}
use gqlparser.Parser.Selection.{on}
use gqlparser.Parser.Schema.Fields.{
  parse_argument_defs, parse_directive_locations, parse_enum_values_definition,
  parse_fields_definition, parse_implements_interfaces, parse_input_fields_definition,
  parse_operation_type_definition, parse_union_member_types,
}
use gqlparser.Parser.State.{
  M, ◌>>=◌, ◌>>◌, return, peek, peek_pos, expect, expect_keyword, unexpected_error,
}
use gqlparser.Parser.Value.{parse_name, parse_directives}

-- A definition with what all of them have; the rest is empty as in Go's zero value.
abbrev pub new_definition :
    DefinitionKind → Bytes → Option Position → Bytes → List Directive → Definition
new_definition kind description pos n directives = record {
  kind = kind;
  description = description;
  name = n;
  directives = directives;
  interfaces = [];
  fields = [];
  types = [];
  enum_values = [];
  position = pos;
  built_in = false;
}

module _ (f : ℕ) where
  -- `parseSchemaDefinition`
  unfoldable pub parse_schema_definition : Bytes → M SchemaDefinition
  unfolding expect_keyword peek_pos parse_directives at_least_one parse_operation_type_definition
  parse_schema_definition description = do
    expect_keyword (codes "schema")
    pos ← peek_pos
    directives ← parse_directives f true
    operation_types ← at_least_one f brace_l brace_r (parse_operation_type_definition f)
    return (record {
      description = description;
      directives = directives;
      operation_types = operation_types;
      position = pos;
    })

  -- `parseScalarTypeDefinition`
  unfoldable pub parse_scalar_type_definition : Bytes → M Definition
  unfolding expect_keyword peek_pos parse_name parse_directives
  parse_scalar_type_definition description = do
    expect_keyword (codes "scalar")
    pos ← peek_pos
    n ← parse_name
    directives ← parse_directives f true
    return (new_definition scalar_kind description pos n directives)

  -- `parseObjectTypeDefinition`
  unfoldable pub parse_object_type_definition : Bytes → M Definition
  unfolding expect_keyword peek_pos parse_name parse_implements_interfaces parse_directives
      parse_fields_definition
  parse_object_type_definition description = do
    expect_keyword (codes "type")
    pos ← peek_pos
    n ← parse_name
    interfaces ← parse_implements_interfaces f
    directives ← parse_directives f true
    fields ← parse_fields_definition f
    return (record (new_definition object_kind description pos n directives) {
      interfaces = interfaces;
      fields = fields;
    })

  -- `parseInterfaceTypeDefinition`
  unfoldable pub parse_interface_type_definition : Bytes → M Definition
  unfolding expect_keyword peek_pos parse_name parse_directives parse_fields_definition
  parse_interface_type_definition description = do
    expect_keyword (codes "interface")
    pos ← peek_pos
    n ← parse_name
    directives ← parse_directives f true
    fields ← parse_fields_definition f
    return (record (new_definition interface_kind description pos n directives) { fields = fields })

  -- `parseUnionTypeDefinition`
  unfoldable pub parse_union_type_definition : Bytes → M Definition
  unfolding expect_keyword peek_pos parse_name parse_directives parse_union_member_types
  parse_union_type_definition description = do
    expect_keyword (codes "union")
    pos ← peek_pos
    n ← parse_name
    directives ← parse_directives f true
    types ← parse_union_member_types f
    return (record (new_definition union_kind description pos n directives) { types = types })

  -- `parseEnumTypeDefinition`
  unfoldable pub parse_enum_type_definition : Bytes → M Definition
  unfolding expect_keyword peek_pos parse_name parse_directives parse_enum_values_definition
  parse_enum_type_definition description = do
    expect_keyword (codes "enum")
    pos ← peek_pos
    n ← parse_name
    directives ← parse_directives f true
    values ← parse_enum_values_definition f
    return (record (new_definition enum_kind description pos n directives) { enum_values = values })

  -- `parseInputObjectTypeDefinition`
  unfoldable pub parse_input_object_type_definition : Bytes → M Definition
  unfolding expect_keyword peek_pos parse_name parse_directives parse_input_fields_definition
  parse_input_object_type_definition description = do
    expect_keyword (codes "input")
    pos ← peek_pos
    n ← parse_name
    directives ← parse_directives f true
    fields ← parse_input_fields_definition f
    return
        (record (new_definition input_object_kind description pos n directives) { fields = fields })

  unfoldable pub no_definition : M (Option Definition)
  no_definition = do unexpected_error; return none

  unfoldable pub found : M Definition → M (Option Definition)
  found m = do d ← m; return (some d)

  -- the switch of `parseTypeSystemDefinition`; `none` is the nil pointer
  unfoldable pub type_system_cases : Bytes → Bytes → M (Option Definition)
  unfolding no_definition found bytes_eq
  type_system_cases word description =
      if bytes_eq word (codes "scalar")
      then found (parse_scalar_type_definition description)
      else if bytes_eq word (codes "type")
      then found (parse_object_type_definition description)
      else if bytes_eq word (codes "interface")
      then found (parse_interface_type_definition description)
      else if bytes_eq word (codes "union")
      then found (parse_union_type_definition description)
      else if bytes_eq word (codes "enum")
      then found (parse_enum_type_definition description)
      else if bytes_eq word (codes "input")
      then found (parse_input_object_type_definition description)
      else no_definition

  -- `parseTypeSystemDefinition`
  unfoldable pub parse_type_system_definition : Bytes → M (Option Definition)
  unfolding peek kind_eq type_system_cases no_definition unexpected_error
      parse_scalar_type_definition parse_object_type_definition parse_interface_type_definition
      parse_union_type_definition parse_enum_type_definition parse_input_object_type_definition
  parse_type_system_definition description = do
    tok ← peek
    if not (kind_eq tok.kind name) then no_definition else type_system_cases tok.value description

  -- `parseDirectiveDefinition`
  unfoldable pub parse_directive_definition : Bytes → M DirectiveDefinition
  unfolding expect_keyword expect peek_pos parse_name parse_argument_defs parse_directive_locations
  parse_directive_definition description = do
    expect_keyword (codes "directive")
    expect at
    pos ← peek_pos
    n ← parse_name
    arguments ← parse_argument_defs f
    expect_keyword on
    locations ← parse_directive_locations f
    return (record {
      description = description;
      name = n;
      arguments = arguments;
      locations = locations;
      position = pos;
    })
