-- ===== src/Parser/Schema/Fields.antt =====
-- parser/schema.go: what stands inside a definition, and lists of names and locations.
use gqlparser.Ast.Definition.{
  ArgumentDefinition, EnumValueDefinition, FieldDefinition, OperationTypeDefinition,
}
use gqlparser.Ast.Value.{nil_value}
use gqlparser.Base.{
  ℕ, zero, suc, Bool, true, false, ◌||◌, ◌&&◌, Bytes, codes, bytes_eq, List, [], ◌∷◌, none, some,
  if◌then◌else◌,
}
use gqlparser.Lexer.Token.{
  Kind, amp, paren_l, paren_r, colon, equals, brace_l, brace_r, pipe, name, string, block_string,
  kind_eq,
}
use gqlparser.Parser.Many.{at_least_one, no_error}
use gqlparser.Parser.Query.{parse_operation_type}
use gqlparser.Parser.State.{
  M, ◌>>=◌, ◌>>◌, return, peek, peek_pos, next, skip, expect, unexpected_token,
}
use gqlparser.Parser.Value.{parse_name, parse_value_literal, parse_directives, parse_type_reference}

abbrev pub is_text : Kind → Bool
is_text k = kind_eq k block_string || kind_eq k string

-- `parseDescription`
unfoldable pub parse_description : M Bytes
unfolding peek kind_eq next
parse_description = do
  token ← peek
  if is_text token.kind then (do t ← next; return t.value) else return []

module _ {A : Type 0} (sep : Kind) (item : M A) where
  -- `for p.skip(sep) && p.err == nil { append(item()) }`, on fuel
  unfoldable pub separated : ℕ → M (List A)
  separated zero p = none
  separated (suc n) p =
      let turn = (item >>= λ a. separated n >>= λ rest. return (a ∷ rest)) in
      (skip sep >>= λ took q. elim (took && no_error q.err) [
        | true ↦ turn q
        | false ↦ some ([], q)
      ])
        p

  -- an optional separator in front, and one item at least
  unfoldable pub led : ℕ → M (List A)
  unfolding separated
  led f = do skip sep; a ← item; rest ← separated f; return (a ∷ rest)

module _ (f : ℕ) where
  -- `parseOperationTypeDefinition`
  unfoldable pub parse_operation_type_definition : M OperationTypeDefinition
  unfolding peek_pos parse_operation_type expect parse_name
  parse_operation_type_definition = do
    pos ← peek_pos
    operation ← parse_operation_type
    expect colon
    n ← parse_name
    return (record { operation = operation; type_name = n; position = pos })

  -- `parseImplementsInterfaces`
  unfoldable pub parse_implements_interfaces : M (List Bytes)
  unfolding peek bytes_eq next led skip parse_name
  parse_implements_interfaces = do
    tok ← peek
    if bytes_eq tok.value (codes "implements") then (do next; led amp parse_name f) else return []

  -- `parseUnionMemberTypes`
  unfoldable pub parse_union_member_types : M (List Bytes)
  unfolding skip led parse_name
  parse_union_member_types = do has ← skip equals; if has then led pipe parse_name f else return []

  -- `parseArgumentDef`
  unfoldable pub parse_argument_def : M ArgumentDefinition
  unfolding peek_pos parse_description parse_name expect parse_type_reference skip
      parse_value_literal parse_directives
  parse_argument_def = do
    pos ← peek_pos
    description ← parse_description
    n ← parse_name
    expect colon
    type_ref ← parse_type_reference f
    has_default ← skip equals
    default ← if has_default then parse_value_literal true f else return nil_value
    directives ← parse_directives f true
    return (record {
      description = description;
      name = n;
      default_value = default;
      type_ref = type_ref;
      directives = directives;
      position = pos;
    })

  -- `parseArgumentDefs`
  unfoldable pub parse_argument_defs : M (List ArgumentDefinition)
  unfolding at_least_one parse_argument_def
  parse_argument_defs = at_least_one f paren_l paren_r parse_argument_def

  -- `parseFieldDefinition`
  unfoldable pub parse_field_definition : M FieldDefinition
  unfolding peek_pos parse_description parse_name parse_argument_defs expect parse_type_reference
      parse_directives
  parse_field_definition = do
    pos ← peek_pos
    description ← parse_description
    n ← parse_name
    arguments ← parse_argument_defs
    expect colon
    type_ref ← parse_type_reference f
    directives ← parse_directives f true
    return (record {
      description = description;
      name = n;
      arguments = arguments;
      default_value = nil_value;
      type_ref = type_ref;
      directives = directives;
      position = pos;
    })

  -- `parseFieldsDefinition`
  unfoldable pub parse_fields_definition : M (List FieldDefinition)
  unfolding at_least_one parse_field_definition
  parse_fields_definition = at_least_one f brace_l brace_r parse_field_definition

  -- `parseInputValueDef`
  unfoldable pub parse_input_value_def : M FieldDefinition
  unfolding peek_pos parse_description parse_name expect parse_type_reference skip
      parse_value_literal parse_directives
  parse_input_value_def = do
    pos ← peek_pos
    description ← parse_description
    n ← parse_name
    expect colon
    type_ref ← parse_type_reference f
    has_default ← skip equals
    default ← if has_default then parse_value_literal true f else return nil_value
    directives ← parse_directives f true
    return (record {
      description = description;
      name = n;
      arguments = [];
      default_value = default;
      type_ref = type_ref;
      directives = directives;
      position = pos;
    })

  -- `parseInputFieldsDefinition`
  unfoldable pub parse_input_fields_definition : M (List FieldDefinition)
  unfolding at_least_one parse_input_value_def
  parse_input_fields_definition = at_least_one f brace_l brace_r parse_input_value_def

  -- `parseEnumValueDefinition`
  unfoldable pub parse_enum_value_definition : M EnumValueDefinition
  unfolding peek_pos parse_description parse_name parse_directives
  parse_enum_value_definition = do
    pos ← peek_pos
    description ← parse_description
    n ← parse_name
    directives ← parse_directives f true
    return (record { description = description; name = n; directives = directives; position = pos })

  -- `parseEnumValuesDefinition`
  unfoldable pub parse_enum_values_definition : M (List EnumValueDefinition)
  unfolding at_least_one parse_enum_value_definition
  parse_enum_values_definition = at_least_one f brace_l brace_r parse_enum_value_definition

-- the cases of `parseDirectiveLocation`; each constant is the text itself
unfoldable pub is_location : Bytes → Bool
unfolding bytes_eq
is_location s =
    bytes_eq s (codes "QUERY")
    || bytes_eq s (codes "MUTATION")
    || bytes_eq s (codes "SUBSCRIPTION")
    || bytes_eq s (codes "FIELD")
    || bytes_eq s (codes "FRAGMENT_DEFINITION")
    || bytes_eq s (codes "FRAGMENT_SPREAD")
    || bytes_eq s (codes "INLINE_FRAGMENT")
    || bytes_eq s (codes "SCHEMA")
    || bytes_eq s (codes "SCALAR")
    || bytes_eq s (codes "OBJECT")
    || bytes_eq s (codes "FIELD_DEFINITION")
    || bytes_eq s (codes "ARGUMENT_DEFINITION")
    || bytes_eq s (codes "INTERFACE")
    || bytes_eq s (codes "UNION")
    || bytes_eq s (codes "ENUM")
    || bytes_eq s (codes "ENUM_VALUE")
    || bytes_eq s (codes "INPUT_OBJECT")
    || bytes_eq s (codes "INPUT_FIELD_DEFINITION")

-- `parseDirectiveLocation`
unfoldable pub parse_directive_location : M Bytes
unfolding expect is_location unexpected_token
parse_directive_location = do
  tok ← expect name
  if is_location tok.value then return tok.value else (do unexpected_token tok; return [])

-- `parseDirectiveLocations`
unfoldable pub parse_directive_locations : ℕ → M (List Bytes)
unfolding led skip parse_directive_location
parse_directive_locations = led pipe parse_directive_location
