-- ===== src/Validator/Schema/Implements.antt =====
-- validator/schema.go: `validateImplements` and `validateDefinition`.
use gqlparser.Ast.Definition.{
  ArgumentDefinition, Definition, DefinitionKind, FieldDefinition, scalar_kind, object_kind,
  interface_kind, union_kind, enum_kind, input_object_kind,
}
use gqlparser.Ast.Lookup.{field_for_name, argument_definition_for_name}
use gqlparser.Ast.TypeRef.{is_compatible, is_non_null}
use gqlparser.Ast.Value.{Value, nil_value, value}
use gqlparser.Base.{
  Bool, true, false, not, ◌&&◌, Bytes, codes, bytes_eq, List, [], ◌∷◌, Option, none, some,
  if◌then◌else◌,
}
use gqlparser.Validator.Schema.Check.{
  refuse_if, validate_args, validate_directives, validate_name, validate_type_ref,
}
use gqlparser.Validator.Schema.Covariant.{is_covariant}
use gqlparser.Validator.Schema.State.{
  Schema, Check, fine, problem, crash, ◌then_check◌, check_all, type_named, type_at, undefined_name,
  wrong_member, no_fields, wrong_field_kind, no_enum_values, repeated_field, not_an_interface,
  missing_field, wrong_field_type, missing_argument, wrong_argument_type, required_argument,
}

-- the case of nil: no default value
abbrev pub is_nil : Value → Bool
is_nil nil_value = true
is_nil (value _ _ _ _) = false

unfoldable pub is_interface : DefinitionKind → Bool
is_interface interface_kind = true
is_interface _ = false

unfoldable pub is_object : DefinitionKind → Bool
is_object object_kind = true
is_object _ = false

-- The names in the messages: of the definition and of the interface.
module _ (s : Schema) (d_name i_name : Bytes) where
  unfoldable pub argument_found :
      FieldDefinition → ArgumentDefinition → FieldDefinition → Option ArgumentDefinition → Check
  unfolding is_compatible
  argument_found required arg found none =
      problem found.position (missing_argument d_name i_name required.name arg.name)
  argument_found required arg found (some a) =
      refuse_if (not (is_compatible arg.type_ref a.type_ref)) a.position
        (wrong_argument_type d_name i_name required.name arg.name)

  -- The loop over the arguments that the interface's field has.
  unfoldable pub required_arguments : FieldDefinition → FieldDefinition → Check
  unfolding argument_found argument_definition_for_name check_all
  required_arguments required found =
      check_all
        (λ (arg : ArgumentDefinition).
          argument_found required arg found (argument_definition_for_name arg.name found.arguments))
        required.arguments

  abbrev pub is_extra : Option ArgumentDefinition → ArgumentDefinition → Bool
  is_extra (some a) arg = false
  is_extra none arg = is_non_null arg.type_ref && is_nil arg.default_value

  -- The loop over the arguments that the definition's field has.
  unfoldable pub extra_arguments : FieldDefinition → FieldDefinition → Check
  unfolding argument_definition_for_name check_all
  extra_arguments required found =
      check_all
        (λ (arg : ArgumentDefinition).
          refuse_if (is_extra (argument_definition_for_name arg.name required.arguments) arg)
            arg.position (required_argument d_name i_name found.name arg.name))
        found.arguments

  unfoldable pub covariant_check : FieldDefinition → FieldDefinition → Option Bool → Check
  covariant_check required found none = crash
  covariant_check required found (some true) = fine
  covariant_check required found (some false) =
      problem found.position (wrong_field_type d_name i_name required.name required.type_ref)

  unfoldable pub field_found : Definition → FieldDefinition → Option FieldDefinition → Check
  unfolding covariant_check is_covariant required_arguments extra_arguments
  field_found d required none = problem d.position (missing_field d_name i_name required.name)
  field_found d required (some found) =
      covariant_check required found (is_covariant s required.type_ref found.type_ref)
      then_check required_arguments required found
      then_check extra_arguments required found

unfoldable pub implements_interface : Schema → Definition → Bytes → Option Definition → Check
unfolding is_interface field_found field_for_name check_all
implements_interface s d name none = problem d.position (undefined_name name)
implements_interface s d name (some i) =
    refuse_if (not (is_interface i.kind)) d.position (not_an_interface name i.kind)
    then_check check_all
        (λ (required : FieldDefinition).
          field_found s d.name i.name d required (field_for_name required.name d.fields))
        i.fields

-- `validateImplements`
unfoldable pub validate_implements : Schema → Definition → Bytes → Check
unfolding implements_interface
validate_implements s d name = implements_interface s d name (type_named s name)

-- The first loop of `validateDefinition`
unfoldable pub validate_field : Schema → FieldDefinition → Check
unfolding validate_name validate_type_ref validate_args validate_directives
validate_field s field =
    validate_name field.position field.name
    then_check validate_type_ref s field.type_ref
    then_check validate_args s field.arguments none
    then_check validate_directives s field.directives (codes "FIELD_DEFINITION") none

-- A member of a union
unfoldable pub member_found : Definition → Bytes → Option Definition → Check
unfolding is_object
member_found d name none = problem d.position (undefined_name name)
member_found d name (some t) =
    refuse_if (not (is_object t.kind)) d.position (wrong_member d.kind name)

-- The kinds that a field may have: `isValidKind` with the lists of an output and of an input.
unfoldable pub is_output_kind : DefinitionKind → Bool
is_output_kind input_object_kind = false
is_output_kind _ = true

unfoldable pub is_input_kind : DefinitionKind → Bool
is_input_kind scalar_kind = true
is_input_kind enum_kind = true
is_input_kind input_object_kind = true
is_input_kind _ = false

unfoldable pub field_kind_ok : (DefinitionKind → Bool) → Option Definition → Bool
field_kind_ok valid none = true
field_kind_ok valid (some t) = valid t.kind

abbrev pub has_none : {A : Type 0} → List A → Bool
has_none [] = true
has_none (a ∷ l) = false

unfoldable pub kinds_of_fields : Schema → Definition → (DefinitionKind → Bool) → Check
unfolding check_all field_kind_ok
kinds_of_fields s d valid =
    refuse_if (has_none d.fields) d.position (no_fields d.kind)
    then_check check_all
        (λ (field : FieldDefinition).
          refuse_if (not (field_kind_ok valid (type_at s field.type_ref))) field.position
            (wrong_field_kind d.kind))
        d.fields

-- The switch of `validateDefinition`
unfoldable pub validate_kind : Schema → Definition → DefinitionKind → Check
unfolding kinds_of_fields is_output_kind is_input_kind
validate_kind s d object_kind = kinds_of_fields s d is_output_kind
validate_kind s d interface_kind = kinds_of_fields s d is_output_kind
validate_kind s d enum_kind = refuse_if (has_none d.enum_values) d.position (no_enum_values d.kind)
validate_kind s d input_object_kind = kinds_of_fields s d is_input_kind
validate_kind s d _ = fine

-- The loop over pairs of fields
unfoldable pub distinct_fields : Bytes → List FieldDefinition → Check
unfolding check_all bytes_eq
distinct_fields d_name [] = fine
distinct_fields d_name (field1 ∷ fields) =
    check_all
      (λ (field2 : FieldDefinition).
        refuse_if (bytes_eq field1.name field2.name) field2.position
          (repeated_field d_name field2.name))
      fields
    then_check distinct_fields d_name fields

-- The text of a kind
unfoldable pub kind_text : DefinitionKind → Bytes
kind_text scalar_kind = codes "SCALAR"
kind_text object_kind = codes "OBJECT"
kind_text interface_kind = codes "INTERFACE"
kind_text union_kind = codes "UNION"
kind_text enum_kind = codes "ENUM"
kind_text input_object_kind = codes "INPUT_OBJECT"

-- `validateDefinition`
unfoldable pub validate_definition : Schema → Definition → Check
unfolding check_all validate_field member_found validate_implements validate_kind distinct_fields
    validate_name validate_directives kind_text
validate_definition s d =
    check_all (validate_field s) d.fields
    then_check check_all (λ name. member_found d name (type_named s name)) d.types
    then_check check_all (validate_implements s d) d.interfaces
    then_check validate_kind s d d.kind
    then_check distinct_fields d.name d.fields
    then_check (if d.built_in then fine else validate_name d.position d.name)
    then_check validate_directives s d.directives (kind_text d.kind) none
