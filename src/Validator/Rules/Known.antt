-- ===== src/Validator/Rules/Known.antt =====
-- validator/rules/: the rules known_*.go and fragments_on_composite_types.go.
use gqlparser.Ast.Definition.{
  ArgumentDefinition, Definition, DirectiveDefinition, is_composite_type,
}
use gqlparser.Ast.Document.{Argument, VariableDefinition}
use gqlparser.Ast.Lookup.{argument_definition_for_name, definition_for_name}
use gqlparser.Ast.Source.{Position}
use gqlparser.Ast.TypeRef.{type_name}
use gqlparser.Base.{Bytes, bytes_eq, List, [], ◌∷◌, Option, none, some, if◌then◌else◌}
use gqlparser.Validator.Rules.Rule.{
  RuleError, RuleMessage, add_error, for_each, unknown_fragment, unknown_directive,
  misplaced_directive, unknown_field_argument, unknown_directive_argument, unknown_type,
  inline_not_composite, fragment_not_composite,
}
use gqlparser.Validator.Schema.State.{Schema, type_named, type_at}
use gqlparser.Validator.Walk.Event.{
  Event, FieldNode, DirectiveNode, operation_event, field_event, fragment_event,
  inline_fragment_event, fragment_spread_event, directive_event,
}
use gqlparser.Validator.Walk.Selection.{is_member}

-- An error where a pointer is nil
abbrev pub unless_found : {A : Type 0} → RuleMessage → Option Position → Option A → List RuleError
unless_found m p none = add_error m p
unless_found m p (some a) = []

-- `KnownFragmentNames`
unfoldable pub known_fragment_names : Event → List RuleError
known_fragment_names (fragment_spread_event n) =
    unless_found (unknown_fragment n.name) n.position n.definition
known_fragment_names _ = []

abbrev directive_known : DirectiveNode → Option DirectiveDefinition → List RuleError
directive_known n none = add_error (unknown_directive n.name) n.position
directive_known n (some d) =
    if is_member n.location d.locations
    then []
    else add_error (misplaced_directive n.name n.location) n.position

-- `KnownDirectives`
unfoldable pub known_directives : Event → List RuleError
unfolding is_member
known_directives (directive_event n) = directive_known n n.definition
known_directives _ = []

-- The loop over the arguments of a field or a directive whose definition is found
unfoldable pub known_arguments :
    (Bytes → RuleMessage)
    → Option Position
    → List ArgumentDefinition
    → List Argument
    → List RuleError
unfolding for_each argument_definition_for_name
known_arguments complain pos defs = for_each (λ (arg : Argument).
    unless_found (complain arg.name) pos (argument_definition_for_name arg.name defs))

abbrev field_arguments_known : FieldNode → List RuleError
field_arguments_known n = elim n.definition [
  | none ↦ []
  | some d ↦ elim n.object_definition [
    | none ↦ []
    | some o ↦
        known_arguments (λ arg. unknown_field_argument arg n.name o.name) n.position d.arguments
          n.arguments
  ]
]

abbrev directive_arguments_known : DirectiveNode → List RuleError
directive_arguments_known n = elim n.definition [
  | none ↦ []
  | some d ↦
      known_arguments (λ arg. unknown_directive_argument arg n.name) n.position d.arguments
        n.arguments
]

-- `KnownArgumentNames`
unfoldable pub known_argument_names : Event → List RuleError
unfolding known_arguments
known_argument_names (field_event n) = field_arguments_known n
known_argument_names (directive_event n) = directive_arguments_known n
known_argument_names _ = []

module _ (s : Schema) where
  -- `KnownTypeNames`
  unfoldable pub known_type_names : Event → List RuleError
  unfolding for_each type_name definition_for_name
  known_type_names (operation_event op) =
      for_each
        (λ (d : VariableDefinition).
          unless_found (unknown_type (type_name d.type_ref)) op.position (type_at s d.type_ref))
        op.variable_definitions
  known_type_names (inline_fragment_event n) = elim n.type_condition [
    | [] ↦ []
    | c ∷ name ↦ unless_found (unknown_type (some (c ∷ name))) n.position (type_named s (c ∷ name))
  ]
  known_type_names (fragment_event f d) =
      unless_found (unknown_type (some f.type_condition)) f.position (type_named s f.type_condition)
  known_type_names _ = []

  -- An error where a type is found and is not composite
  abbrev composite : RuleMessage → Option Position → Option Definition → List RuleError
  composite m p none = []
  composite m p (some d) = if is_composite_type d.kind then [] else add_error m p

  -- `FragmentsOnCompositeTypes`
  unfoldable pub fragments_on_composite_types : Event → List RuleError
  unfolding is_composite_type definition_for_name bytes_eq
  fragments_on_composite_types (inline_fragment_event n) =
      composite (inline_not_composite n.type_condition) n.position (type_named s n.type_condition)
  fragments_on_composite_types (fragment_event f d) =
      if bytes_eq f.type_condition []
      then []
      else composite (fragment_not_composite f.name f.type_condition) f.position d
  fragments_on_composite_types _ = []
