-- ===== src/Validator/Rules/Fields.antt =====
-- validator/rules/: provided_required_arguments.go, scalar_leafs.go and
-- single_field_subscriptions.go.
use gqlparser.Base.{Bytes, Bool, bytes_eq, false, ◌||◌, not, ◌&&◌, ◌∷◌, if◌then◌else◌}
use gqlparser.Ast.Definition.{ArgumentDefinition, Definition, FieldDefinition, is_leaf_type}
use gqlparser.Ast.Document.{
  Argument, Operation, OperationDefinition, Selection, SelectionSet, subscription, field,
  fragment_spread, inline_fragment, no_selections, select,
}
use gqlparser.Ast.Lookup.{definition_for_name}
use gqlparser.Ast.Source.{Position}
use gqlparser.Ast.TypeRef.{is_non_null, type_name}
use gqlparser.Base.{Bool, true, false, ◌&&◌, List, [], Option, none, some, if◌then◌else◌}
use gqlparser.Validator.Rules.Rule.{
  RuleError, RuleMessage, add_error, for_each, field_argument_missing, directive_argument_missing,
  leaf_with_selection, no_selection, many_subscription_fields,
}
use gqlparser.Validator.Schema.Implements.{is_nil}
use gqlparser.Validator.Schema.State.{Schema, type_at}
use gqlparser.Validator.Walk.Event.{Event, FieldNode, operation_event, field_event, directive_event}

-- The inner loop, which compares names
unfoldable pub is_given : Bytes → List Argument → Bool
unfolding bytes_eq
is_given name [] = false
is_given name (arg ∷ args) = bytes_eq arg.name name || is_given name args

-- The loop over the arguments that a field or a directive defines
unfoldable pub required_provided :
    (ArgumentDefinition → RuleMessage)
    → Option Position
    → List Argument
    → List ArgumentDefinition
    → List RuleError
unfolding for_each is_given
required_provided complain pos args = for_each (λ (d : ArgumentDefinition).
    if is_non_null d.type_ref && is_nil d.default_value && not (is_given d.name args)
    then add_error (complain d) pos
    else [])

-- `ProvidedRequiredArguments`
unfoldable pub provided_required_arguments : Event → List RuleError
unfolding required_provided
provided_required_arguments (field_event n) = elim n.definition [
  | none ↦ []
  | some d ↦
      required_provided (λ a. field_argument_missing n.name a.name a.type_ref) n.position
        n.arguments d.arguments
]
provided_required_arguments (directive_event n) = elim n.definition [
  | none ↦ []
  | some d ↦
      required_provided (λ a. directive_argument_missing d.name a.name a.type_ref) n.position
        n.arguments d.arguments
]
provided_required_arguments _ = []

abbrev pub selects_none : SelectionSet → Bool
selects_none no_selections = true
selects_none (select it rest) = false

abbrev leaf_checked : FieldNode → FieldDefinition → Option Definition → List RuleError
leaf_checked n d none = []
leaf_checked n d (some t) =
    if is_leaf_type t.kind
    then if selects_none n.selection_set
      then []
      else add_error (leaf_with_selection n.name t.name) n.position
    else if selects_none n.selection_set
    then add_error (no_selection n.name d.type_ref) n.position
    else []

-- `ScalarLeafs`
unfoldable pub scalar_leafs : Schema → Event → List RuleError
unfolding is_leaf_type type_name definition_for_name
scalar_leafs s (field_event n) = elim n.definition [
  | none ↦ []
  | some d ↦ leaf_checked n d (type_at s d.type_ref)
]
scalar_leafs s _ = []

-- `GetPosition`
abbrev pub get_position : Selection → Option Position
get_position (field alias name args dirs set pos) = pos
get_position (fragment_spread name dirs pos) = pos
get_position (inline_fragment condition dirs set pos) = pos

abbrev single_field : OperationDefinition → Operation → SelectionSet → List RuleError
single_field op subscription (select first (select second rest)) =
    add_error (many_subscription_fields op.name) (get_position second)
single_field op _ _ = []

-- `SingleFieldSubscriptions`
unfoldable pub single_field_subscriptions : Event → List RuleError
single_field_subscriptions (operation_event op) = single_field op op.operation op.selection_set
single_field_subscriptions _ = []
