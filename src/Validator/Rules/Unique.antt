-- ===== src/Validator/Rules/Unique.antt =====
-- validator/rules/: the rules unique_*.go and lone_anonymous_operation.go.
use gqlparser.Ast.Document.{
  FragmentDefinition, Argument, Directive, OperationDefinition, QueryDocument, VariableDefinition,
}
use gqlparser.Ast.Source.{Position}
use gqlparser.Ast.Value.{Children, Value, object_value, value, no_children, child}
use gqlparser.Base.{
  Bool, ◌&&◌, Bytes, bytes_eq, ltb, length, List, [], ◌∷◌, ◌++◌, Option, if◌then◌else◌,
}
use gqlparser.Validator.Rules.Rule.{
  RuleError, RuleMessage, add_error, repeated_argument, repeated_directive, repeated_fragment,
  repeated_input_field, repeated_operation, repeated_variable, not_the_only_operation,
}
use gqlparser.Validator.Walk.Event.{
  Event, operation_event, field_event, fragment_event, directive_event, directive_list_event,
  value_event,
}
use gqlparser.Validator.Walk.Selection.{is_member}

module _ {A : Type 0} (key : A → Bytes) (complain : Bytes → RuleMessage)
    (place : A → Option Position) where
  abbrev pub refuse_known : Bool → A → List RuleError
  refuse_known known a = if known then add_error (complain (key a)) (place a) else []

  -- The loop that each rule on unique names has: an error for each name that is known already
  unfoldable pub refuse_repeated : List Bytes → List A → List RuleError
  unfolding is_member
  refuse_repeated known [] = []
  refuse_repeated known (a ∷ l) =
      refuse_known (is_member (key a) known) a ++ refuse_repeated (key a ∷ known) l

-- `checkUniqueArgs`
unfoldable pub check_unique_args : List Argument → List RuleError
unfolding refuse_repeated
check_unique_args args =
    refuse_repeated (λ (a : Argument). a.name) repeated_argument (λ a. a.position) [] args

-- `UniqueArgumentNames`
unfoldable pub unique_argument_names : Event → List RuleError
unfolding check_unique_args
unique_argument_names (field_event n) = check_unique_args n.arguments
unique_argument_names (directive_event n) = check_unique_args n.arguments
unique_argument_names _ = []

-- `UniqueDirectivesPerLocation`
unfoldable pub unique_directives_per_location : Event → List RuleError
unfolding refuse_repeated
unique_directives_per_location (directive_list_event dirs) =
    refuse_repeated (λ (d : Directive). d.name) repeated_directive (λ d. d.position) [] dirs
unique_directives_per_location _ = []

-- `UniqueVariableNames`
unfoldable pub unique_variable_names : Event → List RuleError
unfolding refuse_repeated
unique_variable_names (operation_event op) =
    refuse_repeated (λ (d : VariableDefinition). d.variable) repeated_variable (λ d. d.position) []
      op.variable_definitions
unique_variable_names _ = []

-- The children of a value, with their positions
unfoldable pub named_children : Children → List (Bytes × Option Position)
named_children no_children = []
named_children (child name v pos rest) = (name, pos) ∷ named_children rest

-- `UniqueInputFieldNames`
abbrev pub unique_fields_of : Value → List RuleError
unique_fields_of (value object_value raw cs pos) =
    refuse_repeated (λ (c : Bytes × Option Position). c.0) repeated_input_field (λ c. c.1) []
      (named_children cs)
unique_fields_of _ = []

unfoldable pub unique_input_field_names : Event → List RuleError
unfolding refuse_repeated named_children
unique_input_field_names (value_event n) = unique_fields_of n.node
unique_input_field_names _ = []

-- `UniqueOperationNames`, with its map `seen`
unfoldable pub unique_operation_names : Event → List Bytes → List Bytes × List RuleError
unfolding is_member
unique_operation_names (operation_event op) seen = (
  op.name ∷ seen,
  refuse_known (λ (o : OperationDefinition). o.name) repeated_operation (λ o. o.position)
      (is_member op.name seen) op,
)
unique_operation_names _ seen = (seen, [])

-- `UniqueFragmentNames`, with its map `seenFragments`
unfoldable pub unique_fragment_names : Event → List Bytes → List Bytes × List RuleError
unfolding is_member
unique_fragment_names (fragment_event f d) seen = (
  f.name ∷ seen,
  refuse_known (λ (g : FragmentDefinition). g.name) repeated_fragment (λ g. g.position)
      (is_member f.name seen) f,
)
unique_fragment_names _ seen = (seen, [])

-- `LoneAnonymousOperation`
unfoldable pub lone_anonymous_operation : QueryDocument → Event → List RuleError
unfolding bytes_eq
lone_anonymous_operation doc (operation_event op) =
    if bytes_eq op.name [] && ltb 1 (length doc.operations)
    then add_error not_the_only_operation op.position
    else []
lone_anonymous_operation doc _ = []
