-- ===== src/Validator/Rules/Variables.antt =====
-- validator/rules/: no_undefined_variables.go, no_unused_variables.go, no_unused_fragments.go and
-- variables_are_input_types.go.
use gqlparser.Ast.Definition.{Definition, is_input_type}
use gqlparser.Ast.Document.{OperationDefinition, VariableDefinition}
use gqlparser.Ast.TypeRef.{type_name}
use gqlparser.Ast.Lookup.{definition_for_name}
use gqlparser.Ast.Value.{Value, variable, value}
use gqlparser.Base.{
  Bool, true, not, ◌&&◌, Bytes, bytes_eq, List, [], ◌∷◌, ◌++◌, Option, none, some, if◌then◌else◌,
}
use gqlparser.Validator.Rules.Rule.{
  RuleError, add_error, for_each, unused_fragment, unused_variable, unused_variable_in,
  undefined_variable, undefined_variable_in, not_input_variable,
}
use gqlparser.Validator.Schema.State.{Schema, type_at}
use gqlparser.Validator.Walk.Event.{
  Event, ValueNode, operation_event, fragment_event, fragment_spread_event, value_event,
}
use gqlparser.Validator.Walk.Selection.{is_member}

abbrev undefined_in : OperationDefinition → ValueNode → Value → List RuleError
undefined_in op n (value variable raw cs pos) = elim n.variable_definition [
  | some d ↦ []
  | none ↦
      if bytes_eq op.name []
      then add_error (undefined_variable n.node) pos
      else add_error (undefined_variable_in n.node op.name) op.position
]
undefined_in op n _ = []

-- `NoUndefinedVariables`
unfoldable pub no_undefined_variables : Event → List RuleError
unfolding bytes_eq
no_undefined_variables (value_event n) = elim n.current_operation [
  | none ↦ []
  | some op ↦ undefined_in op n n.node
]
no_undefined_variables _ = []

abbrev complain_unused : OperationDefinition → VariableDefinition → List RuleError
complain_unused op d =
    if bytes_eq op.name []
    then add_error (unused_variable d.variable) d.position
    else add_error (unused_variable_in d.variable op.name) d.position

-- The loop over the variables of an operation. `Used` is set in the first definition of a name that
-- a value refers to; `earlier` are the names before.
unfoldable pub unused_variables :
    OperationDefinition → List Bytes → List Bytes → List VariableDefinition → List RuleError
unfolding is_member bytes_eq
unused_variables op used earlier [] = []
unused_variables op used earlier (d ∷ ds) =
    (if is_member d.variable used && not (is_member d.variable earlier)
      then []
      else complain_unused op d)
    ++ unused_variables op used (d.variable ∷ earlier) ds

abbrev mark_used : Option VariableDefinition → List Bytes → List Bytes
mark_used none used = used
mark_used (some d) used = d.variable ∷ used

-- `NoUnusedVariables`; its state is the names of the definitions of the current operation that
-- `walkValue` has marked as used.
unfoldable pub no_unused_variables : Event → List Bytes → List Bytes × List RuleError
unfolding unused_variables
no_unused_variables (value_event n) used = (mark_used n.variable_definition used, [])
no_unused_variables (operation_event op) used =
    ([], unused_variables op used [] op.variable_definitions)
no_unused_variables _ used = (used, [])

-- `NoUnusedFragments`, with `inFragmentDefinition` and `fragmentNameUsed`
unfoldable pub no_unused_fragments :
    Event → Bool × List Bytes → (Bool × List Bytes) × List RuleError
unfolding is_member
no_unused_fragments (fragment_spread_event n) (inside, used) =
    ((inside, if inside then used else n.name ∷ used), [])
no_unused_fragments (fragment_event f d) (inside, used) = (
  (true, used),
  if is_member f.name used then [] else add_error (unused_fragment f.name) f.position,
)
no_unused_fragments _ st = (st, [])

abbrev input_type : VariableDefinition → Option Definition → List RuleError
input_type d none = []
input_type d (some def) =
    if is_input_type def.kind
    then []
    else add_error (not_input_variable d.variable d.type_ref) d.position

-- `VariablesAreInputTypes`; the walk has set the definition of a variable to that of its type.
unfoldable pub variables_are_input_types : Schema → Event → List RuleError
unfolding for_each is_input_type type_name definition_for_name
variables_are_input_types s (operation_event op) =
    for_each (λ (d : VariableDefinition). input_type d (type_at s d.type_ref))
      op.variable_definitions
variables_are_input_types s _ = []
