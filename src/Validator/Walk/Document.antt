-- ===== src/Validator/Walk/Document.antt =====
-- validator/walk.go: `Walk`, `walkOperation` and `walkFragment`.
use gqlparser.Ast.Definition.{Definition}
use gqlparser.Ast.Document.{
  FragmentDefinition, Operation, OperationDefinition, QueryDocument, VariableDefinition, query,
  mutation, subscription, no_operation,
}
use gqlparser.Ast.Value.{Value, nil_value, value}
use gqlparser.Base.{ℕ, Bytes, codes, List, [], ◌∷◌, ◌++◌, Option, none, some, length}
use gqlparser.Validator.Schema.State.{Schema, type_named}
use gqlparser.Validator.Walk.Event.{Event, Trail, operation_event, fragment_event}
use gqlparser.Validator.Walk.Value.{expected, walk_value, walk_directives}
use gqlparser.Validator.Walk.Selection.{emit, then_emit, enter_fragment, walk_selection_set}

-- `schema.Query` and its like
abbrev pub pointed : Schema → Option Bytes → Option Definition
pointed s none = none
pointed s (some name) = type_named s name

abbrev pub root_type : Schema → Operation → Option Definition
root_type s query = pointed s s.query
root_type s no_operation = pointed s s.query
root_type s mutation = pointed s s.mutation
root_type s subscription = pointed s s.subscription

abbrev pub operation_location : Operation → Bytes
operation_location query = codes "QUERY"
operation_location no_operation = codes "QUERY"
operation_location mutation = codes "MUTATION"
operation_location subscription = codes "SUBSCRIPTION"

module _ (s : Schema) where
  abbrev pub walk_default : OperationDefinition → VariableDefinition → Value → List Event
  walk_default op d nil_value = []
  walk_default op d (value kind raw cs pos) =
      walk_value s (some op) (expected s (some d.type_ref)) (value kind raw cs pos)

  -- The default values of the variables of an operation
  unfoldable pub walk_defaults : OperationDefinition → List VariableDefinition → List Event
  unfolding walk_value
  walk_defaults op [] = []
  walk_defaults op (d ∷ ds) = walk_default op d d.default_value ++ walk_defaults op ds

  module _ (fuel : ℕ) (fragments : List FragmentDefinition) where
    -- `walkOperation`; each walk begins with no fragment visited
    unfoldable pub walk_operation : OperationDefinition → List Event → Option Trail
    unfolding walk_directives walk_defaults walk_selection_set enter_fragment
    walk_operation op events =
        let parent = root_type s op.operation in
        then_emit (operation_event op ∷ []) (
          walk_selection_set s fragments (some op) (enter_fragment s fragments (some op) fuel)
            parent op.selection_set
            (emit
              (walk_directives s (some op) parent op.directives (operation_location op.operation)
                ++ walk_defaults op op.variable_definitions)
              (record { validated_fragment_spreads = []; events = events })))

    -- `walkFragment`
    unfoldable pub walk_fragment : FragmentDefinition → List Event → Option Trail
    unfolding walk_directives walk_selection_set enter_fragment
    walk_fragment f events =
        let parent = type_named s f.type_condition in
        then_emit (fragment_event f parent ∷ []) (
          walk_selection_set s fragments none (enter_fragment s fragments none fuel) parent
            f.selection_set
            (emit (walk_directives s none parent f.directives (codes "FRAGMENT_DEFINITION"))
              (record { validated_fragment_spreads = []; events = events })))

-- One of the two loops of `walk`
unfoldable pub walk_each :
    {A : Type 0} → (A → List Event → Option Trail) → List A → List Event → Option (List Event)
walk_each f [] events = some events
walk_each f (a ∷ l) events = elim (f a events) [ none ↦ none | some t ↦ walk_each f l t.events ]

-- `Walk`, on the fuel that `Validator.Walk.Ends` is about
unfoldable pub walk : Schema → QueryDocument → Option (List Event)
unfolding walk_each walk_operation walk_fragment
walk s doc =
    let fuel = length doc.fragments in
    elim (walk_each (walk_operation s fuel doc.fragments) doc.operations []) [
      | none ↦ none
      | some events ↦ walk_each (walk_fragment s fuel doc.fragments) doc.fragments events
    ]
