-- ===== src/Validator/Rules/Possible.antt =====
-- validator/rules/possible_fragment_spreads.go, and what it reports.
use gqlparser.Ast.Definition.{
  Definition, DefinitionKind, object_kind, interface_kind, union_kind, is_composite_type,
}
use gqlparser.Ast.Lookup.{definition_for_name}
use gqlparser.Base.{
  Bool, true, false, Bytes, bytes_eq, List, [], ◌∷◌, Option, none, some, if◌then◌else◌,
}
use gqlparser.Validator.Rules.Rule.{RuleError, add_error, impossible_inline, impossible_spread}
use gqlparser.Validator.Schema.State.{Schema, get_possible_types, type_named}
use gqlparser.Validator.Walk.Event.{Event, inline_fragment_event, fragment_spread_event}

-- The inner loop, over `parentDefs`; `none` where it reads a nil pointer
unfoldable pub same_name : Option Bytes → List (Option Bytes) → Option Bool
unfolding bytes_eq
same_name f [] = some false
same_name none (p ∷ ps) = none
same_name (some f) (none ∷ ps) = none
same_name (some f) (some p ∷ ps) = if bytes_eq p f then some true else same_name (some f) ps

-- The outer loop, over `fragmentDefs`
unfoldable pub overlap : List (Option Bytes) → List (Option Bytes) → Option Bool
unfolding same_name
overlap [] ps = some false
overlap (f ∷ fs) ps = elim (same_name f ps) [
  | none ↦ none
  | some true ↦ some true
  | some false ↦ overlap fs ps
]

abbrev pub emit_unless : List RuleError → Option Bool → Option (List RuleError)
emit_unless errors none = none
emit_unless errors (some true) = some []
emit_unless errors (some false) = some errors

module _ (s : Schema) where
  -- `parentDefs`; `none` for the early return
  abbrev pub parent_types : Definition → DefinitionKind → Option (List (Option Bytes))
  parent_types d object_kind = some (some d.name ∷ [])
  parent_types d interface_kind = some (get_possible_types s d)
  parent_types d union_kind = some (get_possible_types s d)
  parent_types d _ = none

  -- The rest of `validate`, behind `parentDefs` and with the type of the fragment
  abbrev pub fragment_type_checked :
      List RuleError → List (Option Bytes) → Option Definition → Option (List RuleError)
  fragment_type_checked errors parents none = some []
  fragment_type_checked errors parents (some t) = elim (is_composite_type t.kind) [
    | false ↦ some []
    | true ↦ emit_unless errors (overlap (get_possible_types s t) parents)
  ]

  -- `validate`
  unfoldable pub validate_spread :
      List RuleError → Option Definition → Bytes → Option (List RuleError)
  unfolding overlap get_possible_types is_composite_type definition_for_name
  validate_spread errors none name = some []
  validate_spread errors (some parent) name = elim (parent_types parent parent.kind) [
    | none ↦ some []
    | some parents ↦ fragment_type_checked errors parents (type_named s name)
  ]

  abbrev pub name_of : Option Definition → Bytes
  name_of none = []
  name_of (some d) = d.name

  -- `PossibleFragmentSpreads`; `none` where it reads a nil pointer
  unfoldable pub possible_fragment_spreads : Event → Option (List RuleError)
  unfolding validate_spread
  possible_fragment_spreads (inline_fragment_event n) =
      validate_spread
        (add_error (impossible_inline (name_of n.object_definition) n.type_condition) n.position)
        n.object_definition n.type_condition
  possible_fragment_spreads (fragment_spread_event n) = elim n.definition [
    | none ↦ some []
    | some f ↦
        validate_spread
          (add_error (impossible_spread n.name (name_of n.object_definition) f.type_condition)
            n.position)
          n.object_definition f.type_condition
  ]
  possible_fragment_spreads _ = some []
