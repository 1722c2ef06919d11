-- ===== src/Validator/Walk/Selection.antt =====
-- validator/walk.go: `walkSelectionSet` and `walkSelection`. The two recurse through the tree and,
-- at a fragment spread, into the selections of a fragment, on fuel.
use gqlparser.Ast.Definition.{ArgumentDefinition, Definition, FieldDefinition}
use gqlparser.Ast.Document.{
  FragmentDefinition, OperationDefinition, Selection, SelectionSet, field, fragment_spread,
  inline_fragment, no_selections, select,
}
use gqlparser.Ast.Lookup.{field_for_name, fragment_for_name}
use gqlparser.Ast.TypeRef.{TypeRef}
use gqlparser.Ast.Value.{nil_value}
use gqlparser.Base.{
  ℕ, zero, suc, Bool, true, false, ◌||◌, Bytes, bytes_eq, codes, List, [], ◌∷◌, ◌++◌, Option, none,
  some, if◌then◌else◌,
}
use gqlparser.Validator.Schema.State.{Schema, type_named, type_at}
use gqlparser.Validator.Walk.Event.{
  Event, Trail, field_event, inline_fragment_event, fragment_spread_event,
}
use gqlparser.Validator.Walk.Value.{walk_arguments, walk_directives}

-- `w.validatedFragmentSpreads[name]`
unfoldable pub is_member : Bytes → List Bytes → Bool
unfolding bytes_eq
is_member name [] = false
is_member name (n ∷ names) = bytes_eq n name || is_member name names

abbrev pub emit : List Event → Trail → Trail
emit events t = record t { events = t.events ++ events }

-- The definition that `walkSelection` makes for `__typename`
abbrev pub type_name_field : FieldDefinition
type_name_field = record {
  description = [];
  name = codes "__typename";
  arguments = [];
  default_value = nil_value;
  type_ref = TypeRef.named (codes "String") false none;
  directives = [];
  position = none;
}

unfoldable pub field_definition : Option Definition → Bytes → Option FieldDefinition
unfolding bytes_eq field_for_name
field_definition parent name =
    if bytes_eq name (codes "__typename")
    then some type_name_field
    else elim parent [ none ↦ none | some d ↦ field_for_name name d.fields ]

abbrev pub field_arguments : Option FieldDefinition → Option (List ArgumentDefinition)
field_arguments none = none
field_arguments (some d) = some d.arguments

abbrev pub field_type : Schema → Option FieldDefinition → Option Definition
field_type s none = none
field_type s (some d) = type_at s d.type_ref

-- `nextParentDef` of an inline fragment and of a spread
abbrev pub inline_type : Schema → Option Definition → Bytes → Option Definition
inline_type s parent [] = parent
inline_type s parent (c ∷ name) = type_named s (c ∷ name)

abbrev pub spread_type : Schema → Option FragmentDefinition → Option Definition
spread_type s none = none
spread_type s (some f) = type_named s f.type_condition

abbrev pub then_emit : List Event → Option Trail → Option Trail
then_emit events none = none
then_emit events (some t) = some (emit events t)

module _ (s : Schema) (fragments : List FragmentDefinition)
    (current : Option OperationDefinition) where
  module _ (enter : FragmentDefinition → Trail → Option Trail) where
    -- A spread of a fragment whose selections were not walked yet
    unfoldable pub enter_spread : Option FragmentDefinition → Trail → Option Trail
    unfolding is_member
    enter_spread none t = some t
    enter_spread (some f) t = elim (is_member f.name t.validated_fragment_spreads) [
      | true ↦ some t
      | false ↦
          enter f (record t { validated_fragment_spreads = f.name ∷ t.validated_fragment_spreads })
    ]

    unfoldable mutual
      unfolding field_definition fragment_for_name walk_arguments walk_directives enter_spread

      -- `walkSelection`
      pub walk_selection : Option Definition → Selection → Trail → Option Trail
      walk_selection parent (field alias name args dirs set pos) t =
          let def = field_definition parent name in
          let next = field_type s def in
          then_emit
            (field_event (record {
              alias = alias;
              name = name;
              arguments = args;
              selection_set = set;
              position = pos;
              definition = def;
              object_definition = parent;
            })
              ∷ [])
            (walk_selection_set next set (
              emit
                (walk_arguments s current (field_arguments def) args
                  ++ walk_directives s current next dirs (codes "FIELD"))
                t))
      walk_selection parent (inline_fragment condition dirs set pos) t =
          let next = inline_type s parent condition in
          then_emit
            (inline_fragment_event
                (record { type_condition = condition; position = pos; object_definition = parent })
              ∷ [])
            (walk_selection_set next set
              (emit (walk_directives s current next dirs (codes "INLINE_FRAGMENT")) t))
      walk_selection parent (fragment_spread name dirs pos) t =
          let def = fragment_for_name name fragments in
          then_emit
            (fragment_spread_event (record {
              name = name;
              position = pos;
              definition = def;
              object_definition = parent;
            })
              ∷ [])
            (enter_spread def (
              emit (walk_directives s current (spread_type s def) dirs (codes "FRAGMENT_SPREAD"))
                t))

      -- `walkSelectionSet`
      pub walk_selection_set : Option Definition → SelectionSet → Trail → Option Trail
      walk_selection_set parent no_selections t = some t
      walk_selection_set parent (select it rest) t = elim (walk_selection parent it t) [
        | none ↦ none
        | some t' ↦ walk_selection_set parent rest t'
      ]

  -- The selections of a fragment, on fuel for the fragments that are entered
  unfoldable pub enter_fragment : ℕ → FragmentDefinition → Trail → Option Trail
  unfolding walk_selection_set
  enter_fragment zero f t = none
  enter_fragment (suc n) f t =
      walk_selection_set (enter_fragment n) (type_named s f.type_condition) f.selection_set t
