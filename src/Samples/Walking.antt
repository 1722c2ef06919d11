-- ===== src/Samples/Walking.antt =====
-- Runs of the walk and of rules, and the theorems on them at concrete inputs.
use gqlparser.Base.{true}
use gqlparser.Ast.Definition.{ArgumentDefinition}
use gqlparser.Validator.Rules.Arguments.{
  Provided, known_arguments-IsDefined, IsDefined, required_provided-Provided,
}
use gqlparser.Validator.Rules.Fields.{required_provided}
use gqlparser.Validator.Rules.Known.{known_arguments}
use gqlparser.Validator.Rules.Rule.{directive_argument_missing, unknown_directive_argument}
use gqlparser.Base.{◌≤◌, ◌⊎◌, ◌≢◌}
use gqlparser.Validator.Rules.Rule.{for_each}
use gqlparser.Validator.Rules.Unique.{lone_anonymous_operation}
use gqlparser.Validator.Rules.Lone.{lone_anonymous_operation_lem}
use gqlparser.Validator.Schema.Sound.Logic.{Every}
use gqlparser.Ast.Definition.{object_kind}
use gqlparser.Ast.Document.{
  Argument, FragmentDefinition, OperationDefinition, QueryDocument, Selection, SelectionSet, field,
  fragment_spread, no_selections, select, query,
}
use gqlparser.Ast.TypeRef.{TypeRef, type_name}
use gqlparser.Ast.Value.{nil_value}
use gqlparser.Ast.Lookup.{
  definition_for_name, directive_definition_for_name, fragment_for_name, field_for_name,
}
use gqlparser.Base.{
  false, Bool, Bytes, codes, List, [], ◌∷◌, ◌++◌, map, Option, none, some, ◌≡◌, ◌↔◌, refl, length,
}
use gqlparser.Parser.Schema.Types.{new_definition}
use gqlparser.Validator.Schema.Build.{bare_field}
use gqlparser.Validator.Schema.Sound.Distinct.{Distinct}
use gqlparser.Validator.Schema.State.{Schema, empty_schema_state}
use gqlparser.Validator.Rules.Distinct.{refuse_repeated-Distinct}
use gqlparser.Validator.Rules.Operations.{
  unique_operation_names-Distinct, unique_fragment_names-Distinct,
}
use gqlparser.Validator.Rules.Rule.{run, repeated_argument}
use gqlparser.Validator.Rules.Unique.{
  unique_operation_names, unique_fragment_names, refuse_repeated,
}
use gqlparser.Validator.Rules.Variables.{no_unused_fragments}
use gqlparser.Validator.Walk.Document.{walk}
use gqlparser.Validator.Walk.Covers.{walk-top_level, fragment_seen}
use gqlparser.Validator.Walk.Ends.{walk_ends}
use gqlparser.Validator.Walk.Event.{Event, operation_event}
use gqlparser.Validator.Walk.Quiet.{top_level}

-- type Cat { self: Cat }
cats : Schema
cats = record empty_schema_state {
  query = some (codes "Cat");
  types =
      record (new_definition object_kind [] none (codes "Cat") []) {
        fields = bare_field (codes "self") [] (TypeRef.named (codes "Cat") false none) ∷ [];
      }
      ∷ [];
}

spread_of : Bytes → Selection
spread_of name = fragment_spread name [] none

fragment_on_cat : Bytes → SelectionSet → FragmentDefinition
fragment_on_cat name set = record {
  name = name;
  variable_definition = [];
  type_condition = codes "Cat";
  directives = [];
  selection_set = set;
  position = none;
}

-- query { ...A }, fragment A on Cat { self ...B } and fragment B on Cat { ...A }
cycle : QueryDocument
unfolding spread_of fragment_on_cat
cycle = record {
  operations =
      record {
        operation = query;
        name = [];
        variable_definitions = [];
        directives = [];
        selection_set = select (spread_of (codes "A")) no_selections;
        position = none;
      }
      ∷ [];
  fragments =
      fragment_on_cat (codes "A") (
        select (field (codes "self") (codes "self") [] [] no_selections none)
          (select (spread_of (codes "B")) no_selections))
      ∷ fragment_on_cat (codes "B") (select (spread_of (codes "A")) no_selections)
      ∷ [];
  position = none;
}

events_of : Option (List Event) → List Event
events_of none = []
events_of (some events) = events

cycle_events : List Event
unfolding walk cats cycle events_of type_name definition_for_name directive_definition_for_name
    fragment_for_name field_for_name
cycle_events = events_of (walk cats cycle)

cycle_walked : walk cats cycle ≡ some cycle_events
unfolding cycle_events
cycle_walked = refl

-- Every call of an observer, those of the lists of directives too
counts_events : length cycle_events ≡ 32
unfolding cycle_events
counts_events = refl

uses_fragments : run no_unused_fragments (Bool.false, []) cycle_events ≡ []
unfolding cycle_events run no_unused_fragments
uses_fragments = refl

walk_ends_example : (events : List Event) × (walk cats cycle ≡ some events)
walk_ends_example = walk_ends cats cycle

walk-top_level_example :
    top_level cycle_events
    ≡ map operation_event cycle.operations ++ map (fragment_seen cats) cycle.fragments
walk-top_level_example = walk-top_level cats cycle cycle_events cycle_walked

unique_operation_names-Distinct_example :
    (run unique_operation_names [] cycle_events ≡ [])
    ↔ Distinct (λ (o : OperationDefinition). o.name) cycle.operations
unique_operation_names-Distinct_example =
    unique_operation_names-Distinct cats cycle cycle_events cycle_walked

unique_fragment_names-Distinct_example :
    (run unique_fragment_names [] cycle_events ≡ [])
    ↔ Distinct (λ (f : FragmentDefinition). f.name) cycle.fragments
unique_fragment_names-Distinct_example =
    unique_fragment_names-Distinct cats cycle cycle_events cycle_walked

twice : List Argument
twice =
    record { name = codes "a"; value = nil_value; position = none }
    ∷ record { name = codes "a"; value = nil_value; position = none }
    ∷ []

refuse_repeated-Distinct_example :
    (refuse_repeated (λ (a : Argument). a.name) repeated_argument (λ a. a.position) [] twice ≡ [])
    ↔ Distinct (λ (a : Argument). a.name) twice
refuse_repeated-Distinct_example =
    refuse_repeated-Distinct (λ (a : Argument). a.name) repeated_argument (λ a. a.position) twice

lone_anonymous_operation_lem_example :
    (for_each (lone_anonymous_operation cycle) cycle_events ≡ []) ↔ (
      (length cycle.operations ≤ 1)
      ⊎ Every (λ (op : OperationDefinition). op.name ≢ []) cycle.operations)
lone_anonymous_operation_lem_example =
    lone_anonymous_operation_lem cycle cats cycle_events cycle_walked

needed : List ArgumentDefinition
needed =
    record {
      description = [];
      name = codes "a";
      default_value = nil_value;
      type_ref = TypeRef.named (codes "Int") true none;
      directives = [];
      position = none;
    }
    ∷ []

known_arguments-IsDefined_example :
    (known_arguments (λ n. unknown_directive_argument n (codes "d")) none needed twice ≡ [])
    ↔ Every (IsDefined needed) twice
known_arguments-IsDefined_example =
    known_arguments-IsDefined (λ n. unknown_directive_argument n (codes "d")) none needed twice

required_provided-Provided_example :
    (required_provided
        (λ d. directive_argument_missing (codes "d") d.name d.type_ref)
        none
        twice
        needed
      ≡ [])
    ↔ Every (Provided twice) needed
required_provided-Provided_example =
    required_provided-Provided (λ d. directive_argument_missing (codes "d") d.name d.type_ref) none
      twice needed
