-- ===== src/Validator/Walk/Value.antt =====
-- validator/walk.go: `walkValue`, `walkArgument` and `walkDirectives`. Each returns the events.
use gqlparser.Ast.Definition.{ArgumentDefinition, Definition, DirectiveDefinition}
use gqlparser.Ast.Document.{Argument, Directive, OperationDefinition, VariableDefinition}
use gqlparser.Ast.Lookup.{argument_definition_for_name, field_for_name, variable_for_name}
use gqlparser.Ast.TypeRef.{TypeRef, type_name}
use gqlparser.Ast.Value.{
  Children, Value, ValueKind, variable, list_value, object_value, nil_value, value, no_children,
  child,
}
use gqlparser.Base.{Bytes, List, [], ◌∷◌, ◌++◌, Option, none, some}
use gqlparser.Validator.Schema.State.{Schema, directive_named, type_at}
use gqlparser.Validator.Walk.Event.{
  Event, value_event, nil_read, directive_event, directive_list_event,
}

-- What the walk writes into a value before it walks it: `ExpectedType` and `Definition`
abbrev pub Expectation : Type 0
Expectation = Option TypeRef × Option Definition

abbrev pub nothing_expected : Expectation
nothing_expected = (none, none)

-- The type of an argument or field, and its definition
abbrev pub expected : Schema → Option TypeRef → Expectation
expected s none = nothing_expected
expected s (some t) = (some t, type_at s t)

-- `ExpectedType.Elem`, with the definition of the list
abbrev pub elem_expected : Expectation → Expectation
elem_expected (some (TypeRef.list elem _ _), def) = (some elem, def)
elem_expected _ = nothing_expected

abbrev pub field_expected : Schema → Option Definition → Bytes → Expectation
field_expected s none name = nothing_expected
field_expected s (some d) name = elim (field_for_name name d.fields) [
  | none ↦ nothing_expected
  | some f ↦ expected s (some f.type_ref)
]

-- `CurrentOperation.VariableDefinitions.ForName(value.Raw)`
abbrev pub variable_found :
    Option OperationDefinition → ValueKind → Bytes → Option VariableDefinition
variable_found (some op) variable raw = variable_for_name raw op.variable_definitions
variable_found _ _ _ = none

module _ (s : Schema) (current : Option OperationDefinition) where
  unfoldable mutual
    unfolding variable_for_name field_for_name type_name

    pub walk_value : Expectation → Value → List Event
    walk_value x nil_value = nil_read ∷ []
    walk_value x (value kind raw children pos) =
        walk_children x kind children
        ++ value_event (record {
          node = value kind raw children pos;
          expected_type = x.0;
          definition = x.1;
          variable_definition = variable_found current kind raw;
          current_operation = current;
        })
          ∷ []

    -- The children of an object and of a list; other kinds have none that are walked.
    pub walk_children : Expectation → ValueKind → Children → List Event
    walk_children x kind no_children = []
    walk_children x object_value (child name v pos rest) =
        walk_value (field_expected s x.1 name) v ++ walk_children x object_value rest
    walk_children x list_value (child name v pos rest) =
        walk_value (elem_expected x) v ++ walk_children x list_value rest
    walk_children x kind (child name v pos rest) = []

  abbrev argument_type : Option ArgumentDefinition → Option TypeRef
  argument_type none = none
  argument_type (some d) = some d.type_ref

  -- `walkArgument`, with the definition of the argument
  unfoldable pub walk_argument : Option ArgumentDefinition → Argument → List Event
  unfolding walk_value type_name
  walk_argument def arg = walk_value (expected s (argument_type def)) arg.value

  abbrev argument_in : Option (List ArgumentDefinition) → Bytes → Option ArgumentDefinition
  argument_in none name = none
  argument_in (some defs) name = argument_definition_for_name name defs

  -- The loop over the arguments of a field or a directive; `none` where that is not defined
  unfoldable pub walk_arguments : Option (List ArgumentDefinition) → List Argument → List Event
  unfolding walk_argument argument_definition_for_name
  walk_arguments defs [] = []
  walk_arguments defs (arg ∷ args) =
      walk_argument (argument_in defs arg.name) arg ++ walk_arguments defs args

  abbrev directive_arguments : Option DirectiveDefinition → Option (List ArgumentDefinition)
  directive_arguments none = none
  directive_arguments (some d) = some d.arguments

  unfoldable pub walk_each_directive : Option Definition → Bytes → List Directive → List Event
  unfolding walk_arguments
  walk_each_directive parent location [] = []
  walk_each_directive parent location (dir ∷ dirs) =
      walk_arguments (directive_arguments (directive_named s dir.name)) dir.arguments
      ++ directive_event (record {
        name = dir.name;
        arguments = dir.arguments;
        position = dir.position;
        definition = directive_named s dir.name;
        parent_definition = parent;
        location = location;
      })
        ∷ walk_each_directive parent location dirs

  -- `walkDirectives`
  unfoldable pub walk_directives : Option Definition → List Directive → Bytes → List Event
  unfolding walk_each_directive
  walk_directives parent dirs location =
      walk_each_directive parent location dirs ++ directive_list_event dirs ∷ []
