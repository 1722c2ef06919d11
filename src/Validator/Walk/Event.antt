-- ===== src/Validator/Walk/Event.antt =====
-- validator/walk.go: what observers are called with. A node keeps the fields of the source's node
-- that observers read, those that the walk fills in included.
use gqlparser.Ast.Definition.{Definition, DirectiveDefinition, FieldDefinition}
use gqlparser.Ast.Document.{
  Argument, Directive, FragmentDefinition, OperationDefinition, SelectionSet, VariableDefinition,
}
use gqlparser.Ast.Source.{Position}
use gqlparser.Ast.TypeRef.{TypeRef}
use gqlparser.Ast.Value.{Value}
use gqlparser.Base.{Bytes, List, Option}

-- `ast.Field`
pub record FieldNode : Type 0 where
  pub alias : Bytes
  pub name : Bytes
  pub arguments : List Argument
  pub selection_set : SelectionSet
  pub position : Option Position
  pub definition : Option FieldDefinition
  pub object_definition : Option Definition

-- `ast.FragmentSpread`
pub record SpreadNode : Type 0 where
  pub name : Bytes
  pub position : Option Position
  pub definition : Option FragmentDefinition
  pub object_definition : Option Definition

-- `ast.InlineFragment`
pub record InlineNode : Type 0 where
  pub type_condition : Bytes
  pub position : Option Position
  pub object_definition : Option Definition

-- `ast.Directive`
pub record DirectiveNode : Type 0 where
  pub name : Bytes
  pub arguments : List Argument
  pub position : Option Position
  pub definition : Option DirectiveDefinition
  pub parent_definition : Option Definition
  pub location : Bytes

-- `ast.Value` and the walker's `CurrentOperation`. `variable_definition` is that of the current
-- operation: outside of one the source keeps what an earlier operation left there, which no rule
-- reads.
pub record ValueNode : Type 0 where
  pub node : Value
  pub expected_type : Option TypeRef
  pub definition : Option Definition
  pub variable_definition : Option VariableDefinition
  pub current_operation : Option OperationDefinition

-- A call of the observers of `Events`; the fields of `Events` are its constructors. `nil_read` is
-- the panic of `walkValue` on a nil value, which the parser makes only beside an error.
pub data Event : Type 0 where
  operation_event : OperationDefinition → Event
  field_event : FieldNode → Event
  fragment_event : FragmentDefinition → Option Definition → Event
  inline_fragment_event : InlineNode → Event
  fragment_spread_event : SpreadNode → Event
  directive_event : DirectiveNode → Event
  directive_list_event : List Directive → Event
  value_event : ValueNode → Event
  nil_read : Event

-- The walker's `validatedFragmentSpreads`, and the events so far
pub record Trail : Type 0 where
  pub validated_fragment_spreads : List Bytes
  pub events : List Event
