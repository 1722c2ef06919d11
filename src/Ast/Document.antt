-- ===== src/Ast/Document.antt =====
-- ast/document.go, operation.go, fragment.go, selection.go and directive.go: the syntax trees of
-- queries. The fields that only validation fills in are left out.
use gqlparser.Ast.Source.{Position}
use gqlparser.Ast.TypeRef.{TypeRef}
use gqlparser.Ast.Value.{Value}
use gqlparser.Base.{Bytes, List, Option}

pub record Argument : Type 0 where
  pub name : Bytes
  pub value : Value
  pub position : Option Position

pub record Directive : Type 0 where
  pub name : Bytes
  pub arguments : List Argument
  pub position : Option Position

mutual
  -- the three implementations of the interface `Selection`
  pub data Selection : Type 0 where
    -- alias, name, arguments, directives, selection set, position
    field :
        Bytes → Bytes → List Argument → List Directive → SelectionSet → Option Position → Selection
    -- name, directives, position
    fragment_spread : Bytes → List Directive → Option Position → Selection
    -- type condition, directives, selection set, position
    inline_fragment : Bytes → List Directive → SelectionSet → Option Position → Selection

  pub data SelectionSet : Type 0 where
    no_selections : SelectionSet
    select : Selection → SelectionSet → SelectionSet

-- `Operation`, a string: `no_operation` is the empty one
pub data Operation : Type 0 where
  query mutation subscription no_operation : Operation

pub record VariableDefinition : Type 0 where
  pub variable : Bytes
  pub type_ref : TypeRef
  pub default_value : Value
  pub directives : List Directive
  pub position : Option Position

pub record OperationDefinition : Type 0 where
  pub operation : Operation
  pub name : Bytes
  pub variable_definitions : List VariableDefinition
  pub directives : List Directive
  pub selection_set : SelectionSet
  pub position : Option Position

pub record FragmentDefinition : Type 0 where
  pub name : Bytes
  pub variable_definition : List VariableDefinition
  pub type_condition : Bytes
  pub directives : List Directive
  pub selection_set : SelectionSet
  pub position : Option Position

pub record QueryDocument : Type 0 where
  pub operations : List OperationDefinition
  pub fragments : List FragmentDefinition
  pub position : Option Position
