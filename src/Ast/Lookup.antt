-- ===== src/Ast/Lookup.antt =====
-- ast/collections.go: looking things up by name. A result that is nil in Go is `none`.
use gqlparser.Ast.Definition.{
  Definition, FieldDefinition, EnumValueDefinition, ArgumentDefinition, DirectiveDefinition,
  OperationTypeDefinition,
}
use gqlparser.Ast.Document.{
  Argument, Directive, FragmentDefinition, OperationDefinition, VariableDefinition,
}
use gqlparser.Base.{Bytes, bytes_eq, List, [], ◌∷◌, Option, none, some, if◌then◌else◌}

module _ {A : Type 0} (key : A → Bytes) where
  -- the loop of each `ForName`: the first item whose key is the name
  unfoldable pub first_named : Bytes → List A → Option A
  unfolding bytes_eq
  first_named name [] = none
  first_named name (it ∷ l) = if bytes_eq (key it) name then some it else first_named name l

  -- the loop of `ForNames`: all of them
  unfoldable pub all_named : Bytes → List A → List A
  unfolding bytes_eq
  all_named name [] = []
  all_named name (it ∷ l) =
      if bytes_eq (key it) name then it ∷ all_named name l else all_named name l

unfoldable pub field_for_name : Bytes → List FieldDefinition → Option FieldDefinition
unfolding first_named
field_for_name = first_named (λ d. d.name)

unfoldable pub enum_value_for_name : Bytes → List EnumValueDefinition → Option EnumValueDefinition
unfolding first_named
enum_value_for_name = first_named (λ d. d.name)

unfoldable pub directive_for_name : Bytes → List Directive → Option Directive
unfolding first_named
directive_for_name = first_named (λ d. d.name)

unfoldable pub directives_for_names : Bytes → List Directive → List Directive
unfolding all_named
directives_for_names = all_named (λ d. d.name)

-- `OperationList.ForName`: a lone operation answers to the empty name.
unfoldable pub operation_for_name : Bytes → List OperationDefinition → Option OperationDefinition
unfolding first_named
operation_for_name [] (op ∷ []) = some op
operation_for_name name ops = first_named (λ d. d.name) name ops

unfoldable pub fragment_for_name : Bytes → List FragmentDefinition → Option FragmentDefinition
unfolding first_named
fragment_for_name = first_named (λ d. d.name)

unfoldable pub variable_for_name : Bytes → List VariableDefinition → Option VariableDefinition
unfolding first_named
variable_for_name = first_named (λ d. d.variable)

unfoldable pub argument_for_name : Bytes → List Argument → Option Argument
unfolding first_named
argument_for_name = first_named (λ d. d.name)

unfoldable pub argument_definition_for_name :
    Bytes → List ArgumentDefinition → Option ArgumentDefinition
unfolding first_named
argument_definition_for_name = first_named (λ d. d.name)

unfoldable pub directive_definition_for_name :
    Bytes → List DirectiveDefinition → Option DirectiveDefinition
unfolding first_named
directive_definition_for_name = first_named (λ d. d.name)

unfoldable pub definition_for_name : Bytes → List Definition → Option Definition
unfolding first_named
definition_for_name = first_named (λ d. d.name)

-- `OperationTypeDefinitionList.ForType`
unfoldable pub operation_type_for_type :
    Bytes → List OperationTypeDefinition → Option OperationTypeDefinition
unfolding first_named
operation_type_for_type = first_named (λ d. d.type_name)
