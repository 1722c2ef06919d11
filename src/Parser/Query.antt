-- ===== src/Parser/Query.antt =====
-- parser/query.go: variable definitions, operations, fragment definitions and the document.
use gqlparser.Ast.Document.{
  Operation, VariableDefinition, OperationDefinition, FragmentDefinition, QueryDocument, query,
  mutation, subscription, no_operation,
}
use gqlparser.Ast.Source.{Source}
use gqlparser.Ast.Value.{nil_value}
use gqlparser.Base.{
  ◌&&◌, ℕ, zero, suc, ◌+◌, ◌*◌, true, false, not, ◌||◌, Bytes, codes, bytes_eq, List, [], ◌∷◌, ◌++◌,
  Option, none, some, if◌then◌else◌, length,
}
use gqlparser.Lexer.State.{new_lexer}
use gqlparser.Lexer.Token.{Kind, Token, eof, paren_l, paren_r, colon, equals, brace_l, kind_eq}
use gqlparser.Parser.Many.{no_error, many}
use gqlparser.Parser.Selection.{
  parse_selection, parse_fragment_name, parse_required_selection_set, on,
}
use gqlparser.Parser.State.{
  Fault, M, ◌>>=◌, ◌>>◌, return, new_parser, peek, peek_pos, next, skip, expect, expect_keyword,
  unexpected_token, unexpected_error,
}
use gqlparser.Parser.Value.{
  parse_name, parse_variable, parse_value_literal, parse_directives, parse_type_reference,
}

-- the switch of `parseOperationType`
unfoldable pub operation_type : Token → M Operation
unfolding bytes_eq unexpected_token
operation_type tok =
    if bytes_eq tok.value (codes "query")
    then return query
    else if bytes_eq tok.value (codes "mutation")
    then return mutation
    else if bytes_eq tok.value (codes "subscription")
    then return subscription
    else (do unexpected_token tok; return no_operation)

-- `parseOperationType`
unfoldable pub parse_operation_type : M Operation
unfolding next operation_type
parse_operation_type = next >>= operation_type

module _ (f : ℕ) where
  -- `parseVariableDefinition`
  unfoldable pub parse_variable_definition : M VariableDefinition
  unfolding peek_pos parse_variable expect parse_type_reference skip parse_value_literal
      parse_directives
  parse_variable_definition = do
    pos ← peek_pos
    variable ← parse_variable
    expect colon
    type_ref ← parse_type_reference f
    has_default ← skip equals
    default ← if has_default then parse_value_literal true f else return nil_value
    directives ← parse_directives f false
    return (record {
      variable = variable;
      type_ref = type_ref;
      default_value = default;
      directives = directives;
      position = pos;
    })

  -- `parseVariableDefinitions`
  unfoldable pub parse_variable_definitions : M (List VariableDefinition)
  unfolding many parse_variable_definition
  parse_variable_definitions = many f paren_l paren_r parse_variable_definition

  -- the shorthand of `parseOperationDefinition`: a selection set alone
  unfoldable pub parse_shorthand : M OperationDefinition
  unfolding peek_pos parse_required_selection_set parse_selection
  parse_shorthand = do
    pos ← peek_pos
    selections ← parse_required_selection_set f (parse_selection f)
    return (record {
      operation = query;
      name = [];
      variable_definitions = [];
      directives = [];
      selection_set = selections;
      position = pos;
    })

  unfoldable pub parse_full_operation : M OperationDefinition
  unfolding peek_pos parse_operation_type peek kind_eq next parse_variable_definitions
      parse_directives parse_required_selection_set parse_selection
  parse_full_operation = do
    pos ← peek_pos
    operation ← parse_operation_type
    tok ← peek
    n ← if kind_eq tok.kind Kind.name then (do t ← next; return t.value) else return []
    variables ← parse_variable_definitions
    directives ← parse_directives f false
    selections ← parse_required_selection_set f (parse_selection f)
    return (record {
      operation = operation;
      name = n;
      variable_definitions = variables;
      directives = directives;
      selection_set = selections;
      position = pos;
    })

  -- `parseOperationDefinition`
  unfoldable pub parse_operation_definition : M OperationDefinition
  unfolding peek kind_eq parse_shorthand parse_full_operation
  parse_operation_definition = do
    tok ← peek
    if kind_eq tok.kind brace_l then parse_shorthand else parse_full_operation

  -- `parseFragmentDefinition`
  unfoldable pub parse_fragment_definition : M FragmentDefinition
  unfolding peek_pos expect_keyword parse_fragment_name parse_variable_definitions parse_name
      parse_directives parse_required_selection_set parse_selection
  parse_fragment_definition = do
    pos ← peek_pos
    expect_keyword (codes "fragment")
    n ← parse_fragment_name
    variables ← parse_variable_definitions
    expect_keyword on
    condition ← parse_name
    directives ← parse_directives f false
    selections ← parse_required_selection_set f (parse_selection f)
    return (record {
      name = n;
      variable_definition = variables;
      type_condition = condition;
      directives = directives;
      selection_set = selections;
      position = pos;
    })

  unfoldable pub add_operation : QueryDocument → M QueryDocument
  unfolding parse_operation_definition
  add_operation doc = do
    op ← parse_operation_definition
    return (record doc { operations = doc.operations ++ op ∷ [] })

  unfoldable pub add_fragment : QueryDocument → M QueryDocument
  unfolding parse_fragment_definition
  add_fragment doc = do
    fragment ← parse_fragment_definition
    return (record doc { fragments = doc.fragments ++ fragment ∷ [] })

  unfoldable pub refuse : QueryDocument → M QueryDocument
  unfolding unexpected_error
  refuse doc = do unexpected_error; return doc

  -- the switch on the value of a name
  unfoldable pub name_definition : QueryDocument → Bytes → M QueryDocument
  unfolding bytes_eq add_operation add_fragment refuse parse_operation_definition
      parse_fragment_definition unexpected_error
  name_definition doc word =
      if bytes_eq word (codes "query")
        || bytes_eq word (codes "mutation")
        || bytes_eq word (codes "subscription")
      then add_operation doc
      else if bytes_eq word (codes "fragment")
      then add_fragment doc
      else refuse doc

  -- the switch of `parseQueryDocument` on the next token
  unfoldable pub definition : QueryDocument → Token → M QueryDocument
  unfolding name_definition kind_eq
  definition doc tok =
      if kind_eq tok.kind Kind.name
      then name_definition doc tok.value
      else if kind_eq tok.kind brace_l
      then add_operation doc
      else refuse doc

  -- the body of the loop, where there is no error: the position is set and a definition read
  unfoldable pub document_turn : QueryDocument → M QueryDocument
  unfolding peek_pos peek definition
  document_turn doc = do pos ← peek_pos; tok ← peek; definition (record doc { position = pos }) tok

  -- the loop of `parseQueryDocument`
  unfoldable pub document_loop : ℕ → QueryDocument → M QueryDocument
  document_loop zero doc p = none
  document_loop (suc n) doc p =
      let turn = (document_turn doc >>= document_loop n) in
      (peek >>= λ tok q. elim (not (kind_eq tok.kind eof) && no_error q.err) [
        | true ↦ turn q
        | false ↦ some (doc, q)
      ])
        p

abbrev pub empty_document : QueryDocument
empty_document = record { operations = []; fragments = []; position = none }

-- `parseQueryDocument`
unfoldable pub parse_query_document : ℕ → M QueryDocument
unfolding document_loop peek kind_eq document_turn
parse_query_document f = document_loop f f empty_document

-- `ParseQuery`, on the fuel that `Parser.Fuel` is about. The error is rendered by
-- `fault_error`.
unfoldable pub parse_query : Source → Option (QueryDocument × Option Fault)
unfolding parse_query_document new_lexer
parse_query source =
    elim (parse_query_document (2 * length source.input + 2) (new_parser (new_lexer source))) [
      | none ↦ none
      | some (doc, p) ↦ some (doc, p.err)
    ]
