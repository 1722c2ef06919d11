-- ===== src/Parser/Schema/Document.antt =====
-- parser/schema.go: documents, and the entry points.
use gqlparser.Ast.Definition.{Definition, SchemaDocument, merge}
use gqlparser.Ast.Source.{Source}
use gqlparser.Base.{
  ℕ, zero, suc, ◌+◌, ◌*◌, Bool, false, true, ◌||◌, not, Bytes, codes, bytes_eq, List, [], ◌∷◌, ◌++◌,
  map, Option, none, some, length, if◌then◌else◌,
}
use gqlparser.Lexer.State.{new_lexer}
use gqlparser.Lexer.Token.{Kind, eof, kind_eq}
use gqlparser.Parser.Schema.Extensions.{is_empty, parse_type_system_extension}
use gqlparser.Parser.Schema.Fields.{is_text, parse_description}
use gqlparser.Parser.Schema.Types.{
  parse_directive_definition, parse_schema_definition, parse_type_system_definition,
}
use gqlparser.Parser.State.{
  Fault, M, ◌>>=◌, ◌>>◌, return, new_parser, peek, peek_pos, unexpected_error, unexpected_token,
}

-- How a round of the loop leaves: on with the next, `break` or `return nil`.
pub data Round : Type 0 where
  continues : SchemaDocument → Round
  breaks : SchemaDocument → Round
  gives_up : Round

-- A nil definition comes with an error, which drops the document.
abbrev pub add_definition : Option Definition → SchemaDocument → SchemaDocument
add_definition none doc = doc
add_definition (some d) doc = record doc { definitions = doc.definitions ++ d ∷ [] }

-- `if description != "" { p.unexpectedToken(p.prev) }`
unfoldable pub no_description : Bytes → M (Unit {0})
unfolding unexpected_token
no_description description p = elim (is_empty description) [
  | true ↦ some (tt, p)
  | false ↦ unexpected_token p.prev p
]

module _ (f : ℕ) where
  unfoldable pub type_round : Bytes → SchemaDocument → M Round
  type_round description doc = do
    d ← parse_type_system_definition f description
    return (continues (add_definition d doc))

  unfoldable pub schema_round : Bytes → SchemaDocument → M Round
  schema_round description doc = do
    d ← parse_schema_definition f description
    return (continues (record doc { schema = doc.schema ++ d ∷ [] }))

  unfoldable pub directive_round : Bytes → SchemaDocument → M Round
  directive_round description doc = do
    d ← parse_directive_definition f description
    return (continues (record doc { directives = doc.directives ++ d ∷ [] }))

  unfoldable pub extension_round : Bytes → SchemaDocument → M Round
  extension_round description doc = do
    no_description description
    doc' ← parse_type_system_extension f doc
    return (continues doc')

  unfoldable pub unknown_round : M Round
  unknown_round = do unexpected_error; return gives_up

  -- the switch of `parseSchemaDocument` on a name
  unfoldable pub round_cases : Bytes → Bytes → SchemaDocument → M Round
  unfolding bytes_eq type_round schema_round directive_round extension_round unknown_round
  round_cases word description doc =
      if bytes_eq word (codes "scalar")
        || bytes_eq word (codes "type")
        || bytes_eq word (codes "interface")
        || bytes_eq word (codes "union")
        || bytes_eq word (codes "enum")
        || bytes_eq word (codes "input")
      then type_round description doc
      else if bytes_eq word (codes "schema")
      then schema_round description doc
      else if bytes_eq word (codes "directive")
      then directive_round description doc
      else if bytes_eq word (codes "extend")
      then extension_round description doc
      else unknown_round

  -- the body of the loop, where there is no error
  unfoldable pub document_round : SchemaDocument → M Round
  unfolding round_cases
  document_round doc = do
    first ← peek
    description ← if is_text first.kind then parse_description else return []
    tok ← peek
    if not (kind_eq tok.kind Kind.name)
        then (do unexpected_error; return (breaks doc))
        else round_cases tok.value description doc

  -- what follows a round
  unfoldable pub follow :
      (SchemaDocument → M (Option SchemaDocument)) → Round → M (Option SchemaDocument)
  follow again (continues doc) = again doc
  follow again (breaks doc) = return (some doc)
  follow again gives_up = return none

  -- the loop of `parseSchemaDocument`; `none` is the nil document
  unfoldable pub schema_loop : ℕ → SchemaDocument → M (Option SchemaDocument)
  schema_loop zero doc p = none
  schema_loop (suc n) doc p =
      let turn = (document_round doc >>= follow (schema_loop n)) in
      (peek >>= λ tok q. elim (kind_eq tok.kind eof) [
        | true ↦ some (some doc, q)
        | false ↦ elim q.err [ some e ↦ some (none, q) | none ↦ turn q ]
      ])
        p

abbrev pub empty_schema : SchemaDocument
empty_schema = record {
  schema = [];
  schema_extension = [];
  directives = [];
  definitions = [];
  extensions = [];
  position = none;
}

-- `parseSchemaDocument`
unfoldable pub parse_schema_document : ℕ → M (Option SchemaDocument)
unfolding schema_loop document_round follow peek peek_pos kind_eq parse_description unexpected_error
    no_description parse_type_system_definition parse_schema_definition parse_directive_definition
    parse_type_system_extension
parse_schema_document f = do
  pos ← peek_pos
  schema_loop f f (record empty_schema { position = pos })

-- What `ParseSchema` returns. `nil_document` stands for a nil document without an error, which the
-- callers would dereference; `out_of_fuel` is the model's own.
pub data SchemaResult : Type 0 where
  parsed : SchemaDocument → SchemaResult
  failed : Fault → SchemaResult
  nil_document : SchemaResult
  out_of_fuel : SchemaResult

abbrev pub mark_built_in : Bool → Definition → Definition
mark_built_in b d = record d { built_in = b }

abbrev pub schema_result : Bool → Option SchemaDocument → Option Fault → SchemaResult
schema_result b doc (some e) = failed e
schema_result b none none = nil_document
schema_result b (some doc) none = parsed (record doc {
  definitions = map (mark_built_in b) doc.definitions;
  extensions = map (mark_built_in b) doc.extensions;
})

-- `ParseSchema`, on the fuel that `Parser.Schema.Ends` is about
unfoldable pub parse_schema : Source → SchemaResult
unfolding parse_schema_document new_lexer
parse_schema source =
    elim (parse_schema_document (2 * length source.input + 2) (new_parser (new_lexer source))) [
      | none ↦ out_of_fuel
      | some (doc, p) ↦ schema_result source.built_in doc p.err
    ]

abbrev pub merge_next :
    SchemaDocument → SchemaResult → (SchemaDocument → SchemaResult) → SchemaResult
merge_next ast (parsed doc) rest = rest (merge ast doc)
merge_next ast r rest = r

-- The loop of `ParseSchemas`
unfoldable pub parse_schemas_from : SchemaDocument → List Source → SchemaResult
unfolding parse_schema merge
parse_schemas_from ast [] = parsed ast
parse_schemas_from ast (input ∷ inputs) =
    merge_next ast (parse_schema input) (λ ast'. parse_schemas_from ast' inputs)

-- `ParseSchemas`
unfoldable pub parse_schemas : List Source → SchemaResult
unfolding parse_schemas_from
parse_schemas = parse_schemas_from empty_schema
