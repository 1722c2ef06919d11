-- ===== src/Samples/Parsing.antt =====
-- Runs of the parser.
use gqlparser.Samples.Lexing.{source_of}
use gqlparser.Parser.State.{Fault}
use Prim.Native.String.{String}
use gqlparser.Lexer.Read.{read_token}
use gqlparser.Ast.Document.{FragmentDefinition, OperationDefinition, QueryDocument}
use gqlparser.Parser.Query.{parse_query}
use gqlparser.Base.{none, some, Option, ◌++◌, refl, ◌≡◌, map, Bytes, List, ◌∷◌, [], codes}

parsed : String → Option (QueryDocument × Option Fault)
unfolding parse_query read_token
parsed text = parse_query (source_of (codes text))

variable_query : Option (QueryDocument × Option Fault)
unfolding parsed
variable_query =
    parsed
      "query Q($a: [Int!]! = [1, 2]) { a: b(x: $a) @d { ...F ... on T { c } } } fragment F on T { d }"

names : Option (QueryDocument × Option Fault) → List Bytes
names none = []
names (some (doc, some e)) = codes "error" ∷ []
names (some (doc, none)) =
    map (λ (o : OperationDefinition). o.name) doc.operations
    ++ map (λ (o : FragmentDefinition). o.name) doc.fragments

variable_query-names : names variable_query ≡ codes "Q" ∷ codes "F" ∷ []
unfolding variable_query names
variable_query-names = refl

quoted_on : names (parsed "{ ... \"on\" T { c } }") ≡ [] ∷ []
unfolding parsed names
quoted_on = refl
