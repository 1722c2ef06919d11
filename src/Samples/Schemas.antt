-- ===== src/Samples/Schemas.antt =====
-- Runs of the parser of schemas.
use gqlparser.Lexer.Read.{read_token}
use Prim.Native.String.{String}
use gqlparser.Base.{Bytes, codes, List, [], ◌∷◌, ◌++◌, ◌≡◌, refl, map}
use gqlparser.Parser.Schema.Document.{
  SchemaResult, parsed, failed, nil_document, out_of_fuel, parse_schema,
}
use gqlparser.Samples.Lexing.{source_of}

unfoldable pub schema_of : String → SchemaResult
unfolding parse_schema read_token
schema_of text = parse_schema (source_of (codes text))

type_names : SchemaResult → List Bytes
type_names (parsed doc) = map (λ d. d.name) (doc.definitions ++ doc.extensions)
type_names (failed e) = codes "failed" ∷ []
type_names nil_document = codes "nil" ∷ []
type_names out_of_fuel = codes "fuel" ∷ []

reads_types :
    type_names (
      schema_of
        "\"a type\" type A implements & B & C { f(x: Int = 1): [A!]! @d } union U = | A | B extend type A @e directive @d(a: Int) on | FIELD | QUERY schema { query: A }")
    ≡ codes "A" ∷ codes "U" ∷ codes "A" ∷ []
unfolding schema_of type_names
reads_types = refl

refuses_empty_extension : type_names (schema_of "extend type A") ≡ codes "failed" ∷ []
unfolding schema_of type_names
refuses_empty_extension = refl

-- A variable is let into a directive of an extended input type, but of no defined one.
lets_variables_in : type_names (schema_of "extend input A @d(a: $v)") ≡ codes "A" ∷ []
unfolding schema_of type_names
lets_variables_in = refl

keeps_variables_out : type_names (schema_of "input A @d(a: $v)") ≡ codes "failed" ∷ []
unfolding schema_of type_names
keeps_variables_out = refl
