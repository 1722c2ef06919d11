-- ===== src/Samples/Witnesses.antt =====
-- The theorems at concrete inputs.
use gqlparser.Parser.Fuel.Weight.{Ends}
use gqlparser.Parser.Fuel.Document.{parse_query_document-Done, Done}
use gqlparser.Parser.State.{new_parser}
use gqlparser.Parser.Query.{parse_query_document}
use mathlib.Core.Bool.{true≢false}
use gqlparser.Lexer.Token.{eof, Kind, kind_eq}
use gqlparser.Ast.Merged.{for_name-merge}
use gqlparser.Ast.Definition.{scalar_kind, merge, Definition, SchemaDocument}
use gqlparser.Ast.Lookup.{directive_definition_for_name, definition_for_name}
use gqlparser.Ast.Source.{Source}
use gqlparser.Ast.Subtype.{HasName, on_named, on_list, Fits, is_compatible-Fits}
use gqlparser.Ast.TypeRef.{TypeRef, named, list, is_compatible}
use gqlparser.Base.{
  length, ◌*◌, ◌+◌, ap, sym, ◌<◌, some, ◌∷◌, [], List, Bytes, Bool, codes, ◌≡◌, refl, true, false,
  none, arith, ◌↔◌,
}
use gqlparser.Lexer.Bounds.Makers.{Valid, Placed}
use gqlparser.Lexer.Bounds.Token.{read_token-Placed}
use gqlparser.Lexer.Progress.{end-read_token}
use gqlparser.Lexer.Read.{read_token}
use gqlparser.Lexer.State.{Lexer, new_lexer}
use gqlparser.Samples.Lexing.{source_of}

is_eof : Kind → Bool
unfolding kind_eq
is_eof k = kind_eq k eof

sample_source : Source
sample_source = source_of (codes "{ a(x: \"b\") } # end")

sample_lexer : Lexer
unfolding sample_source new_lexer
sample_lexer = new_lexer sample_source

sample_lexer-Valid : Valid sample_lexer
unfolding sample_lexer sample_source new_lexer
sample_lexer-Valid = record {
  end_le = omega arith;
  runes_le = omega arith;
  line_start_le = omega arith;
}

read_token-Placed_example : Placed sample_lexer (read_token sample_lexer)
read_token-Placed_example = read_token-Placed sample_lexer sample_lexer-Valid

end-read_token_example : sample_lexer.end < (read_token sample_lexer).lexer.end
unfolding sample_lexer sample_source new_lexer read_token is_eof
end-read_token_example =
    end-read_token sample_lexer sample_lexer-Valid refl
      (λ same. absurd (true≢false (sym (ap is_eof same))))

-- [Int!]!, [Int!] and [Int]
abbrev ints : Bool → Bool → TypeRef
ints inner outer = list (named (codes "Int") inner none) outer none

ints-HasName : (i o : Bool) → HasName (ints i o)
ints-HasName i o = on_list on_named

is_compatible-Fits_example :
    (is_compatible (ints true true) (ints true false) ≡ true)
    ↔ Fits (ints true true) (ints true false)
is_compatible-Fits_example =
    is_compatible-Fits (ints true true) (ints true false) (ints-HasName true true)

abbrev scalar_definition : Bytes → Bytes → Definition
scalar_definition name text = record {
  kind = scalar_kind;
  description = text;
  name = name;
  directives = [];
  interfaces = [];
  fields = [];
  types = [];
  enum_values = [];
  position = none;
  built_in = false;
}

abbrev schema_document : List Definition → SchemaDocument
schema_document ds = record {
  schema = [];
  schema_extension = [];
  directives = [];
  definitions = ds;
  extensions = [];
  position = none;
}

abbrev prelude : SchemaDocument
prelude = schema_document (scalar_definition (codes "Int") [] ∷ [])

abbrev user_schema : SchemaDocument
user_schema =
    schema_document
      (scalar_definition (codes "Int") (codes "mine") ∷ scalar_definition (codes "Date") [] ∷ [])

for_name-merge_example :
    (definition_for_name (codes "Date") (merge prelude user_schema).definitions
      ≡ some (scalar_definition (codes "Date") []))
    × (directive_definition_for_name (codes "Date") (merge prelude user_schema).directives ≡ none)
unfolding definition_for_name directive_definition_for_name
for_name-merge_example = for_name-merge prelude user_schema (codes "Date")

parse_query_document-Done_example :
    Ends
      (λ doc q. Done q)
      (parse_query_document
        (2 * length sample_source.input + 2)
        (new_parser (new_lexer sample_source)))
parse_query_document-Done_example = parse_query_document-Done sample_source
