-- ===== src/Validator/Schema/Load.antt =====
-- validator/schema.go: `LoadSchema`.
use gqlparser.Ast.Definition.{Definition, DirectiveDefinition}
use gqlparser.Ast.Source.{Position, Source}
use gqlparser.Base.{List, Option}
use gqlparser.Parser.Schema.Document.{
  SchemaResult, parsed, failed, nil_document, out_of_fuel, parse_schemas,
}
use gqlparser.Parser.State.{Fault}
use gqlparser.Validator.Schema.Build.{Built, built, rejected, crashed, validate_schema_document}
use gqlparser.Validator.Schema.State.{Schema, SchemaMessage}

-- A nil document and lack of fuel are told apart from a crash of the checks.
pub data Loaded : Type 0 where
  loaded : Schema → Loaded
  not_parsed : Fault → Loaded
  not_valid : Option Position → SchemaMessage → Loaded
  check_crashed : Loaded
  no_document : Loaded
  no_fuel : Loaded

abbrev pub load_result : Built Schema → Loaded
load_result (built s) = loaded s
load_result (rejected p m) = not_valid p m
load_result crashed = check_crashed

module _ (o : List Definition → List Definition)
    (q : List DirectiveDefinition → List DirectiveDefinition) where
  unfoldable pub load_document : SchemaResult → Loaded
  unfolding validate_schema_document
  load_document (parsed ast) = load_result (validate_schema_document o q ast)
  load_document (failed e) = not_parsed e
  load_document nil_document = no_document
  load_document out_of_fuel = no_fuel

  -- `LoadSchema`
  unfoldable pub load_schema : List Source → Loaded
  unfolding parse_schemas load_document
  load_schema inputs = load_document (parse_schemas inputs)
