-- ===== src/Samples/Validating.antt =====
-- Runs of the checks on schemas, and the theorems on them at concrete inputs.
use gqlparser.Ast.Named.{FirstNamed, definition_for_name_iff}
use gqlparser.Validator.Schema.Sound.Distinct.{definition_key}
use gqlparser.Validator.Rules.Spread.{
  MayOverlap, Composite, union_composite, object_composite, validate_spread-MayOverlap,
}
use gqlparser.Base.{◌≢◌}
use gqlparser.Validator.Rules.Overlap.{Reports, possible_fragment_spreads-Reports}
use gqlparser.Validator.Rules.Possible.{possible_fragment_spreads, validate_spread}
use gqlparser.Validator.Rules.Rule.{RuleError, add_error, impossible_inline}
use gqlparser.Validator.Schema.State.{type_named}
use gqlparser.Validator.Walk.Event.{Event, inline_fragment_event}
use gqlparser.Validator.Schema.Sound.Covariant.{is_covariant-CovariantTo, CovariantTo}
use gqlparser.Validator.Schema.Sound.Implements.{validate_implements-Implements, Implements}
use gqlparser.Samples.Lexing.{source_of}
use gqlparser.Validator.Schema.Covariant.{is_covariant}
use gqlparser.Validator.Schema.Sound.Ready.{validate_schema_document-IsReady, IsReady}
use gqlparser.Parser.Schema.Types.{new_definition}
use gqlparser.Validator.Schema.Implements.{validate_implements}
use gqlparser.Parser.Schema.Ends.Document.{parse_schema-Answered, Answered}
use gqlparser.Ast.Lookup.{directive_definition_for_name, definition_for_name}
use gqlparser.Validator.Schema.State.{fine, empty_schema_state, Schema}
use gqlparser.Validator.Schema.Build.{bare_field, rejected, built, validate_schema_document, Built}
use Prim.Native.String.{String}
use gqlparser.Validator.Schema.Build.{crashed}
use gqlparser.Ast.Definition.{interface_kind, union_kind, object_kind, Definition, SchemaDocument}
use gqlparser.Ast.TypeRef.{type_name, TypeRef}
use mathlib.Core.List.Permᴰ
use gqlparser.Base.{some, true, ◌↔◌, none, false, Bytes, codes, List, [], ◌∷◌, ◌≡◌, refl, map}
use mathlib.Core.List.{reverse}
use gqlparser.Parser.Schema.Document.{parse_schema, SchemaResult, parsed, empty_schema}
use gqlparser.Samples.Schemas.{schema_of}

document_of : SchemaResult → SchemaDocument
document_of (parsed doc) = doc
document_of _ = empty_schema

abbrev in_order : {A : Type 0} → List A → List A
in_order l = l

validated : (List Definition → List Definition) → String → Built Schema
unfolding validate_schema_document schema_of document_of definition_for_name type_name
    directive_definition_for_name
validated order text = validate_schema_document order in_order (document_of (schema_of text))

outcome : Built Schema → List Bytes
outcome (built s) = map (λ d. d.name) s.types
outcome (rejected p m) = codes "rejected" ∷ []
outcome crashed = codes "crashed" ∷ []

accepts_pets :
    outcome (
      validated in_order
        "scalar String interface Pet { name: String } type Dog implements Pet { name: String! } union Any = Dog type Query { pets: [Any] }")
    ≡ codes "String" ∷ codes "Pet" ∷ codes "Dog" ∷ codes "Any" ∷ codes "Query" ∷ []
unfolding validated outcome
accepts_pets = refl

refuses_a_missing_field :
    outcome (
      validated in_order
        "scalar String interface Pet { name: String } type Dog implements Pet { other: String }")
    ≡ codes "rejected" ∷ []
unfolding validated outcome
refuses_a_missing_field = refl

abbrev dangling : String
dangling = "type A implements I { f: A } interface I { f: U } union U = Missing"

-- With one order of the map the undefined member of the union is reported; with another the nil
-- pointer for it is read first.
reports_a_missing_member : outcome (validated reverse dangling) ≡ codes "rejected" ∷ []
unfolding validated outcome
reports_a_missing_member = refl

reads_a_nil_pointer : outcome (validated in_order dangling) ≡ codes "crashed" ∷ []
unfolding validated outcome
reads_a_nil_pointer = refl

parse_schema-Answered_example : Answered (parse_schema (source_of (codes "extend type A")))
parse_schema-Answered_example = parse_schema-Answered (source_of (codes "extend type A"))

schema_in : Built Schema → Schema
schema_in (built s) = s
schema_in _ = empty_schema_state

cat : Definition
cat = record (new_definition object_kind [] none (codes "Cat") []) {
  fields = bare_field (codes "self") [] (TypeRef.named (codes "Cat") false none) ∷ [];
}

any : Definition
any = record (new_definition union_kind [] none (codes "Any") []) { types = codes "Cat" ∷ [] }

-- type Cat { self: Cat } union Any = Cat
small_document : SchemaDocument
unfolding cat any
small_document = record empty_schema { definitions = cat ∷ any ∷ [] }

small_schema : Schema
unfolding small_document validate_schema_document schema_in definition_for_name type_name
    directive_definition_for_name
small_schema = schema_in (validate_schema_document in_order in_order small_document)

small_accepted : validate_schema_document in_order in_order small_document ≡ built small_schema
unfolding small_schema
small_accepted = refl

validate_schema_document-IsReady_example : IsReady small_schema
validate_schema_document-IsReady_example =
    validate_schema_document-IsReady in_order in_order (λ l. Permᴰ.refl l) small_document
      small_schema small_accepted

dog : Definition
dog = record (new_definition object_kind [] none (codes "Dog") []) {
  fields = bare_field (codes "name") [] (TypeRef.named (codes "String") true none) ∷ [];
}

pet : Definition
pet = record (new_definition interface_kind [] none (codes "Pet") []) {
  fields = bare_field (codes "name") [] (TypeRef.named (codes "String") false none) ∷ [];
}

pet_types : Schema
unfolding dog pet
pet_types = record empty_schema_state { types = dog ∷ pet ∷ [] }

validate_implements-Implements_example :
    (validate_implements pet_types dog (codes "Pet") ≡ fine)
    ↔ Implements pet_types dog (codes "Pet")
validate_implements-Implements_example = validate_implements-Implements pet_types dog (codes "Pet")

is_covariant-CovariantTo_example :
    (is_covariant pet_types
        (TypeRef.named (codes "Pet") false none)
        (TypeRef.named (codes "Dog") true none)
      ≡ some true)
    ↔ CovariantTo pet_types
        (TypeRef.named (codes "Pet") false none)
        (TypeRef.named (codes "Dog") true none)
is_covariant-CovariantTo_example =
    is_covariant-CovariantTo pet_types (TypeRef.named (codes "Pet") false none)
      (TypeRef.named (codes "Dog") true none)

small-IsReady : IsReady small_schema
small-IsReady =
    validate_schema_document-IsReady in_order in_order (λ l. Permᴰ.refl l) small_document
      small_schema small_accepted

-- An inline fragment on Any inside Cat
abbrev any_in_cat : Event
any_in_cat =
    inline_fragment_event
      (record { type_condition = codes "Any"; position = none; object_definition = some cat })

possible_fragment_spreads-Reports_example :
    Reports (possible_fragment_spreads small_schema any_in_cat)
possible_fragment_spreads-Reports_example =
    possible_fragment_spreads-Reports small_schema small-IsReady any_in_cat

any_named : type_named small_schema (codes "Any") ≡ some any
unfolding small_schema any definition_for_name
any_named = refl

abbrev complaint : List RuleError
complaint = add_error (impossible_inline (codes "Cat") (codes "Any")) none

complaint_some : complaint ≢ []
complaint_some h = cc h

any_first : FirstNamed definition_key (codes "Any") small_schema.types any
any_first = (definition_for_name_iff (codes "Any") small_schema.types any).0 any_named

any-Composite : Composite any.kind
unfolding any
any-Composite = union_composite

cat-Composite : Composite cat.kind
unfolding cat
cat-Composite = object_composite

validate_spread-MayOverlap_example :
    (validate_spread small_schema complaint (some cat) (codes "Any") ≡ some [])
    ↔ MayOverlap small_schema cat any
validate_spread-MayOverlap_example =
    validate_spread-MayOverlap small_schema small-IsReady complaint cat any (codes "Any")
      complaint_some cat-Composite any_first any-Composite
