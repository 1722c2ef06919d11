-- ===== src/Validator/Schema/Check.antt =====
-- validator/schema.go: the checks of definitions and directives.
use gqlparser.Ast.Definition.{ArgumentDefinition, Definition, DirectiveDefinition, is_input_type}
use gqlparser.Ast.Document.{Argument, Directive}
use gqlparser.Ast.Lookup.{argument_definition_for_name}
use gqlparser.Ast.Source.{Position}
use gqlparser.Ast.TypeRef.{TypeRef}
use gqlparser.Base.{
  Bool, true, false, not, ◌||◌, Bytes, codes, bytes_eq, starts_with, List, [], ◌∷◌, Option, none,
  some, if◌then◌else◌,
}
use gqlparser.Validator.Schema.State.{
  Schema, Check, SchemaMessage, fine, problem, crash, ◌then_check◌, check_all, type_at,
  directive_named, undefined_type, reserved_name, not_input_type, unsupported_argument,
  self_reference, undefined_directive, wrong_location,
}

-- `if test { return err }`
abbrev pub refuse_if : Bool → Option Position → SchemaMessage → Check
refuse_if test p m = if test then problem p m else fine

-- `validateName`
unfoldable pub validate_name : Option Position → Bytes → Check
unfolding starts_with
validate_name p name = refuse_if (starts_with (codes "__") name) p (reserved_name name)

abbrev pub position_of : TypeRef → Option Position
position_of (TypeRef.named a nn p) = p
position_of (TypeRef.list t nn p) = p

-- `validateTypeRef`
unfoldable pub validate_type_ref : Schema → TypeRef → Check
validate_type_ref s t = elim (type_at s t) [
  | none ↦ problem (position_of t) (undefined_type t)
  | some d ↦ fine
]

-- Whether a directive's definition has an argument of that name.
abbrev pub allows : DirectiveDefinition → Bytes → Bool
allows d name = elim (argument_definition_for_name name d.arguments) [
  | none ↦ false
  | some a ↦ true
]

-- `validateDirectiveArgs`, where the directive is defined
unfoldable pub validate_directive_args : Directive → DirectiveDefinition → Check
unfolding argument_definition_for_name check_all
validate_directive_args dir d =
    check_all
      (λ (arg : Argument).
        refuse_if (not (allows d arg.name)) dir.position (unsupported_argument arg.name dir.name))
      dir.arguments

-- `dirLocation == location` for one of them
unfoldable pub has_location : Bytes → List Bytes → Bool
unfolding bytes_eq
has_location location [] = false
has_location location (l ∷ ls) = bytes_eq l location || has_location location ls

-- `currentDirective != nil && dir.Name == currentDirective.Name`
abbrev pub is_current : Option Bytes → Bytes → Bool
is_current none name = false
is_current (some current) name = bytes_eq name current

unfoldable pub validate_known : Directive → Bytes → Option DirectiveDefinition → Check
unfolding validate_directive_args has_location
validate_known dir location none = problem dir.position (undefined_directive dir.name)
validate_known dir location (some d) =
    validate_directive_args dir d
    then_check refuse_if (not (has_location location d.locations)) dir.position
        (wrong_location dir.name location)

-- The body of the loop of `validateDirectives`; `current` is the name of the directive whose
-- arguments are checked. It also sets the field `Definition` of the directive, which no check of
-- schema.go reads; the directives of a schema are modelled without that field.
unfoldable pub validate_one_directive : Schema → Bytes → Option Bytes → Directive → Check
unfolding validate_name validate_known bytes_eq
validate_one_directive s location current dir =
    validate_name dir.position dir.name
    then_check refuse_if (is_current current dir.name) dir.position (self_reference dir.name)
    then_check validate_known dir location (directive_named s dir.name)

-- `validateDirectives`
unfoldable pub validate_directives : Schema → List Directive → Bytes → Option Bytes → Check
unfolding check_all validate_one_directive
validate_directives s dirs location current =
    check_all (validate_one_directive s location current) dirs

unfoldable pub validate_input : Schema → ArgumentDefinition → Option Definition → Check
unfolding is_input_type
validate_input s arg none = crash
validate_input s arg (some d) =
    refuse_if (not (is_input_type d.kind)) arg.position
      (not_input_type arg.type_ref arg.name d.kind)

-- The body of the loop of `validateArgs`
unfoldable pub validate_arg : Schema → Option Bytes → ArgumentDefinition → Check
unfolding validate_name validate_type_ref validate_input validate_directives
validate_arg s current arg =
    validate_name arg.position arg.name
    then_check validate_type_ref s arg.type_ref
    then_check validate_input s arg (type_at s arg.type_ref)
    then_check validate_directives s arg.directives (codes "ARGUMENT_DEFINITION") current

-- `validateArgs`
unfoldable pub validate_args : Schema → List ArgumentDefinition → Option Bytes → Check
unfolding check_all validate_arg
validate_args s args current = check_all (validate_arg s current) args

-- `validateDirective`
unfoldable pub validate_directive : Schema → DirectiveDefinition → Check
unfolding validate_name validate_args
validate_directive s d =
    validate_name d.position d.name then_check validate_args s d.arguments (some d.name)
