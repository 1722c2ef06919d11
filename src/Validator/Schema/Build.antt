-- ===== src/Validator/Schema/Build.antt =====
-- validator/schema.go: `ValidateSchemaDocument`, step by step.
use gqlparser.Ast.Definition.{
  ArgumentDefinition, Definition, DefinitionKind, DirectiveDefinition, FieldDefinition,
  OperationTypeDefinition, SchemaDefinition, SchemaDocument, scalar_kind, object_kind,
  interface_kind, union_kind, enum_kind, input_object_kind,
}
use gqlparser.Ast.Document.{Operation, query, mutation, subscription, no_operation}
use gqlparser.Ast.Source.{Position}
use gqlparser.Ast.TypeRef.{TypeRef, named}
use gqlparser.Ast.Value.{nil_value}
use gqlparser.Base.{
  Bool, true, false, not, Bytes, codes, bytes_eq, List, [], ◌∷◌, ◌++◌, Option, none, some,
  if◌then◌else◌,
}
use gqlparser.Validator.Schema.Check.{validate_directive}
use gqlparser.Validator.Schema.Implements.{validate_definition}
use gqlparser.Validator.Schema.State.{
  Schema, Check, SchemaMessage, fine, problem, crash, ◌then_check◌, check_all, type_named,
  directive_named, empty_schema_state, add_possible_type, add_implements, redeclared_type,
  wrong_extension, redeclared_directive, many_entry_points, unknown_root,
}

-- What a step returns: a value, an error, or a nil pointer that is read.
pub data Built (A : Type 0) : Type 0 where
  built : A → Built A
  rejected : Option Position → SchemaMessage → Built A
  crashed : Built A

infixl 5 ◌>>=◌
abbrev pub ◌>>=◌ : {A B : Type 0} → Built A → (A → Built B) → Built B
built a >>= k = k a
rejected p m >>= k = rejected p m
crashed >>= k = crashed

-- A loop over a list, with the schema passed on.
unfoldable pub each : {A S : Type 0} → (A → S → Built S) → List A → S → Built S
each f [] s = built s
each f (a ∷ l) s = f a s >>= each f l

unfoldable pub declare_if : Definition → Schema → Option Definition → Built Schema
declare_if d s none = built (record s { types = s.types ++ d ∷ [] })
declare_if d s (some old) = rejected d.position (redeclared_type d.name)

-- The first loop: a type is declared once.
unfoldable pub declare : Definition → Schema → Built Schema
unfolding declare_if
declare d s = declare_if d s (type_named s d.name)

unfoldable pub kind_is : DefinitionKind → DefinitionKind → Bool
kind_is scalar_kind scalar_kind = true
kind_is object_kind object_kind = true
kind_is interface_kind interface_kind = true
kind_is union_kind union_kind = true
kind_is enum_kind enum_kind = true
kind_is input_object_kind input_object_kind = true
kind_is _ _ = false

-- The definition with an extension's parts behind its own.
abbrev pub extended : Definition → Definition → Definition
extended ext d = record d {
  directives = d.directives ++ ext.directives;
  interfaces = d.interfaces ++ ext.interfaces;
  fields = d.fields ++ ext.fields;
  types = d.types ++ ext.types;
  enum_values = d.enum_values ++ ext.enum_values;
}

-- A write through the pointer `schema.Types[name]`.
unfoldable pub update_type : Bytes → (Definition → Definition) → List Definition → List Definition
unfolding bytes_eq
update_type name f [] = []
update_type name f (d ∷ ds) = if bytes_eq d.name name then f d ∷ ds else d ∷ update_type name f ds

-- A definition for an extension of a type that is not declared.
abbrev pub stub : Definition → Definition
stub ext = record {
  kind = ext.kind;
  description = [];
  name = ext.name;
  directives = [];
  interfaces = [];
  fields = [];
  types = [];
  enum_values = [];
  position = ext.position;
  built_in = false;
}

unfoldable pub extend_if : Definition → Schema → Option Definition → Built Schema
unfolding update_type kind_is
extend_if ext s none = built (record s { types = s.types ++ extended ext (stub ext) ∷ [] })
extend_if ext s (some d) =
    if not (kind_is d.kind ext.kind)
    then rejected ext.position (wrong_extension ext.name d.kind ext.kind)
    else built (record s { types = update_type ext.name (extended ext) s.types })

-- The second loop: extensions.
unfoldable pub extend : Definition → Schema → Built Schema
unfolding extend_if
extend ext s = extend_if ext s (type_named s ext.name)

-- A pointer to a type that may not be there.
abbrev pub pointer_to : Schema → Bytes → Option Bytes
pointer_to s name = elim (type_named s name) [ none ↦ none | some d ↦ some d.name ]

unfoldable pub union_members : Definition → List Bytes → Schema → Schema
unfolding add_possible_type add_implements
union_members d [] s = s
union_members d (t ∷ types) s =
    union_members d types
      (add_implements t (some d.name) (add_possible_type d.name (pointer_to s t) s))

unfoldable pub interfaces_of : Definition → List Bytes → Schema → Schema
unfolding add_possible_type add_implements
interfaces_of d [] s = s
interfaces_of d (i ∷ interfaces) s =
    interfaces_of d interfaces
      (add_implements d.name (pointer_to s i) (add_possible_type i (some d.name) s))

unfoldable pub link_kind : Definition → DefinitionKind → Schema → Schema
unfolding union_members interfaces_of add_possible_type
link_kind d union_kind s = union_members d d.types s
link_kind d input_object_kind s =
    add_possible_type d.name (some d.name) (interfaces_of d d.interfaces s)
link_kind d object_kind s = add_possible_type d.name (some d.name) (interfaces_of d d.interfaces s)
link_kind d _ s = s

-- The third loop: possible types and what implements them.
unfoldable pub link : List Definition → Schema → Schema
unfolding link_kind
link [] s = s
link (d ∷ defs) s = link defs (link_kind d d.kind s)

unfoldable pub declare_directive_if :
    DirectiveDefinition → Schema → Option DirectiveDefinition → Built Schema
declare_directive_if d s none = built (record s { directives = s.directives ++ d ∷ [] })
declare_directive_if d s (some old) = rejected d.position (redeclared_directive d.name)

unfoldable pub declare_directive : DirectiveDefinition → Schema → Built Schema
unfolding declare_directive_if
declare_directive d s = declare_directive_if d s (directive_named s d.name)

abbrev pub set_root : Operation → Bytes → Schema → Schema
set_root query name s = record s { query = some name }
set_root mutation name s = record s { mutation = some name }
set_root subscription name s = record s { subscription = some name }
set_root no_operation name s = s

unfoldable pub root_if : OperationTypeDefinition → Schema → Option Definition → Built Schema
root_if e s none = rejected e.position (unknown_root e.operation e.type_name)
root_if e s (some d) = built (set_root e.operation d.name s)

-- An entry point of the schema or of an extension of it.
unfoldable pub entry_point : OperationTypeDefinition → Schema → Built Schema
unfolding root_if
entry_point e s = root_if e s (type_named s e.type_name)

unfoldable pub entry_points : SchemaDefinition → Schema → Built Schema
unfolding each entry_point
entry_points d = each entry_point d.operation_types

-- The schema's own entry points; there may be one schema definition.
unfoldable pub schema_entry : List SchemaDefinition → Schema → Built Schema
unfolding entry_points
schema_entry [] s = built s
schema_entry (d ∷ []) s = entry_points d s
schema_entry (d ∷ second ∷ more) s = rejected second.position many_entry_points

abbrev pub checked : {A : Type 0} → Check → A → Built A
checked fine a = built a
checked (problem p m) a = rejected p m
checked crash a = crashed

abbrev default_root : Option Bytes → Option Definition → Option Bytes
default_root (some r) d = some r
default_root none none = none
default_root none (some d) = some d.name

-- The roots that go by their names.
unfoldable pub default_roots : Schema → Schema
default_roots s = record s {
  query = default_root s.query (type_named s (codes "Query"));
  mutation = default_root s.mutation (type_named s (codes "Mutation"));
  subscription = default_root s.subscription (type_named s (codes "Subscription"));
}

abbrev pub bare_field : Bytes → List ArgumentDefinition → TypeRef → FieldDefinition
bare_field name arguments t = record {
  description = [];
  name = name;
  arguments = arguments;
  default_value = nil_value;
  type_ref = t;
  directives = [];
  position = none;
}

abbrev pub introspection_fields : List FieldDefinition
introspection_fields =
    bare_field (codes "__schema") [] (named (codes "__Schema") true none)
    ∷ bare_field (codes "__type")
        (record {
          description = [];
          name = codes "name";
          default_value = nil_value;
          type_ref = named (codes "String") true none;
          directives = [];
          position = none;
        }
          ∷ [])
        (named (codes "__Type") false none)
    ∷ []

unfoldable pub add_fields : Definition → Definition
add_fields d = record d { fields = d.fields ++ introspection_fields }

unfoldable pub introspect : Option Bytes → Schema → Schema
unfolding update_type add_fields
introspect none s = s
introspect (some name) s = record s { types = update_type name add_fields s.types }

-- What `ValidateSchemaDocument` builds before it validates.
unfoldable pub build : SchemaDocument → Built Schema
unfolding each declare extend link declare_directive schema_entry entry_points
build ast = each declare ast.definitions empty_schema_state >>= λ s.
    each extend ast.extensions s >>= λ s.
    each declare_directive ast.directives (link s.types s) >>= λ s.
    schema_entry ast.schema s >>= λ s. each entry_points ast.schema_extension s

module _ (type_order : List Definition → List Definition)
    (directive_order : List DirectiveDefinition → List DirectiveDefinition) where
  -- The loops over `schema.Types` and `schema.Directives`, in the orders in which Go ranges over the
  -- two maps.
  unfoldable pub validate : Schema → Check
  unfolding check_all validate_definition validate_directive
  validate s =
      check_all (validate_definition s) (type_order s.types)
      then_check check_all (validate_directive s) (directive_order s.directives)

  -- `ValidateSchemaDocument`
  unfoldable pub validate_schema_document : SchemaDocument → Built Schema
  unfolding build validate default_roots introspect
  validate_schema_document ast = build ast >>= λ s.
      checked (validate s) s >>= λ s. built (introspect (default_roots s).query (default_roots s))
