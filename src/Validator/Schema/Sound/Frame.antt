-- ===== src/Validator/Schema/Sound/Frame.antt =====
-- What the later steps of validator/schema.go: `ValidateSchemaDocument` leave alone.
use gqlparser.Validator.Schema.Sound.Distinct.{Built-eq}
use mathlib.Core.Path.{subst}
use gqlparser.Validator.Schema.Sound.Steps.{each_keeps}
use gqlparser.Validator.Schema.State.{type_named, add_possible_type, add_implements, Schema}
use gqlparser.Validator.Schema.Build.{
  built, set_root, link, schema_entry, entry_point, union_members, link_kind, root_if,
  interfaces_of, entry_points,
}
use gqlparser.Ast.Definition.{
  union_kind, object_kind, input_object_kind, DefinitionKind, Definition, OperationTypeDefinition,
  SchemaDefinition,
}
use gqlparser.Ast.Document.{Operation, query, mutation, subscription, no_operation}
use gqlparser.Base.{Bytes, ◌≡◌, ◌∙◌, refl, List, [], ◌∷◌, Option, none, some}

-- The maps of types and of directives, and the pointers between types, are the same.
pub record SameMaps (s t : Schema) : Type 0 where
  pub same_types : t.types ≡ s.types
  pub same_directives : t.directives ≡ s.directives
  pub same_possible : t.possible_types ≡ s.possible_types
  pub same_implements : t.implements ≡ s.implements

pub SameMaps-refl : (s : Schema) → SameMaps s s
SameMaps-refl s = record {
  same_types = refl;
  same_directives = refl;
  same_possible = refl;
  same_implements = refl;
}

pub SameMaps-trans : {s t u : Schema} → SameMaps s t → SameMaps t u → SameMaps s u
SameMaps-trans p q = record {
  same_types = q.same_types ∙ p.same_types;
  same_directives = q.same_directives ∙ p.same_directives;
  same_possible = q.same_possible ∙ p.same_possible;
  same_implements = q.same_implements ∙ p.same_implements;
}

set_root-SameMaps : (op : Operation) (name : Bytes) (s : Schema) → SameMaps s (set_root op name s)
set_root-SameMaps query name s = record {
  same_types = refl;
  same_directives = refl;
  same_possible = refl;
  same_implements = refl;
}
set_root-SameMaps mutation name s = record {
  same_types = refl;
  same_directives = refl;
  same_possible = refl;
  same_implements = refl;
}
set_root-SameMaps subscription name s = record {
  same_types = refl;
  same_directives = refl;
  same_possible = refl;
  same_implements = refl;
}
set_root-SameMaps no_operation name s = SameMaps-refl s

root_if-SameMaps :
    (e : OperationTypeDefinition) (s s' : Schema) (o : Option Definition)
    → root_if e s o ≡ built s'
    → SameMaps s s'
unfolding root_if
root_if-SameMaps e s s' none h = cc
root_if-SameMaps e s s' (some d) h =
    subst (SameMaps s) (Built-eq h) (set_root-SameMaps e.operation d.name s)

entry_point-SameMaps :
    (e : OperationTypeDefinition) (s s' : Schema) → entry_point e s ≡ built s' → SameMaps s s'
unfolding entry_point
entry_point-SameMaps e s s' = root_if-SameMaps e s s' (type_named s e.type_name)

pub entry_points-SameMaps :
    (d : SchemaDefinition) (s s' : Schema) → entry_points d s ≡ built s' → SameMaps s s'
unfolding entry_points
entry_points-SameMaps d s s' h =
    each_keeps (SameMaps s) entry_point
      (λ e t t' p k. SameMaps-trans p (entry_point-SameMaps e t t' k)) d.operation_types s s'
      (SameMaps-refl s) h

pub schema_entry-SameMaps :
    (ds : List SchemaDefinition) (s s' : Schema) → schema_entry ds s ≡ built s' → SameMaps s s'
unfolding schema_entry
schema_entry-SameMaps [] s s' h = subst (SameMaps s) (Built-eq h) (SameMaps-refl s)
schema_entry-SameMaps (d ∷ []) s s' h = entry_points-SameMaps d s s' h
schema_entry-SameMaps (d ∷ second ∷ more) s s' h = cc

union_members-types :
    (d : Definition) (l : List Bytes) (s : Schema)
    → ((union_members d l s).types ≡ s.types) × ((union_members d l s).directives ≡ s.directives)
unfolding union_members add_implements add_possible_type
union_members-types d [] s = (refl, refl)
union_members-types d (t ∷ l) s = union_members-types d l _

interfaces_of-types :
    (d : Definition) (l : List Bytes) (s : Schema)
    → ((interfaces_of d l s).types ≡ s.types) × ((interfaces_of d l s).directives ≡ s.directives)
unfolding interfaces_of add_implements add_possible_type
interfaces_of-types d [] s = (refl, refl)
interfaces_of-types d (t ∷ l) s = interfaces_of-types d l _

pub link_kind-types :
    (d : Definition) (k : DefinitionKind) (s : Schema)
    → ((link_kind d k s).types ≡ s.types) × ((link_kind d k s).directives ≡ s.directives)
unfolding link_kind add_possible_type
link_kind-types d union_kind s = union_members-types d d.types s
link_kind-types d input_object_kind s = interfaces_of-types d d.interfaces s
link_kind-types d object_kind s = interfaces_of-types d d.interfaces s
link_kind-types d _ s = (refl, refl)

pub link-types :
    (defs : List Definition) (s : Schema)
    → ((link defs s).types ≡ s.types) × ((link defs s).directives ≡ s.directives)
unfolding link
link-types [] s = (refl, refl)
link-types (d ∷ defs) s =
    let (t, q) = link-types defs (link_kind d d.kind s) in
    let (t', q') = link_kind-types d d.kind s in (t ∙ t', q ∙ q')
