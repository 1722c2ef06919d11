-- ===== src/Validator/Schema/Sound/Stages.antt =====
-- The stages of validator/schema.go: `ValidateSchemaDocument`.
use gqlparser.Validator.Schema.Sound.Frame.{
  SameMaps-refl, entry_points-SameMaps, SameMaps, schema_entry-SameMaps, SameMaps-trans, link-types,
}
use mathlib.Core.Path.{subst}
use gqlparser.Validator.Schema.Sound.Steps.{bind-built, each_keeps}
use gqlparser.Validator.Schema.Sound.Distinct.{
  directive_key, declare_directive-HasDistinctNames, definition_key, Built-eq,
  extend-HasDistinctNames, Distinct, declare-HasDistinctNames, HasDistinctNames, no_item,
}
use gqlparser.Validator.Schema.State.{type_named, directive_named, empty_schema_state, Schema}
use gqlparser.Validator.Schema.Build.{
  entry_points, kind_is, schema_entry, link, each, built, declare, declare_directive_if,
  declare_directive, declare_if, build, extend, extend_if,
}
use gqlparser.Ast.Definition.{Definition, DirectiveDefinition, SchemaDocument}
use gqlparser.Base.{
  inr, inl, not, Bool-cases, ap, ◌≡◌, ◌∙◌, refl, sym, List, [], Option, none, some,
}

-- Directives are declared without a change to the types and to the pointers between them.
record SameTypes (s t : Schema) : Type 0 where
  types_eq : t.types ≡ s.types
  possible_eq : t.possible_types ≡ s.possible_types
  implements_eq : t.implements ≡ s.implements

declare_directive_if-SameTypes :
    (d : DirectiveDefinition) (s s' : Schema) (o : Option DirectiveDefinition)
    → declare_directive_if d s o ≡ built s'
    → SameTypes s s'
unfolding declare_directive_if
declare_directive_if-SameTypes d s s' none h =
    subst (SameTypes s) (Built-eq h)
      (record { types_eq = refl; possible_eq = refl; implements_eq = refl })
declare_directive_if-SameTypes d s s' (some old) h = cc

declare_directive-SameTypes :
    (d : DirectiveDefinition) (s s' : Schema) → declare_directive d s ≡ built s' → SameTypes s s'
unfolding declare_directive
declare_directive-SameTypes d s s' =
    declare_directive_if-SameTypes d s s' (directive_named s d.name)

directives-SameTypes :
    (l : List DirectiveDefinition) (s s' : Schema)
    → each declare_directive l s ≡ built s'
    → SameTypes s s'
directives-SameTypes l s s' h =
    each_keeps (SameTypes s) declare_directive
      (λ d t t' p k.
        let q = declare_directive-SameTypes d t t' k in
        record {
          types_eq = q.types_eq ∙ p.types_eq;
          possible_eq = q.possible_eq ∙ p.possible_eq;
          implements_eq = q.implements_eq ∙ p.implements_eq;
        })
      l s s' (record { types_eq = refl; possible_eq = refl; implements_eq = refl }) h

-- A schema that is built: its types are those of a schema before the pointers are set, and its
-- pointers those that `link` sets there.
pub data Linked (s : Schema) : Type 0 where
  linked :
      (t : Schema)
      → s.types ≡ t.types
      → s.possible_types ≡ (link t.types t).possible_types
      → s.implements ≡ (link t.types t).implements
      → t.possible_types ≡ []
      → t.implements ≡ []
      → HasDistinctNames s
      → Linked s

HasDistinctNames-same :
    {s t : Schema}
    → t.types ≡ s.types
    → t.directives ≡ s.directives
    → HasDistinctNames s
    → HasDistinctNames t
HasDistinctNames-same e e' p = record {
  type_names = subst (Distinct definition_key) (sym e) p.type_names;
  directive_names = subst (Distinct directive_key) (sym e') p.directive_names;
}

-- No pointers yet
record Unlinked (s : Schema) : Type 0 where
  no_possible : s.possible_types ≡ []
  no_implements : s.implements ≡ []
  names : HasDistinctNames s

declare_if-Unlinked :
    (d : Definition) (s s' : Schema) (o : Option Definition)
    → Unlinked s
    → HasDistinctNames s'
    → declare_if d s o ≡ built s'
    → Unlinked s'
unfolding declare_if
declare_if-Unlinked d s s' none u n h = record {
  no_possible = sym (ap (λ x. x.possible_types) (Built-eq h)) ∙ u.no_possible;
  no_implements = sym (ap (λ x. x.implements) (Built-eq h)) ∙ u.no_implements;
  names = n;
}
declare_if-Unlinked d s s' (some old) u n h = cc

extend_if-Unlinked :
    (d : Definition) (s s' : Schema) (o : Option Definition)
    → Unlinked s
    → HasDistinctNames s'
    → extend_if d s o ≡ built s'
    → Unlinked s'
unfolding extend_if
extend_if-Unlinked d s s' none u n h = record {
  no_possible = sym (ap (λ x. x.possible_types) (Built-eq h)) ∙ u.no_possible;
  no_implements = sym (ap (λ x. x.implements) (Built-eq h)) ∙ u.no_implements;
  names = n;
}
extend_if-Unlinked d s s' (some old) u n h = elim (Bool-cases (not (kind_is old.kind d.kind))) [
  | inl other ↦ cc (rw other at h)
  | inr same ↦
      let k = Built-eq (rw same at h) in
      record {
        no_possible = sym (ap (λ x. x.possible_types) k) ∙ u.no_possible;
        no_implements = sym (ap (λ x. x.implements) k) ∙ u.no_implements;
        names = n;
      }
]

declare-Unlinked :
    (d : Definition) (s s' : Schema) → Unlinked s → declare d s ≡ built s' → Unlinked s'
unfolding declare
declare-Unlinked d s s' u h =
    declare_if-Unlinked d s s' (type_named s d.name) u (declare-HasDistinctNames d s s' u.names h) h

extend-Unlinked :
    (d : Definition) (s s' : Schema) → Unlinked s → extend d s ≡ built s' → Unlinked s'
unfolding extend
extend-Unlinked d s s' u h =
    extend_if-Unlinked d s s' (type_named s d.name) u (extend-HasDistinctNames d s s' u.names h) h

empty-Unlinked : Unlinked empty_schema_state
empty-Unlinked = record {
  no_possible = refl;
  no_implements = refl;
  names = record { type_names = no_item; directive_names = no_item };
}

pub build-Linked : (ast : SchemaDocument) (s : Schema) → build ast ≡ built s → Linked s
unfolding build
build-Linked ast s h =
    let (s1, e1, h1) = bind-built (each declare ast.definitions empty_schema_state) _ h in
    let (s2, e2, h2) = bind-built (each extend ast.extensions s1) _ h1 in
    let (s3, e3, h3) = bind-built (each declare_directive ast.directives (link s2.types s2)) _ h2 in
    let (s4, e4, e5) = bind-built (schema_entry ast.schema s3) _ h3 in
    let u1 =
      each_keeps Unlinked declare declare-Unlinked ast.definitions empty_schema_state s1
        empty-Unlinked e1 in
    let u2 = each_keeps Unlinked extend extend-Unlinked ast.extensions s1 s2 u1 e2 in
    let (lt, ld) = link-types s2.types s2 in
    let n3 =
      each_keeps HasDistinctNames declare_directive
        (λ d t t' p k. declare_directive-HasDistinctNames d t t' p k) ast.directives
        (link s2.types s2) s3 (HasDistinctNames-same lt ld u2.names) e3 in
    let same = directives-SameTypes ast.directives (link s2.types s2) s3 e3 in
    let m = SameMaps-trans (schema_entry-SameMaps ast.schema s3 s4 e4) (
      each_keeps (SameMaps s4) entry_points
        (λ d t t' p k. SameMaps-trans p (entry_points-SameMaps d t t' k)) ast.schema_extension s4 s
        (SameMaps-refl s4) e5) in
    linked s2 (m.same_types ∙ same.types_eq ∙ lt) (m.same_possible ∙ same.possible_eq)
      (m.same_implements ∙ same.implements_eq) u2.no_possible u2.no_implements
      (HasDistinctNames-same m.same_types m.same_directives n3)
