-- ===== src/Validator/Schema/Sound/Ready.antt =====
-- The schema that validator/schema.go: `ValidateSchemaDocument` returns.
use mathlib.Core.Path.{subst}
use gqlparser.Validator.Schema.Sound.Steps.{Every-perm, checked-built, bind-built}
use gqlparser.Validator.Schema.Sound.Pointers.{
  NoNil, validate_definition-NamesKnown, link-HasNoNil, NamesKnown, HasNoNil,
}
use gqlparser.Validator.Schema.Sound.Logic.{nothing, check_all-fine, Every-map, then-fine, Every}
use gqlparser.Validator.Schema.Sound.Stages.{build-Linked, linked, Linked}
use gqlparser.Validator.Schema.Sound.Distinct.{Built-eq, HasDistinctNames, Distinct-update}
use gqlparser.Validator.Schema.State.{fine, Schema}
use gqlparser.Validator.Schema.Build.{
  checked, build, add_fields, built, introspect, validate_schema_document, default_roots, validate,
}
use gqlparser.Ast.Definition.{Definition, DirectiveDefinition, SchemaDocument}
use gqlparser.Base.{Bytes, ◌≡◌, refl, sym, List, Option, none, some}
use mathlib.Core.List.{Permᴰ}

-- Types and directives have distinct names, and no map holds a nil pointer.
pub record IsReady (s : Schema) : Type 0 where
  pub names : HasDistinctNames s
  pub pointers : HasNoNil s

introspect-IsReady : (root : Option Bytes) (s : Schema) → IsReady s → IsReady (introspect root s)
unfolding introspect
introspect-IsReady none s r = r
introspect-IsReady (some name) s r = record {
  names = record {
    type_names =
        Distinct-update name add_fields (λ d. unfold add_fields in refl) r.names.type_names;
    directive_names = r.names.directive_names;
  };
  pointers = record { possible = r.pointers.possible; implementers = r.pointers.implementers };
}

default_roots-IsReady : (s : Schema) → IsReady s → IsReady (default_roots s)
unfolding default_roots
default_roots-IsReady s r = record {
  names = record { type_names = r.names.type_names; directive_names = r.names.directive_names };
  pointers = record { possible = r.pointers.possible; implementers = r.pointers.implementers };
}

Linked-IsReady : {s : Schema} → Linked s → Every (NamesKnown s.types) s.types → IsReady s
Linked-IsReady {s} (linked t types possible implementers p i names) known = record {
  names = names;
  pointers =
      let n =
        link-HasNoNil t.types t.types t refl (subst (λ x. Every (NamesKnown x) x) types known)
          (record {
            possible = subst NoNil (sym p) nothing;
            implementers = subst NoNil (sym i) nothing;
          }) in
      record {
        possible = subst NoNil (sym possible) n.possible;
        implementers = subst NoNil (sym implementers) n.implementers;
      };
}

module _ (o : List Definition → List Definition)
    (q : List DirectiveDefinition → List DirectiveDefinition)
    (all_types : (l : List Definition) → Permᴰ (o l) l) where
  validate-known : (s : Schema) → validate o q s ≡ fine → Every (NamesKnown s.types) s.types
  unfolding validate
  validate-known s h =
      let (types, directives) = (then-fine _ _).0 h in
      Every-map (λ d. validate_definition-NamesKnown s d)
        (Every-perm (all_types s.types) ((check_all-fine _ (o s.types)).0 types))

  -- A schema that ValidateSchemaDocument returns, in whatever order Go ranges over the map of types,
  -- has types of distinct names and directives of distinct names, and neither PossibleTypes nor
  -- Implements holds a nil pointer, which the rules of the validator would read.
  pub validate_schema_document-IsReady :
      (ast : SchemaDocument) (s : Schema) → validate_schema_document o q ast ≡ built s → IsReady s
  unfolding validate_schema_document
  validate_schema_document-IsReady ast s h =
      let (t, e, rest) = bind-built (build ast) _ h in
      let (t', e', done) = bind-built (checked (validate o q t) t) _ rest in
      let (passed, same) = checked-built (validate o q t) t t' e' in
      let ready = Linked-IsReady (build-Linked ast t e) (validate-known t passed) in
      subst IsReady (Built-eq done)
        (introspect-IsReady _ _ (default_roots-IsReady t' (subst IsReady same ready)))
