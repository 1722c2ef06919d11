-- ===== src/Validator/Schema/Sound/Distinct.antt =====
-- The maps of the schema that validator/schema.go: `ValidateSchemaDocument` builds.
use mathlib.Core.Path.{subst}
use gqlparser.Ast.Merged.{or_else, first_named-append}
use gqlparser.Ast.Lookup.{directive_definition_for_name, definition_for_name, first_named}
use gqlparser.Validator.Schema.State.{directive_named, type_named, Schema}
use gqlparser.Validator.Schema.Build.{
  kind_is, stub, extended, declare_directive_if, declare_directive, extend_if, extend, declare_if,
  built, declare, update_type,
}
use gqlparser.Ast.Definition.{Definition, DirectiveDefinition}
use gqlparser.Base.{
  not, Bytes, bytes_eq, bytes_eq_iff, Bool-cases, false, ◌≡◌, ◌∙◌, refl, sym, ap, List, [], ◌∷◌,
  ◌++◌, Option, none, some, inl, inr,
}

-- No two items have the same name.
pub data Distinct {A : Type 0} (key : A → Bytes) : List A → Type 0 where
  no_item : Distinct key []
  once :
      {a : A} {l : List A}
      → first_named key (key a) l ≡ none
      → Distinct key l
      → Distinct key (a ∷ l)

pub bytes_eq-false : (a b : Bytes) → bytes_eq a b ≡ false → bytes_eq b a ≡ false
bytes_eq-false a b h = elim (Bool-cases (bytes_eq b a)) [
  | inl e ↦ cc (h, (bytes_eq_iff a b).1 (sym ((bytes_eq_iff b a).0 e)))
  | inr e ↦ e
]

module _ {A : Type 0} (key : A → Bytes) where
  pub absent_nil : (n : Bytes) → first_named key n [] ≡ none
  unfolding first_named
  absent_nil n = refl

  pub absent_parts :
      (n : Bytes) (a : A) (l : List A)
      → first_named key n (a ∷ l) ≡ none
      → (bytes_eq (key a) n ≡ false) × (first_named key n l ≡ none)
  unfolding first_named
  absent_parts n a l h = elim (Bool-cases (bytes_eq (key a) n)) [
    | inl e ↦ cc (rw (e, first_named) at h)
    | inr e ↦ (e, rw (e, first_named) at h)
  ]

  pub absent_cons :
      (n : Bytes) (a : A) (l : List A)
      → bytes_eq (key a) n ≡ false
      → first_named key n l ≡ none
      → first_named key n (a ∷ l) ≡ none
  unfolding first_named
  absent_cons n a l e h = rw e h

  Distinct-snoc :
      (d : A) {l : List A}
      → Distinct key l
      → first_named key (key d) l ≡ none
      → Distinct key (l ++ d ∷ [])
  Distinct-snoc d no_item h = once (absent_nil (key d)) no_item
  Distinct-snoc d (once {a} {l} absent more) h =
      let (other, rest) = absent_parts (key d) a l h in
      let empty : first_named key (key a) [] ≡ none = absent_nil (key a) in
      once
        (first_named-append key (key a) l (d ∷ [])
          ∙ ap (λ o. or_else o (first_named key (key a) (d ∷ []))) absent
          ∙ absent_cons (key a) d [] (bytes_eq-false (key a) (key d) other)
              (unfold first_named in refl))
        (Distinct-snoc d more rest)

abbrev pub definition_key : Definition → Bytes
definition_key d = d.name

abbrev pub directive_key : DirectiveDefinition → Bytes
directive_key d = d.name

module _ (n : Bytes) (f : Definition → Definition)
    (keeps : (d : Definition) → (f d).name ≡ d.name) where
  absent-update :
      (k : Bytes) (l : List Definition)
      → first_named definition_key k l ≡ none
      → first_named definition_key k (update_type n f l) ≡ none
  unfolding update_type
  absent-update k [] h = h
  absent-update k (d ∷ l) h =
      let (other, rest) = absent_parts definition_key k d l h in
      elim (Bool-cases (bytes_eq d.name n)) [
        | inl e ↦
            rw e
              (absent_cons definition_key k (f d) l (ap (λ x. bytes_eq x k) (keeps d) ∙ other) rest)
        | inr e ↦
            rw e (absent_cons definition_key k d (update_type n f l) other (absent-update k l rest))
      ]

  pub Distinct-update :
      {l : List Definition}
      → Distinct definition_key l
      → Distinct definition_key (update_type n f l)
  unfolding update_type
  Distinct-update no_item = no_item
  Distinct-update (once {a} {l} absent more) = elim (Bool-cases (bytes_eq a.name n)) [
    | inl e ↦ rw e (once (ap (λ x. first_named definition_key x l) (keeps a) ∙ absent) more)
    | inr e ↦ rw e (once (absent-update a.name l absent) (Distinct-update more))
  ]

pub Built-eq : {A : Type 0} {a b : A} → built a ≡ built b → a ≡ b
Built-eq h = cc

-- Types and directives go by distinct names.
pub record HasDistinctNames (s : Schema) : Type 0 where
  pub type_names : Distinct definition_key s.types
  pub directive_names : Distinct directive_key s.directives

-- A definition that is not there yet is added behind the others.
module _ (d : Definition) (s s' : Schema) (p : HasDistinctNames s) where
  declare_cases :
      (o : Option Definition)
      → type_named s d.name ≡ o
      → declare_if d s o ≡ built s'
      → HasDistinctNames s'
  unfolding declare_if definition_for_name
  declare_cases none e h = subst HasDistinctNames (Built-eq h) (record {
    type_names = Distinct-snoc definition_key d p.type_names e;
    directive_names = p.directive_names;
  })
  declare_cases (some old) e h = cc

  pub declare-HasDistinctNames : declare d s ≡ built s' → HasDistinctNames s'
  unfolding declare
  declare-HasDistinctNames = declare_cases (type_named s d.name) refl

  extend_cases :
      (o : Option Definition)
      → type_named s d.name ≡ o
      → extend_if d s o ≡ built s'
      → HasDistinctNames s'
  unfolding extend_if definition_for_name
  extend_cases none e h = subst HasDistinctNames (Built-eq h) (record {
    type_names = Distinct-snoc definition_key (extended d (stub d)) p.type_names e;
    directive_names = p.directive_names;
  })
  extend_cases (some old) e h = elim (Bool-cases (not (kind_is old.kind d.kind))) [
    | inl other ↦ cc (rw other at h)
    | inr same ↦ subst HasDistinctNames (Built-eq (rw same at h)) (record {
      type_names = Distinct-update d.name (extended d) (λ x. refl) p.type_names;
      directive_names = p.directive_names;
    })
  ]

  pub extend-HasDistinctNames : extend d s ≡ built s' → HasDistinctNames s'
  unfolding extend
  extend-HasDistinctNames = extend_cases (type_named s d.name) refl

module _ (d : DirectiveDefinition) (s s' : Schema) (p : HasDistinctNames s) where
  directive_cases :
      (o : Option DirectiveDefinition)
      → directive_named s d.name ≡ o
      → declare_directive_if d s o ≡ built s'
      → HasDistinctNames s'
  unfolding declare_directive_if directive_definition_for_name
  directive_cases none e h = subst HasDistinctNames (Built-eq h) (record {
    type_names = p.type_names;
    directive_names = Distinct-snoc directive_key d p.directive_names e;
  })
  directive_cases (some old) e h = cc

  pub declare_directive-HasDistinctNames : declare_directive d s ≡ built s' → HasDistinctNames s'
  unfolding declare_directive
  declare_directive-HasDistinctNames = directive_cases (directive_named s d.name) refl
