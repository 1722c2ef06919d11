-- ===== src/Validator/Schema/Sound/Pointers.antt =====
-- The schema that validator/schema.go: `ValidateSchemaDocument` returns.
use gqlparser.Ast.Named.{definition_for_name_iff}
use mathlib.Core.Path.{subst}
use gqlparser.Validator.Schema.Sound.Frame.{link_kind-types}
use gqlparser.Ast.Lookup.{definition_for_name}
use gqlparser.Validator.Schema.Sound.Implements.{
  validate_implements-Implements, implements, Implements,
}
use gqlparser.Validator.Schema.Sound.Logic.{
  check_all-fine, Every-map, then-fine, nothing, each_one, Every,
}
use gqlparser.Validator.Schema.Build.{pointer_to, interfaces_of, link, union_members, link_kind}
use gqlparser.Validator.Schema.State.{
  fine, add_implements, type_named, add_possible_type, add_pointer, Pointers, Schema,
}
use gqlparser.Validator.Schema.Implements.{member_found, validate_definition}
use gqlparser.Ast.Definition.{
  Definition, DefinitionKind, union_kind, object_kind, input_object_kind,
}
use gqlparser.Base.{
  Bytes, ◌≡◌, ◌∙◌, refl, sym, List, [], ◌∷◌, ◌++◌, Option, none, some, Bool-cases, inl, inr,
  bytes_eq,
}

-- A pointer that is not nil.
pub data Present : Option Bytes → Type 0 where
  present : (name : Bytes) → Present (some name)

abbrev pub NoNil : Pointers → Type 0
NoNil m = Every (λ (entry : Bytes × List (Option Bytes)). Every Present entry.1) m

Every-snoc :
    {A : Type 0} {P : A → Type 0} {l : List A} {a : A} → Every P l → P a → Every P (l ++ a ∷ [])
Every-snoc nothing p = each_one p nothing
Every-snoc (each_one q e) p = each_one q (Every-snoc e p)

NoNil-add :
    (name : Bytes) (p : Option Bytes) (m : Pointers)
    → Present p
    → NoNil m
    → NoNil (add_pointer name p m)
unfolding add_pointer
NoNil-add name p [] here n = each_one (each_one here nothing) nothing
NoNil-add name p ((k, l) ∷ m) here (each_one e n) = elim (Bool-cases (bytes_eq k name)) [
  | inl same ↦ rw same (each_one (Every-snoc e here) n)
  | inr other ↦ rw other (each_one e (NoNil-add name p m here n))
]

-- Neither map holds a nil pointer.
pub record HasNoNil (s : Schema) : Type 0 where
  pub possible : NoNil s.possible_types
  pub implementers : NoNil s.implements

-- The names stand for types of the list.
abbrev pub Known : List Definition → List Bytes → Type 0
Known types names = Every (λ name. (d : Definition) × definition_for_name name types ≡ some d) names

pointer-Present :
    (s : Schema) (name : Bytes) (d : Definition)
    → type_named s name ≡ some d
    → Present (pointer_to s name)
pointer-Present s name d e = rw (e, pointer_to) (present d.name)

union_members-HasNoNil :
    (d : Definition) (names : List Bytes) (s : Schema)
    → Known s.types names
    → HasNoNil s
    → HasNoNil (union_members d names s)
unfolding union_members add_implements add_possible_type
union_members-HasNoNil d [] s k n = n
union_members-HasNoNil d (t ∷ names) s (each_one (x, e) k) n =
    union_members-HasNoNil d names _ k (record {
      possible =
          NoNil-add d.name (pointer_to s t) s.possible_types (pointer-Present s t x e) n.possible;
      implementers = NoNil-add t (some d.name) s.implements (present d.name) n.implementers;
    })

interfaces_of-HasNoNil :
    (d : Definition) (names : List Bytes) (s : Schema)
    → Known s.types names
    → HasNoNil s
    → HasNoNil (interfaces_of d names s)
unfolding interfaces_of add_implements add_possible_type
interfaces_of-HasNoNil d [] s k n = n
interfaces_of-HasNoNil d (t ∷ names) s (each_one (x, e) k) n =
    interfaces_of-HasNoNil d names _ k (record {
      possible = NoNil-add t (some d.name) s.possible_types (present d.name) n.possible;
      implementers =
          NoNil-add d.name (pointer_to s t) s.implements (pointer-Present s t x e) n.implementers;
    })

own-HasNoNil :
    (d : Definition) (s : Schema) → HasNoNil s → HasNoNil (add_possible_type d.name (some d.name) s)
unfolding add_possible_type
own-HasNoNil d s n = record {
  possible = NoNil-add d.name (some d.name) s.possible_types (present d.name) n.possible;
  implementers = n.implementers;
}

link_kind-HasNoNil :
    (d : Definition) (k : DefinitionKind) (s : Schema)
    → Known s.types d.types
    → Known s.types d.interfaces
    → HasNoNil s
    → HasNoNil (link_kind d k s)
unfolding link_kind
link_kind-HasNoNil d union_kind s k k' n = union_members-HasNoNil d d.types s k n
link_kind-HasNoNil d input_object_kind s k k' n =
    own-HasNoNil d _ (interfaces_of-HasNoNil d d.interfaces s k' n)
link_kind-HasNoNil d object_kind s k k' n =
    own-HasNoNil d _ (interfaces_of-HasNoNil d d.interfaces s k' n)
link_kind-HasNoNil d _ s k k' n = n

-- What the definition names is in the list.
pub data NamesKnown (types : List Definition) (d : Definition) : Type 0 where
  names_known : Known types d.types → Known types d.interfaces → NamesKnown types d

pub link-HasNoNil :
    (types : List Definition) (defs : List Definition) (s : Schema)
    → s.types ≡ types
    → Every (NamesKnown types) defs
    → HasNoNil s
    → HasNoNil (link defs s)
unfolding link
link-HasNoNil types [] s e k n = n
link-HasNoNil types (d ∷ defs) s e (each_one (names_known members interfaces) k) n =
    link-HasNoNil types defs (link_kind d d.kind s) ((link_kind-types d d.kind s).0 ∙ e) k (
      link_kind-HasNoNil d d.kind s (subst (λ x. Known x d.types) (sym e) members)
        (subst (λ x. Known x d.interfaces) (sym e) interfaces) n)

member_found-known :
    (d : Definition) (name : Bytes) (o : Option Definition)
    → member_found d name o ≡ fine
    → (x : Definition) × o ≡ some x
unfolding member_found
member_found-known d name none h = cc
member_found-known d name (some x) h = (x, refl)

Implements-known :
    {s : Schema} {d : Definition} {name : Bytes}
    → Implements s d name
    → (x : Definition) × type_named s name ≡ some x
Implements-known (implements {i} n k fields) = (i, (definition_for_name_iff _ _ i).1 n)

-- A definition that is accepted names types of the schema.
pub validate_definition-NamesKnown :
    (s : Schema) (d : Definition) → validate_definition s d ≡ fine → NamesKnown s.types d
unfolding validate_definition
validate_definition-NamesKnown s d h =
    let (fields, h1) = (then-fine _ _).0 h in
    let (members, h2) = (then-fine _ _).0 h1 in
    let (interfaces, h3) = (then-fine _ _).0 h2 in
    names_known
      (Every-map (λ name. member_found-known d name (type_named s name))
        ((check_all-fine _ d.types).0 members))
      (Every-map (λ name k. Implements-known ((validate_implements-Implements s d name).0 k))
        ((check_all-fine _ d.interfaces).0 interfaces))
