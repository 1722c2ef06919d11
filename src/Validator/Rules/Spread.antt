-- ===== src/Validator/Rules/Spread.antt =====
-- What PossibleFragmentSpreads accepts between two composite types.
use mathlib.Core.List.Memᴰ
use mathlib.Core.List.{Memᴰ}
use mathlib.Core.Path.{subst}
use gqlparser.Ast.Definition.{
  Definition, DefinitionKind, object_kind, interface_kind, union_kind, is_composite_type,
}
use gqlparser.Ast.Named.{FirstNamed, named_first, named_later, definition_for_name_iff}
use gqlparser.Base.{
  true, false, Bool-cases, Bytes, bytes_eq, bytes_eq_iff, List, [], ◌∷◌, Option, some, ◌≡◌, ◌≢◌,
  ◌↔◌, refl, sym, inl, inr,
}
use gqlparser.Validator.Rules.Overlap.{Share, validate_spread-Share}
use gqlparser.Validator.Rules.Possible.{parent_types, validate_spread}
use gqlparser.Validator.Rules.Rule.{RuleError}
use gqlparser.Validator.Schema.Sound.Distinct.{definition_key}
use gqlparser.Validator.Schema.Sound.Ready.{IsReady}
use gqlparser.Validator.Schema.State.{Pointers, Schema, get_possible_types, pointers_of}

-- Objects, interfaces and unions are the composite types.
pub data Composite : DefinitionKind → Type 0 where
  object_composite : Composite object_kind
  interface_composite : Composite interface_kind
  union_composite : Composite union_kind

abbrev pub entry_key : Bytes × List (Option Bytes) → Bytes
entry_key e = e.0

-- The pointer is among those that a Go map holds for the name.
pub data PointsTo (m : Pointers) (name : Bytes) (p : Option Bytes) : Type 0 where
  points_to :
      {e : Bytes × List (Option Bytes)}
      → FirstNamed entry_key name m e
      → Memᴰ p e.1
      → PointsTo m name p

-- The types that an object of the parent type may have: an object type has itself, an interface
-- and a union what PossibleTypes holds for them.
pub data ObjectOf (s : Schema) (d : Definition) : DefinitionKind → Option Bytes → Type 0 where
  itself : ObjectOf s d object_kind (some d.name)
  of_interface :
      {p : Option Bytes} → PointsTo s.possible_types d.name p → ObjectOf s d interface_kind p
  of_union : {p : Option Bytes} → PointsTo s.possible_types d.name p → ObjectOf s d union_kind p

-- Some type is an object of the parent type, and possible for the type of the fragment.
pub data MayOverlap (s : Schema) (parent t : Definition) : Type 0 where
  may_overlap :
      {p : Option Bytes}
      → ObjectOf s parent parent.kind p
      → PointsTo s.possible_types t.name p
      → MayOverlap s parent t

PointsTo-nil : {name : Bytes} {p : Option Bytes} → PointsTo [] name p → ⊥
PointsTo-nil (points_to f h) = elim f [ ]

pointers_of-PointsTo :
    (m : Pointers) (name : Bytes) (p : Option Bytes)
    → Memᴰ p (pointers_of name m) ↔ PointsTo m name p
unfolding pointers_of
pointers_of-PointsTo [] name p = (λ h. elim (Memᴰ.not-nil h) [ ], λ f. elim (PointsTo-nil f) [ ])
pointers_of-PointsTo ((n, l) ∷ m) name p = elim (Bool-cases (bytes_eq n name)) [
  | inl e ↦ (
    λ h. points_to (named_first ((bytes_eq_iff n name).0 e)) (rw e at h),
    λ f. rw e (at_first e f),
  )
  | inr e ↦ (
    λ h. further e ((pointers_of-PointsTo m name p).0 (rw e at h)),
    λ f. rw e ((pointers_of-PointsTo m name p).1 (behind e f)),
  )
]
  where
    at_first : bytes_eq n name ≡ true → PointsTo ((n, l) ∷ m) name p → Memᴰ p l
    at_first e (points_to (named_first same) h) = h
    at_first e (points_to (named_later other f) h) = elim (other ((bytes_eq_iff n name).0 e)) [ ]

    further : bytes_eq n name ≡ false → PointsTo m name p → PointsTo ((n, l) ∷ m) name p
    further e (points_to f h) =
        points_to (named_later (λ same. cc (e, (bytes_eq_iff n name).1 same)) f) h

    behind : bytes_eq n name ≡ false → PointsTo ((n, l) ∷ m) name p → PointsTo m name p
    behind e (points_to (named_first same) h) = cc (e, (bytes_eq_iff n name).1 same)
    behind e (points_to (named_later other f) h) = points_to f h

possible-PointsTo :
    (s : Schema) (d : Definition) (p : Option Bytes)
    → Memᴰ p (get_possible_types s d) ↔ PointsTo s.possible_types d.name p
unfolding get_possible_types
possible-PointsTo s d p = pointers_of-PointsTo s.possible_types d.name p

only_itself :
    {s : Schema} {d : Definition} {p : Option Bytes}
    → ObjectOf s d object_kind p
    → Memᴰ p (some d.name ∷ [])
only_itself itself = Memᴰ.head refl

-- The list that the code goes through holds the objects of the parent type.
parents-ObjectOf :
    (s : Schema) (d : Definition) {kind : DefinitionKind}
    → Composite kind
    → (ps : List (Option Bytes)) × (parent_types s d kind ≡ some ps)
      × ((p : Option Bytes) → Memᴰ p ps ↔ ObjectOf s d kind p)
parents-ObjectOf s d object_composite = (
  some d.name ∷ [],
  refl,
  λ p. (
    λ h. elim (Memᴰ.cases_cons h) [
      | inl e ↦ subst (ObjectOf s d object_kind) (sym e) itself
      | inr none_left ↦ elim (Memᴰ.not-nil none_left) [ ]
    ],
    λ o. only_itself o,
  ),
)
parents-ObjectOf s d interface_composite = (
  get_possible_types s d,
  refl,
  λ p. (
    λ h. of_interface ((possible-PointsTo s d p).0 h),
    λ o. elim o [ of_interface h ↦ (possible-PointsTo s d p).1 h ],
  ),
)
parents-ObjectOf s d union_composite = (
  get_possible_types s d,
  refl,
  λ p. (
    λ h. of_union ((possible-PointsTo s d p).0 h),
    λ o. elim o [ of_union h ↦ (possible-PointsTo s d p).1 h ],
  ),
)

Composite-true : {kind : DefinitionKind} → Composite kind → is_composite_type kind ≡ true
unfolding is_composite_type
Composite-true object_composite = refl
Composite-true interface_composite = refl
Composite-true union_composite = refl

-- On a schema that is ready, as ValidateSchemaDocument returns it, where the parent type is composite
-- and the type of the fragment is a composite type of the schema, a spread is accepted exactly where
-- some type is both an object of the parent type and a possible type of that of the fragment.
pub validate_spread-MayOverlap :
    (s : Schema)
    → IsReady s
    → (errors : List RuleError) (parent t : Definition) (name : Bytes) → errors ≢ []
    → Composite parent.kind
    → FirstNamed definition_key name s.types t
    → Composite t.kind
    → (validate_spread s errors (some parent) name ≡ some []) ↔ MayOverlap s parent t
validate_spread-MayOverlap s ready errors parent t name some_error k found composite =
    let (ps, h, objects) = parents-ObjectOf s parent k in
    let shared =
      validate_spread-Share s ready errors parent t ps name some_error h
        ((definition_for_name_iff name s.types t).1 found) (Composite-true composite) in
    (
      λ e.
          let (p, possible, inside) = shared.0 e in
          may_overlap ((objects p).0 inside) ((possible-PointsTo s t p).0 possible),
      λ o. shared.1 (common (λ p. (objects p).1) o),
    )
  where
    common :
        {ps : List (Option Bytes)}
        → ((p : Option Bytes) → ObjectOf s parent parent.kind p → Memᴰ p ps)
        → MayOverlap s parent t
        → Share (get_possible_types s t) ps
    common inside (may_overlap {p} o possible) =
        (p, (possible-PointsTo s t p).1 possible, inside p o)
