-- ===== src/Validator/Schema/Sound/Covariant.antt =====
-- What validator/schema.go: `isCovariant` decides.
use gqlparser.Ast.Source.{Position}
use gqlparser.Ast.TypeRef.{TypeRef, named, list, is_non_null}
use gqlparser.Base.{
  ◌↔◌, arith, ℕ, Bool, true, false, not, ◌&&◌, Bytes, bytes_eq, bytes_eq_iff, List, [], ◌∷◌, ◌≡◌,
  refl, Option, none, some, ◌⊎◌, inl, inr, Bool-cases,
}
use gqlparser.Validator.Schema.Covariant.{named_type, some_named, is_covariant}
use gqlparser.Validator.Schema.State.{Schema, pointers_of}

-- The name stands in the list, with no nil pointer in front of it.
pub data Among (name : Bytes) : List (Option Bytes) → Type 0 where
  first : {n : Bytes} {l : List (Option Bytes)} → n ≡ name → Among name (some n ∷ l)
  later : {n : Bytes} {l : List (Option Bytes)} → Among name l → Among name (some n ∷ l)

-- A field of type `actual` may stand for one of type `required`: the same named type or one of its
-- possible types, or a list of such, and not null wherever that is asked for.
pub data CovariantTo (s : Schema) : TypeRef → TypeRef → Type 0 where
  covariant_named :
      {c : ℕ} {a : Bytes} {nn : Bool} {p : Option Position} {actual : TypeRef}
      → (nn ≡ true → is_non_null actual ≡ true)
      → (c ∷ a ≡ named_type actual)
        ⊎ Among (named_type actual) (pointers_of (c ∷ a) s.possible_types)
      → CovariantTo s (named (c ∷ a) nn p) actual
  covariant_list :
      {t u : TypeRef} {nn other : Bool} {p q : Option Position}
      → (nn ≡ true → other ≡ true)
      → CovariantTo s t u
      → CovariantTo s (list t nn p) (list u other q)

some_named-Among :
    (name : Bytes) (l : List (Option Bytes)) → some_named name l ≡ some true → Among name l
unfolding some_named
some_named-Among name [] h = cc
some_named-Among name (none ∷ l) h = cc
some_named-Among name (some n ∷ l) h = elim (Bool-cases (bytes_eq n name)) [
  | inl e ↦ first ((bytes_eq_iff n name).0 e)
  | inr e ↦ later (some_named-Among name l (rw (e, some_named) at h))
]

Among-some_named :
    {name : Bytes} {l : List (Option Bytes)} → Among name l → some_named name l ≡ some true
unfolding some_named
Among-some_named {name} (first {n} e) = rw ((bytes_eq_iff n name).1 e) refl
Among-some_named {name} (later {n} a) = elim (Bool-cases (bytes_eq n name)) [
  | inl e ↦ rw e refl
  | inr e ↦ rw e (Among-some_named a)
]

demands : (nn other : Bool) → (nn && not other) ≡ false → nn ≡ true → other ≡ true
demands nn other h k = ground arith

demand-if : (nn other : Bool) → (nn ≡ true → other ≡ true) → (nn && not other) ≡ false
demand-if true other h = rw (h refl) refl
demand-if false other h = refl

pub covariant_sound :
    (s : Schema) (t u : TypeRef) → is_covariant s t u ≡ some true → CovariantTo s t u
unfolding is_covariant
covariant_sound s (named [] nn p) u h = elim (Bool-cases (nn && not (is_non_null u))) [
  | inl e ↦ cc (rw (e, is_covariant) at h)
  | inr e ↦ cc (rw (e, is_covariant) at h)
]
covariant_sound s (named (c ∷ a) nn p) u h = elim (Bool-cases (nn && not (is_non_null u))) [
  | inl e ↦ cc (rw (e, is_covariant) at h)
  | inr e ↦ elim (Bool-cases (bytes_eq (c ∷ a) (named_type u))) [
    | inl same ↦
        covariant_named (demands nn (is_non_null u) e)
          (inl ((bytes_eq_iff (c ∷ a) (named_type u)).0 same))
    | inr other ↦
        covariant_named (demands nn (is_non_null u) e)
          (inr (some_named-Among (named_type u) _ (rw (e, other, is_covariant) at h)))
  ]
]
covariant_sound s (list t nn p) (named b other q) h = cc
covariant_sound s (list t nn p) (list u other q) h = elim (Bool-cases (nn && not other)) [
  | inl e ↦ cc (rw (e, is_covariant) at h)
  | inr e ↦ covariant_list (demands nn other e) (covariant_sound s t u (rw (e, is_covariant) at h))
]

pub covariant_complete :
    (s : Schema) {t u : TypeRef} → CovariantTo s t u → is_covariant s t u ≡ some true
unfolding is_covariant
covariant_complete s (covariant_named {c} {a} {nn} {p} {actual} null (inl same)) =
    rw (demand-if nn (is_non_null actual) null, (bytes_eq_iff (c ∷ a) (named_type actual)).1 same)
      refl
covariant_complete s (covariant_named {c} {a} {nn} {p} {actual} null (inr among)) =
    elim (Bool-cases (bytes_eq (c ∷ a) (named_type actual))) [
      | inl same ↦ rw (demand-if nn (is_non_null actual) null, same) refl
      | inr other ↦ rw (demand-if nn (is_non_null actual) null, other) (Among-some_named among)
    ]
covariant_complete s (covariant_list {nn = nn} {other = other} null k) =
    rw (demand-if nn other null) (covariant_complete s k)

-- On every schema and every two types isCovariant answers true exactly where the second may stand
-- for the first: the same named type, or one of the possible types in front of any nil pointer, or
-- lists of such, and not null wherever that is asked for.
pub is_covariant-CovariantTo :
    (s : Schema) (t u : TypeRef) → (is_covariant s t u ≡ some true) ↔ CovariantTo s t u
is_covariant-CovariantTo s t u = (covariant_sound s t u, covariant_complete s)
