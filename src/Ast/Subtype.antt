-- ===== src/Ast/Subtype.antt =====
-- What ast/type.go: `IsCompatible` decides: GraphQL's covariance of output types and of variables.
use gqlparser.Ast.Source.{Position}
use gqlparser.Ast.TypeRef.{TypeRef, named, list, is_compatible}
use gqlparser.Base.{
  ◌↔◌, bytes_eq_iff, arith, ℕ, Bytes, bytes_eq, Bool, true, false, ◌≡◌, refl, [], ◌∷◌, Option,
  if◌then◌else◌, ◌&&◌,
}

-- A type that the parser makes: the name at its heart is not empty.
pub data HasName : TypeRef → Type 0 where
  on_named : {c : ℕ} {s : Bytes} {nn : Bool} {p : Option Position} → HasName (named (c ∷ s) nn p)
  on_list : {e : TypeRef} {nn : Bool} {p : Option Position} → HasName e → HasName (list e nn p)

-- `t` may stand where `u` is asked for: the same name or a list of such types, and a non-null type
-- wherever one is asked for.
pub data Fits : TypeRef → TypeRef → Type 0 where
  fits_named :
      {a b : Bytes} {nn other : Bool} {p q : Option Position}
      → a ≡ b
      → (other ≡ true → nn ≡ true)
      → Fits (named a nn p) (named b other q)
  fits_list :
      {t u : TypeRef} {nn other : Bool} {p q : Option Position}
      → Fits t u
      → (other ≡ true → nn ≡ true)
      → Fits (list t nn p) (list u other q)

if-imp : (other nn : Bool) → (if other then nn else true) ≡ true → other ≡ true → nn ≡ true
if-imp other nn h k = ground arith

imp-if : (other nn : Bool) → (other ≡ true → nn ≡ true) → (if other then nn else true) ≡ true
imp-if true nn h = h refl
imp-if false nn h = refl

and-parts : (a b : Bool) → (a && b) ≡ true → (a ≡ true) × (b ≡ true)
and-parts a b h = ground arith

and-true : {a b : Bool} → a ≡ true → b ≡ true → (a && b) ≡ true
and-true h k = cc

compatible-Fits : (t u : TypeRef) → HasName t → is_compatible t u ≡ true → Fits t u
unfolding is_compatible bytes_eq
compatible-Fits (named [] nn p) u h k = elim h [ ]
compatible-Fits (named (c ∷ a) nn p) (named b other q) (on_named) h =
    let (same, null) = and-parts (bytes_eq (c ∷ a) b) _ h in
    fits_named ((bytes_eq_iff (c ∷ a) b).0 same) (if-imp other nn null)
compatible-Fits (named (c ∷ a) nn p) (list u other q) (on_named) h = cc
compatible-Fits (list t nn p) (named b other q) (on_list k) h = cc
compatible-Fits (list t nn p) (list u other q) (on_list k) h =
    let (inner, null) = and-parts (is_compatible t u) _ h in
    fits_list (compatible-Fits t u k inner) (if-imp other nn null)

Fits-compatible : {t u : TypeRef} → Fits t u → is_compatible t u ≡ true
unfolding is_compatible
Fits-compatible (fits_named {a} {b} {nn} {other} same null) =
    and-true ((bytes_eq_iff a b).1 same) (imp-if other nn null)
Fits-compatible (fits_list {t} {u} {nn} {other} k null) =
    and-true (Fits-compatible k) (imp-if other nn null)

-- On a type whose inner name is not empty, `IsCompatible` answers true exactly where the type may
-- stand for the other one: equal names or lists of such types, with a non-null type wherever the
-- other is non-null.
pub is_compatible-Fits : (t u : TypeRef) → HasName t → (is_compatible t u ≡ true) ↔ Fits t u
is_compatible-Fits t u h = (compatible-Fits t u h, Fits-compatible)
