-- ===== src/Validator/Walk/Ends.antt =====
-- The walk ends: a fragment is entered only where its name is not among the visited ones.
use gqlparser.Ast.Document.{
  FragmentDefinition, OperationDefinition, QueryDocument, Selection, SelectionSet, field,
  fragment_spread, inline_fragment, no_selections, select,
}
use gqlparser.Ast.Definition.{Definition}
use gqlparser.Ast.Lookup.{first_named, fragment_for_name}
use gqlparser.Base.{
  ℕ, zero, suc, ◌-◌, Bool, true, false, Bool-cases, bytes_eq, bytes_eq_refl, List, [], ◌∷◌, length,
  Bytes, ◌≤◌, ◌<◌, ◌≡◌, refl, Option, none, some, inl, inr, arith, if◌then◌else◌,
}
use gqlparser.Validator.Schema.State.{Schema, type_named}
use gqlparser.Validator.Walk.Document.{walk, walk_each, walk_fragment, walk_operation}
use gqlparser.Validator.Walk.Event.{Event, Trail}
use gqlparser.Validator.Walk.Selection.{
  enter_fragment, enter_spread, is_member, then_emit, walk_selection, walk_selection_set,
}

-- The fragments that were not visited yet
left : List FragmentDefinition → List Bytes → ℕ
left [] names = 0
left (f ∷ fs) names = if is_member f.name names then left fs names else suc (left fs names)

left_nil : (fs : List FragmentDefinition) → left fs [] ≡ length fs
unfolding left is_member
left_nil [] = refl
left_nil (f ∷ fs) = omega (arith, left_nil fs)

is_member-cons :
    (a b : Bytes) (names : List Bytes) → is_member a names ≡ true → is_member a (b ∷ names) ≡ true
unfolding is_member
is_member-cons a b names h = ground (arith, h)

left-cons :
    (fs : List FragmentDefinition) (n : Bytes) (names : List Bytes)
    → left fs (n ∷ names) ≤ left fs names
unfolding left
left-cons [] n names = omega arith
left-cons (f ∷ fs) n names =
    let ih = left-cons fs n names in
    elim (Bool-cases (is_member f.name names)) [
      | inl e ↦ rw (e, is_member-cons f.name n names e) ih
      | inr e ↦ elim (Bool-cases (is_member f.name (n ∷ names))) [
        | inl e' ↦ rw (e, e') (omega (arith, ih))
        | inr e' ↦ rw (e, e') (omega (arith, ih))
      ]
    ]

is_member_head : (a : Bytes) (names : List Bytes) → is_member a (a ∷ names) ≡ true
unfolding is_member
is_member_head a names = rw (bytes_eq_refl a) refl

left-visit :
    (fs : List FragmentDefinition) (name : Bytes) (f : FragmentDefinition) (names : List Bytes)
    → fragment_for_name name fs ≡ some f
    → is_member f.name names ≡ false
    → left fs (f.name ∷ names) < left fs names
unfolding left fragment_for_name first_named
left-visit [] name f names h new = cc
left-visit (g ∷ fs) name f names h new = elim (Bool-cases (bytes_eq g.name name)) [
  | inl e ↦
      let same : g ≡ f = cc (rw e at h) in
      rw (same, new, is_member_head f.name names) (omega (arith, left-cons fs f.name names))
  | inr e ↦
      let ih = left-visit fs name f names (rw e at h) new in
      elim (Bool-cases (is_member g.name names)) [
        | inl e ↦ rw (e, is_member-cons g.name f.name names e) ih
        | inr e ↦ elim (Bool-cases (is_member g.name (f.name ∷ names))) [
          | inl e' ↦ rw (e, e') (omega (arith, ih))
          | inr e' ↦ rw (e, e') (omega (arith, ih))
        ]
      ]
]

-- The walk comes to its end, with no more than so many fragments left.
data Arrives (fs : List FragmentDefinition) (n : ℕ) : Option Trail → Type 0 where
  arrives : {t : Trail} → left fs t.validated_fragment_spreads ≤ n → Arrives fs n (some t)

Arrives-weaken :
    {fs : List FragmentDefinition} {n m : ℕ} {o : Option Trail}
    → n ≤ m
    → Arrives fs n o
    → Arrives fs m o
Arrives-weaken h (arrives k) = arrives (omega (arith, h, k))

then_emit-Arrives :
    {fs : List FragmentDefinition} {n : ℕ} {o : Option Trail} (events : List Event)
    → Arrives fs n o
    → Arrives fs n (then_emit events o)
then_emit-Arrives events (arrives k) = arrives k

Arrives-then :
    {fs : List FragmentDefinition} {n : ℕ} {o : Option Trail} {g : Trail → Option Trail}
    → Arrives fs n o
    → ((t : Trail) → left fs t.validated_fragment_spreads ≤ n → Arrives fs n (g t))
    → Arrives fs n (elim o [ none ↦ none | some t ↦ g t ])
Arrives-then (arrives h) k = k _ h

module _ (s : Schema) (fs : List FragmentDefinition) (current : Option OperationDefinition) where
  -- Entering a fragment succeeds where fewer than so many fragments are left.
  CanEnter : ℕ → (FragmentDefinition → Trail → Option Trail) → Type 0
  CanEnter n enter =
      (f : FragmentDefinition) (t : Trail) (k : ℕ)
      → left fs t.validated_fragment_spreads ≤ k
      → k < n
      → Arrives fs k (enter f t)

  module _ (n : ℕ) (enter : FragmentDefinition → Trail → Option Trail)
      (can : CanEnter n enter) where
    enter_spread-Arrives :
        (name : Bytes) (def : Option FragmentDefinition) (t : Trail) (k : ℕ)
        → fragment_for_name name fs ≡ def
        → left fs t.validated_fragment_spreads ≤ k
        → k ≤ n
        → Arrives fs k (enter_spread s fs current enter def t)
    unfolding enter_spread CanEnter
    enter_spread-Arrives name none t k found h m = arrives h
    enter_spread-Arrives name (some f) t k found h m = go _ refl
      where
        go :
            (b : Bool)
            → is_member f.name t.validated_fragment_spreads ≡ b
            → Arrives fs k (elim b [
              | true ↦ some t
              | false ↦
                  enter f (record t {
                    validated_fragment_spreads = f.name ∷ t.validated_fragment_spreads;
                  })
            ])
        go true e = arrives h
        go false e =
            let fewer = left-visit fs name f t.validated_fragment_spreads found e in
            Arrives-weaken {n = k - 1} (omega arith)
              (can f _ (k - 1) (omega (arith, fewer, h)) (omega (arith, fewer, h, m)))

    mutual
      unfolding walk_selection

      walk_selection-Arrives :
          (parent : Option Definition) (it : Selection) (t : Trail) (k : ℕ)
          → left fs t.validated_fragment_spreads ≤ k
          → k ≤ n
          → Arrives fs k (walk_selection s fs current enter parent it t)
      walk_selection-Arrives parent (field alias name args dirs set pos) t k h m =
          then_emit-Arrives _ (walk_selection_set-Arrives _ set _ k h m)
      walk_selection-Arrives parent (inline_fragment condition dirs set pos) t k h m =
          then_emit-Arrives _ (walk_selection_set-Arrives _ set _ k h m)
      walk_selection-Arrives parent (fragment_spread name dirs pos) t k h m =
          then_emit-Arrives _ (enter_spread-Arrives name _ _ k refl h m)

      walk_selection_set-Arrives :
          (parent : Option Definition) (set : SelectionSet) (t : Trail) (k : ℕ)
          → left fs t.validated_fragment_spreads ≤ k
          → k ≤ n
          → Arrives fs k (walk_selection_set s fs current enter parent set t)
      walk_selection_set-Arrives parent no_selections t k h m = arrives h
      walk_selection_set-Arrives parent (select it rest) t k h m =
          Arrives-then (walk_selection-Arrives parent it t k h m)
            (λ t' h'. walk_selection_set-Arrives parent rest t' k h' m)

  enter_fragment-CanEnter : (n : ℕ) → CanEnter n (enter_fragment s fs current n)
  unfolding enter_fragment CanEnter
  enter_fragment-CanEnter zero f t k h m = elim m [ ]
  enter_fragment-CanEnter (suc n) f t k h m =
      walk_selection_set-Arrives n (enter_fragment s fs current n) (enter_fragment-CanEnter n)
        (type_named s f.type_condition) f.selection_set t k h (omega (arith, m))

data Some {A : Type 0} : Option A → Type 0 where
  has : {a : A} → Some (some a)

Some-value : {A : Type 0} {o : Option A} → Some o → (a : A) × (o ≡ some a)
Some-value has = (_, refl)

Arrives-Some : {fs : List FragmentDefinition} {n : ℕ} {o : Option Trail} → Arrives fs n o → Some o
Arrives-Some (arrives k) = has

Some-then :
    {A B : Type 0} {o : Option A} {g : A → Option B}
    → Some o
    → ((a : A) → Some (g a))
    → Some (elim o [ none ↦ none | some a ↦ g a ])
Some-then has k = k _

walk_each-Some :
    {A : Type 0} (f : A → List Event → Option Trail)
    → ((a : A) (events : List Event) → Some (f a events))
    → (l : List A) (events : List Event) → Some (walk_each f l events)
unfolding walk_each
walk_each-Some f each [] events = has
walk_each-Some f each (a ∷ l) events =
    Some-then (each a events) (λ t. walk_each-Some f each l t.events)

module _ (s : Schema) (fs : List FragmentDefinition) where
  start_le : left fs [] ≤ length fs
  start_le = omega (arith, left_nil fs)

  walk_operation-Some :
      (op : OperationDefinition) (events : List Event)
      → Some (walk_operation s (length fs) fs op events)
  unfolding walk_operation
  walk_operation-Some op events = Arrives-Some (
      then_emit-Arrives _ (
        walk_selection_set-Arrives s fs (some op) (length fs) _
          (enter_fragment-CanEnter s fs (some op) (length fs)) _ op.selection_set _ (length fs)
          start_le (omega arith)))

  walk_fragment-Some :
      (f : FragmentDefinition) (events : List Event)
      → Some (walk_fragment s (length fs) fs f events)
  unfolding walk_fragment
  walk_fragment-Some f events = Arrives-Some (
      then_emit-Arrives _ (
        walk_selection_set-Arrives s fs none (length fs) _
          (enter_fragment-CanEnter s fs none (length fs)) _ f.selection_set _ (length fs) start_le
          (omega arith)))

-- Walk ends on every document, whatever fragments spread one another: the fuel of as many entries
-- as there are fragments never runs out.
pub walk_ends :
    (s : Schema) (doc : QueryDocument) → (events : List Event) × (walk s doc ≡ some events)
unfolding walk
walk_ends s doc = Some-value (
    Some-then (walk_each-Some _ (walk_operation-Some s doc.fragments) doc.operations [])
      (λ events. walk_each-Some _ (walk_fragment-Some s doc.fragments) doc.fragments events))
