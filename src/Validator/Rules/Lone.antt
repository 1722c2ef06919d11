-- ===== src/Validator/Rules/Lone.antt =====
-- The rule LoneAnonymousOperation over a whole walk.
use gqlparser.Validator.Rules.Clean.{append_nil_iff, Every-head, Every-tail}
use gqlparser.Ast.Source.{Position}
use gqlparser.Base.{
  ◌&&◌, if◌then◌else◌, ltb, ◌≤◌, ◌⊎◌, ◌≢◌, ap, sym, arith, bytes_eq_iff, some, length, inl, inr, ℕ,
}
use gqlparser.Validator.Rules.Rule.{add_error, not_the_only_operation}
use gqlparser.Validator.Schema.Sound.Logic.{Every-map}
use gqlparser.Ast.Document.{FragmentDefinition, OperationDefinition, QueryDocument}
use gqlparser.Base.{
  Bool, true, false, Bool-cases, Bytes, bytes_eq, bytes_eq_iff, ltb, length, List, [], ◌∷◌, ◌++◌,
  map, Option, some, ◌≡◌, ◌≢◌, ◌∙◌, ◌↔◌, ◌⊎◌, inl, inr, refl, sym, ap, ◌≤◌, arith,
}
use gqlparser.Validator.Rules.Operations.{run_top}
use gqlparser.Validator.Rules.Rule.{RuleError, run, for_each}
use gqlparser.Validator.Rules.Unique.{lone_anonymous_operation}
use gqlparser.Validator.Schema.State.{Schema}
use gqlparser.Validator.Schema.Sound.Logic.{Every, nothing, each_one, Every-map}
use gqlparser.Validator.Walk.Covers.{walk-top_level, fragment_seen}
use gqlparser.Validator.Walk.Quiet.{top_level}
use gqlparser.Validator.Walk.Document.{walk}
use gqlparser.Validator.Walk.Event.{Event, operation_event, fragment_event}

-- A rule without variables, as one with a variable that does not matter
abbrev stateless : (Event → List RuleError) → Event → Bool → Bool × List RuleError
stateless f e st = (st, f e)

run-stateless :
    (f : Event → List RuleError) (es : List Event) → run (stateless f) true es ≡ for_each f es
unfolding run for_each
run-stateless f [] = refl
run-stateless f (e ∷ es) = rw (run-stateless f es) refl

complaint_iff :
    (unnamed many : Bool) (name : Bytes) (pos : Option Position)
    → bytes_eq name [] ≡ unnamed
    → many ≡ true
    → ((if unnamed && many then add_error not_the_only_operation pos else []) ≡ []) ↔ (name ≢ [])
complaint_iff true true name pos e m =
    (λ h. cc h, λ other. elim (other ((bytes_eq_iff name []).0 e)) [ ])
complaint_iff true false name pos e m = cc m
complaint_iff false many name pos e m = (λ h same. cc (e, (bytes_eq_iff name []).1 same), λ h. refl)

no_complaint :
    (unnamed many : Bool) (pos : Option Position)
    → many ≡ false
    → (if unnamed && many then add_error not_the_only_operation pos else []) ≡ []
no_complaint true true pos m = cc m
no_complaint true false pos m = refl
no_complaint false many pos m = refl

many_few : (n : ℕ) → ltb 1 n ≡ true → n ≤ 1 → ⊥
many_few n many few = ground (arith, many, few)

few_le : (n : ℕ) → ltb 1 n ≡ false → n ≤ 1
few_le n few = ground (arith, few)

all_of : {A : Type 0} {P : A → Type 0} → ((a : A) → P a) → (l : List A) → Every P l
all_of f [] = nothing
all_of f (a ∷ l) = each_one (f a) (all_of f l)

module _ (doc : QueryDocument) where
  lone_inert :
      (e : Event) (st : Bool)
      → top_level (e ∷ []) ≡ []
      → stateless (lone_anonymous_operation doc) e st ≡ (st, [])
  unfolding lone_anonymous_operation top_level
  lone_inert (operation_event op) st h = cc h
  lone_inert (fragment_event f d) st h = refl
  lone_inert (Event.field_event n) st h = refl
  lone_inert (Event.inline_fragment_event n) st h = refl
  lone_inert (Event.fragment_spread_event n) st h = refl
  lone_inert (Event.directive_event n) st h = refl
  lone_inert (Event.directive_list_event n) st h = refl
  lone_inert (Event.value_event n) st h = refl
  lone_inert Event.nil_read st h = refl

  lone_top :
      (es : List Event)
      → for_each (lone_anonymous_operation doc) es
        ≡ for_each (lone_anonymous_operation doc) (top_level es)
  lone_top es =
      sym (run-stateless _ es)
      ∙ run_top (stateless (lone_anonymous_operation doc)) lone_inert true es
      ∙ run-stateless _ (top_level es)

  fragments_silent :
      (s : Schema) (fs : List FragmentDefinition)
      → for_each (lone_anonymous_operation doc) (map (fragment_seen s) fs) ≡ []
  unfolding for_each lone_anonymous_operation
  fragments_silent s [] = refl
  fragments_silent s (f ∷ fs) = fragments_silent s fs

  operations_each :
      (s : Schema) (ops : List OperationDefinition) (fs : List FragmentDefinition)
      → (for_each
            (lone_anonymous_operation doc)
            (map operation_event ops ++ map (fragment_seen s) fs)
          ≡ [])
        ↔ Every (λ op. lone_anonymous_operation doc (operation_event op) ≡ []) ops
  unfolding for_each
  operations_each s [] fs = (λ h. nothing, λ h. fragments_silent s fs)
  operations_each s (op ∷ ops) fs =
      let split = append_nil_iff (lone_anonymous_operation doc (operation_event op)) _ in
      let rest = operations_each s ops fs in
      (
        λ h. each_one (split.0 h).0 (rest.0 (split.0 h).1),
        λ e. split.1 (Every-head e, rest.1 (Every-tail e)),
      )

  is_named :
      (op : OperationDefinition)
      → ltb 1 (length doc.operations) ≡ true
      → (lone_anonymous_operation doc (operation_event op) ≡ []) ↔ (op.name ≢ [])
  unfolding lone_anonymous_operation
  is_named op many =
      complaint_iff (bytes_eq op.name []) (ltb 1 (length doc.operations)) op.name op.position refl
        many

  is_alone :
      (op : OperationDefinition)
      → ltb 1 (length doc.operations) ≡ false
      → lone_anonymous_operation doc (operation_event op) ≡ []
  unfolding lone_anonymous_operation
  is_alone op few =
      no_complaint (bytes_eq op.name []) (ltb 1 (length doc.operations)) op.position few

  each_operation :
      Every (λ op. lone_anonymous_operation doc (operation_event op) ≡ []) doc.operations
      ↔ ((length doc.operations ≤ 1) ⊎ Every (λ op. op.name ≢ []) doc.operations)
  each_operation = elim (Bool-cases (ltb 1 (length doc.operations))) [
    | inl many ↦ (
      λ e. inr (Every-map (λ op. (is_named op many).0) e),
      λ h. elim h [
        | inl few ↦ elim (many_few _ many few) [ ]
        | inr e ↦ Every-map (λ op. (is_named op many).1) e
      ],
    )
    | inr few ↦ (λ e. inl (few_le _ few), λ h. all_of (λ op. is_alone op few) doc.operations)
  ]

  -- Over a walk of a document LoneAnonymousOperation reports nothing exactly where the document has
  -- at most one operation or all its operations have names.
  pub lone_anonymous_operation_lem :
      (s : Schema) (events : List Event)
      → walk s doc ≡ some events
      → (for_each (lone_anonymous_operation doc) events ≡ [])
        ↔ ((length doc.operations ≤ 1) ⊎ Every (λ op. op.name ≢ []) doc.operations)
  lone_anonymous_operation_lem s events walked =
      let same =
        lone_top events
        ∙ ap (for_each (lone_anonymous_operation doc)) (walk-top_level s doc events walked) in
      let each = operations_each s doc.operations doc.fragments in
      (λ h. each_operation.0 (each.0 (sym same ∙ h)), λ h. same ∙ each.1 (each_operation.1 h))
