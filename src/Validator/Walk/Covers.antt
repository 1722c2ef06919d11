-- ===== src/Validator/Walk/Covers.antt =====
-- What the walk calls the observers of operations and fragments with.
use gqlparser.Validator.Walk.Quiet.{
  walk_value-Quiet, Quiet, lost, calm, emit-calm, both_Quiet, walk_directives-Quiet, quiet,
}
use gqlparser.Ast.Document.{VariableDefinition}
use gqlparser.Ast.Value.{Value, nil_value, value}
use gqlparser.Base.{some, none, List, [], ◌∷◌, ◌++◌, append_assoc, append-nil}
use gqlparser.Validator.Walk.Selection.{then_emit}
use gqlparser.Ast.Definition.{Definition}
use gqlparser.Validator.Walk.Quiet.{
  top_level-append, calm, enter_fragment-Calm, Calm, walk_selection_set-Calm, top_level,
}
use gqlparser.Validator.Walk.Document.{
  walk_default, walk_defaults, walk, walk_each, walk_operation, walk_fragment,
}
use gqlparser.Base.{
  ℕ, List, [], ◌∷◌, ◌++◌, map, length, append-nil, append_assoc, ◌≡◌, ◌∙◌, refl, ap, Option, none,
  some,
}
use gqlparser.Validator.Walk.Event.{Trail, Event, operation_event, fragment_event}
use gqlparser.Ast.Document.{FragmentDefinition, OperationDefinition, QueryDocument}
use gqlparser.Validator.Schema.State.{Schema, type_named}

abbrev pub fragment_seen : Schema → FragmentDefinition → Event
fragment_seen s f = fragment_event f (type_named s f.type_condition)

-- A walk of one item adds its own event to the calls before it.
data Adds (e : Event) (events : List Event) : Option Trail → Type 0 where
  stopped : Adds e events none
  adds : {t : Trail} → top_level t.events ≡ top_level events ++ e ∷ [] → Adds e events (some t)

walk_default-Quiet :
    (s : Schema) (op : OperationDefinition) (d : VariableDefinition) (v : Value)
    → Quiet (walk_default s op d v)
unfolding top_level
walk_default-Quiet s op d nil_value = quiet refl
walk_default-Quiet s op d (value _ _ _ _) = walk_value-Quiet s (some op) _ _

walk_defaults-Quiet :
    (s : Schema) (op : OperationDefinition) (ds : List VariableDefinition)
    → Quiet (walk_defaults s op ds)
unfolding walk_defaults top_level
walk_defaults-Quiet s op [] = quiet refl
walk_defaults-Quiet s op (d ∷ ds) =
    both_Quiet (walk_default-Quiet s op d d.default_value) (walk_defaults-Quiet s op ds)

module _ (s : Schema) (n : ℕ) (fs : List FragmentDefinition) where
  operation_emitted :
      (op : OperationDefinition) (events : List Event) {o : Option Trail}
      → Calm (top_level events) o
      → Adds (operation_event op) events (then_emit (operation_event op ∷ []) o)
  unfolding top_level
  operation_emitted op events lost = stopped
  operation_emitted op events (calm {t} h) =
      adds (top_level-append t.events _ ∙ ap (λ l. l ++ operation_event op ∷ []) h)

  fragment_emitted :
      (f : FragmentDefinition) (d : Option Definition) (events : List Event) {o : Option Trail}
      → Calm (top_level events) o
      → Adds (fragment_event f d) events (then_emit (fragment_event f d ∷ []) o)
  unfolding top_level
  fragment_emitted f d events lost = stopped
  fragment_emitted f d events (calm {t} h) =
      adds (top_level-append t.events _ ∙ ap (λ l. l ++ fragment_event f d ∷ []) h)

  walk_operation-Adds :
      (op : OperationDefinition) (events : List Event)
      → Adds (operation_event op) events (walk_operation s n fs op events)
  unfolding walk_operation
  walk_operation-Adds op events = operation_emitted op events (
      walk_selection_set-Calm s fs (some op) _ (enter_fragment-Calm s fs (some op) n) _ _
        op.selection_set _
        (emit-calm (record { validated_fragment_spreads = []; events = events })
          (both_Quiet (walk_directives-Quiet s (some op) _ op.directives _)
            (walk_defaults-Quiet s op op.variable_definitions))
          refl))

  walk_fragment-Adds :
      (f : FragmentDefinition) (events : List Event)
      → Adds (fragment_seen s f) events (walk_fragment s n fs f events)
  unfolding walk_fragment
  walk_fragment-Adds f events = fragment_emitted f _ events (
      walk_selection_set-Calm s fs none _ (enter_fragment-Calm s fs none n) _ _ f.selection_set _ (
        emit-calm (record { validated_fragment_spreads = []; events = events })
          (walk_directives-Quiet s none _ f.directives _) refl))

module _ {A : Type 0} (f : A → List Event → Option Trail) (seen : A → Event)
    (each : (a : A) (events : List Event) → Adds (seen a) events (f a events)) where
  walk_each_top :
      (l : List A) (events r : List Event)
      → walk_each f l events ≡ some r
      → top_level r ≡ top_level events ++ map seen l
  unfolding walk_each
  walk_each_top [] events r h = cc (h, append-nil (top_level events))
  walk_each_top (a ∷ l) events r h = follow (each a events) (λ es. walk_each_top l es r) h
    where
      follow :
          {o : Option Trail}
          → Adds (seen a) events o
          → ((es : List Event)
              → walk_each f l es ≡ some r
              → top_level r ≡ top_level es ++ map seen l)
          → elim o [ none ↦ none | some t ↦ walk_each f l t.events ] ≡ some r
          → top_level r ≡ top_level events ++ seen a ∷ map seen l
      follow stopped k h = cc h
      follow (adds {t} same) k h =
          k t.events h
          ∙ ap (λ l'. l' ++ map seen l) same
          ∙ append_assoc (top_level events) (seen a ∷ []) (map seen l)

walk_parts :
    (s : Schema) (doc : QueryDocument) (events : List Event)
    → walk s doc ≡ some events
    → (es : List Event) × (walk_each
          (walk_operation s (length doc.fragments) doc.fragments)
          doc.operations
          []
        ≡ some es)
      × (walk_each (walk_fragment s (length doc.fragments) doc.fragments) doc.fragments es
          ≡ some events)
unfolding walk
walk_parts s doc events h = go _ refl h
  where
    go :
        (o : Option (List Event))
        → walk_each (walk_operation s (length doc.fragments) doc.fragments) doc.operations [] ≡ o
        → elim o [
          | none ↦ none
          | some events ↦
              walk_each (walk_fragment s (length doc.fragments) doc.fragments) doc.fragments events
        ]
          ≡ some events
        → (es : List Event) × (walk_each
              (walk_operation s (length doc.fragments) doc.fragments)
              doc.operations
              []
            ≡ some es)
          × (walk_each (walk_fragment s (length doc.fragments) doc.fragments) doc.fragments es
              ≡ some events)
    go none e h = cc h
    go (some es) e h = (es, e, h)

-- Walk calls the observers of operations once with each operation of the document and then those of
-- fragments once with each fragment and the definition of its type, in the order of the document,
-- however often fragments are spread.
pub walk-top_level :
    (s : Schema) (doc : QueryDocument) (events : List Event)
    → walk s doc ≡ some events
    → top_level events ≡ map operation_event doc.operations ++ map (fragment_seen s) doc.fragments
walk-top_level s doc events h =
    let (es, first, second) = walk_parts s doc events h in
    let n = length doc.fragments in
    walk_each_top _ (fragment_seen s) (walk_fragment-Adds s n doc.fragments) doc.fragments es events
      second
    ∙ ap (λ l. l ++ map (fragment_seen s) doc.fragments)
        (walk_each_top _ operation_event (walk_operation-Adds s n doc.fragments) doc.operations []
            es first
          ∙ unfold top_level in refl)
