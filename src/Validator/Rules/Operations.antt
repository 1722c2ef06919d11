-- ===== src/Validator/Rules/Operations.antt =====
-- The rules on operations and fragments over a whole walk.
use gqlparser.Ast.Document.{FragmentDefinition, OperationDefinition, QueryDocument}
use gqlparser.Base.{Bytes, List, [], ◌∷◌, ◌++◌, map, some, ◌≡◌, ◌∙◌, ◌↔◌, refl, sym, ap}
use gqlparser.Validator.Rules.Distinct.{refuse_repeated-Distinct}
use gqlparser.Validator.Rules.Rule.{RuleError, repeated_fragment, run, repeated_operation}
use gqlparser.Validator.Rules.Unique.{
  unique_fragment_names, refuse_repeated, unique_operation_names,
}
use gqlparser.Validator.Schema.State.{Schema}
use gqlparser.Validator.Schema.Sound.Distinct.{Distinct}
use gqlparser.Validator.Walk.Covers.{walk-top_level, fragment_seen}
use gqlparser.Validator.Walk.Quiet.{top_level}
use gqlparser.Validator.Walk.Document.{walk}
use gqlparser.Validator.Walk.Event.{Event, operation_event, fragment_event}

-- A rule that does nothing on other events sees only the calls of the observers of operations and
-- fragments.
module _ {S : Type 0} (observe : Event → S → S × List RuleError)
    (inert : (e : Event) (st : S) → top_level (e ∷ []) ≡ [] → observe e st ≡ (st, [])) where
  skip_event :
      (e : Event) (st : S) (es : List Event)
      → top_level (e ∷ []) ≡ []
      → run observe st (e ∷ es) ≡ run observe st es
  unfolding run
  skip_event e st es h = rw (inert e st h) refl

  pub run_top :
      (st : S) (events : List Event) → run observe st events ≡ run observe st (top_level events)
  unfolding run top_level
  run_top st [] = refl
  run_top st (operation_event op ∷ es) = rw (run_top (observe (operation_event op) st).0 es) refl
  run_top st (fragment_event f d ∷ es) = rw (run_top (observe (fragment_event f d) st).0 es) refl
  run_top st (Event.field_event n ∷ es) = skip_event _ st es refl ∙ run_top st es
  run_top st (Event.inline_fragment_event n ∷ es) = skip_event _ st es refl ∙ run_top st es
  run_top st (Event.fragment_spread_event n ∷ es) = skip_event _ st es refl ∙ run_top st es
  run_top st (Event.directive_event n ∷ es) = skip_event _ st es refl ∙ run_top st es
  run_top st (Event.directive_list_event n ∷ es) = skip_event _ st es refl ∙ run_top st es
  run_top st (Event.value_event n ∷ es) = skip_event _ st es refl ∙ run_top st es
  run_top st (Event.nil_read ∷ es) = skip_event Event.nil_read st es refl ∙ run_top st es

operations_inert :
    (e : Event) (seen : List Bytes)
    → top_level (e ∷ []) ≡ []
    → unique_operation_names e seen ≡ (seen, [])
unfolding unique_operation_names top_level
operations_inert (operation_event op) seen h = cc h
operations_inert (fragment_event f d) seen h = refl
operations_inert (Event.field_event n) seen h = refl
operations_inert (Event.inline_fragment_event n) seen h = refl
operations_inert (Event.fragment_spread_event n) seen h = refl
operations_inert (Event.directive_event n) seen h = refl
operations_inert (Event.directive_list_event n) seen h = refl
operations_inert (Event.value_event n) seen h = refl
operations_inert Event.nil_read seen h = refl

fragments_inert :
    (e : Event) (seen : List Bytes)
    → top_level (e ∷ []) ≡ []
    → unique_fragment_names e seen ≡ (seen, [])
unfolding unique_fragment_names top_level
fragments_inert (operation_event op) seen h = refl
fragments_inert (fragment_event f d) seen h = cc h
fragments_inert (Event.field_event n) seen h = refl
fragments_inert (Event.inline_fragment_event n) seen h = refl
fragments_inert (Event.fragment_spread_event n) seen h = refl
fragments_inert (Event.directive_event n) seen h = refl
fragments_inert (Event.directive_list_event n) seen h = refl
fragments_inert (Event.value_event n) seen h = refl
fragments_inert Event.nil_read seen h = refl

module _ (s : Schema) where
  no_operations :
      (seen : List Bytes) (fs : List FragmentDefinition)
      → run unique_operation_names seen (map (fragment_seen s) fs) ≡ []
  unfolding run unique_operation_names
  no_operations seen [] = refl
  no_operations seen (f ∷ fs) = no_operations seen fs

  operations_run :
      (seen : List Bytes) (ops : List OperationDefinition) (fs : List FragmentDefinition)
      → run unique_operation_names seen (map operation_event ops ++ map (fragment_seen s) fs)
        ≡ refuse_repeated
            (λ (o : OperationDefinition). o.name)
            repeated_operation
            (λ o. o.position)
            seen
            ops
  unfolding run unique_operation_names refuse_repeated
  operations_run seen [] fs = no_operations seen fs
  operations_run seen (op ∷ ops) fs = rw (operations_run (op.name ∷ seen) ops fs) refl

  fragments_only :
      (seen : List Bytes) (fs : List FragmentDefinition)
      → run unique_fragment_names seen (map (fragment_seen s) fs)
        ≡ refuse_repeated
            (λ (f : FragmentDefinition). f.name)
            repeated_fragment
            (λ f. f.position)
            seen
            fs
  unfolding run unique_fragment_names refuse_repeated
  fragments_only seen [] = refl
  fragments_only seen (f ∷ fs) = rw (fragments_only (f.name ∷ seen) fs) refl

  fragments_run :
      (seen : List Bytes) (ops : List OperationDefinition) (fs : List FragmentDefinition)
      → run unique_fragment_names seen (map operation_event ops ++ map (fragment_seen s) fs)
        ≡ refuse_repeated
            (λ (f : FragmentDefinition). f.name)
            repeated_fragment
            (λ f. f.position)
            seen
            fs
  unfolding run unique_fragment_names
  fragments_run seen [] fs = fragments_only seen fs
  fragments_run seen (op ∷ ops) fs = fragments_run seen ops fs

  module _ (doc : QueryDocument) (events : List Event) (walked : walk s doc ≡ some events) where
    -- Over a walk of a document UniqueOperationNames reports nothing exactly where the operations of
    -- the document have distinct names.
    pub unique_operation_names-Distinct :
        (run unique_operation_names [] events ≡ [])
        ↔ Distinct (λ (o : OperationDefinition). o.name) doc.operations
    unique_operation_names-Distinct =
        let same =
          run_top unique_operation_names operations_inert [] events
          ∙ ap (run unique_operation_names []) (walk-top_level s doc events walked)
          ∙ operations_run [] doc.operations doc.fragments in
        let unique =
          refuse_repeated-Distinct (λ (o : OperationDefinition). o.name) repeated_operation
            (λ o. o.position) doc.operations in
        (λ e. unique.0 (sym same ∙ e), λ d. same ∙ unique.1 d)

    -- Over a walk of a document UniqueFragmentNames reports nothing exactly where the fragments of
    -- the document have distinct names, however often they are spread.
    pub unique_fragment_names-Distinct :
        (run unique_fragment_names [] events ≡ [])
        ↔ Distinct (λ (f : FragmentDefinition). f.name) doc.fragments
    unique_fragment_names-Distinct =
        let same =
          run_top unique_fragment_names fragments_inert [] events
          ∙ ap (run unique_fragment_names []) (walk-top_level s doc events walked)
          ∙ fragments_run [] doc.operations doc.fragments in
        let unique =
          refuse_repeated-Distinct (λ (f : FragmentDefinition). f.name) repeated_fragment
            (λ f. f.position) doc.fragments in
        (λ e. unique.0 (sym same ∙ e), λ d. same ∙ unique.1 d)
