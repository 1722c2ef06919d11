-- ===== src/Validator/Walk/Quiet.antt =====
-- The parts of the walk that call no observer of operations or fragments.
use gqlparser.Ast.Lookup.{fragment_for_name}
use mathlib.Core.Path.{subst}
use gqlparser.Base.{codes, Bool, true, false, zero, suc, none, some}
use gqlparser.Ast.Document.{no_selections, select, field, fragment_spread, inline_fragment}
use gqlparser.Validator.Walk.Selection.{
  spread_type, emit, walk_selection_set, is_member, walk_selection, enter_spread, then_emit,
  enter_fragment,
}
use gqlparser.Validator.Walk.Value.{
  walk_argument, walk_directives, walk_arguments, walk_each_directive, walk_children, Expectation,
  walk_value,
}
use gqlparser.Ast.Definition.{ArgumentDefinition, Definition}
use gqlparser.Ast.Document.{
  select, SelectionSet, fragment_spread, inline_fragment, field, Selection, FragmentDefinition,
  Argument, Directive, OperationDefinition,
}
use gqlparser.Ast.Value.{
  variable, int_value, float_value, string_value, block_value, boolean_value, null_value,
  enum_value, Children, Value, ValueKind, variable, int_value, float_value, string_value,
  block_value, boolean_value, null_value, enum_value, list_value, object_value, nil_value, value,
  no_children, child,
}
use gqlparser.Base.{
  suc, some, ℕ, append-nil, none, List, [], ◌∷◌, ◌++◌, Bytes, ◌≡◌, ◌∙◌, refl, ap, Option,
}
use gqlparser.Validator.Schema.State.{Schema}
use gqlparser.Validator.Walk.Event.{
  directive_event, inline_fragment_event, fragment_spread_event, field_event, SpreadNode,
  InlineNode, DirectiveNode, FieldNode, Trail, Event, operation_event, fragment_event,
}

-- The calls of the observers of operations and of fragments
unfoldable pub top_level : List Event → List Event
top_level [] = []
top_level (operation_event op ∷ es) = operation_event op ∷ top_level es
top_level (fragment_event f d ∷ es) = fragment_event f d ∷ top_level es
top_level (_ ∷ es) = top_level es

pub top_level-append : (a b : List Event) → top_level (a ++ b) ≡ top_level a ++ top_level b
unfolding top_level
top_level-append [] b = refl
top_level-append (operation_event op ∷ a) b =
    ap (λ l. operation_event op ∷ l) (top_level-append a b)
top_level-append (fragment_event f d ∷ a) b =
    ap (λ l. fragment_event f d ∷ l) (top_level-append a b)
top_level-append (Event.field_event n ∷ a) b = top_level-append a b
top_level-append (Event.inline_fragment_event n ∷ a) b = top_level-append a b
top_level-append (Event.fragment_spread_event n ∷ a) b = top_level-append a b
top_level-append (Event.directive_event n ∷ a) b = top_level-append a b
top_level-append (Event.directive_list_event n ∷ a) b = top_level-append a b
top_level-append (Event.value_event n ∷ a) b = top_level-append a b
top_level-append (Event.nil_read ∷ a) b = top_level-append a b

-- None of the events is a call of these.
pub data Quiet (es : List Event) : Type 0 where
  quiet : top_level es ≡ [] → Quiet es

pub both_Quiet : {a b : List Event} → Quiet a → Quiet b → Quiet (a ++ b)
both_Quiet {a} {b} (quiet h) (quiet k) = quiet (top_level-append a b ∙ cc (h, k))

pub directive_Quiet :
    {es : List Event} (d : DirectiveNode) → Quiet es → Quiet (directive_event d ∷ es)
unfolding top_level
directive_Quiet d (quiet h) = quiet h

module _ (s : Schema) (current : Option OperationDefinition) where
  mutual
    unfolding walk_value top_level

    pub walk_value-Quiet : (x : Expectation) (v : Value) → Quiet (walk_value s current x v)
    walk_value-Quiet x nil_value = quiet refl
    walk_value-Quiet x (value kind raw children pos) =
        both_Quiet (walk_children-Quiet x kind children) (quiet refl)

    walk_children-Quiet :
        (x : Expectation) (kind : ValueKind) (children : Children)
        → Quiet (walk_children s current x kind children)
    walk_children-Quiet x kind no_children = quiet refl
    walk_children-Quiet x object_value (child name v pos rest) =
        both_Quiet (walk_value-Quiet _ v) (walk_children-Quiet x object_value rest)
    walk_children-Quiet x list_value (child name v pos rest) =
        both_Quiet (walk_value-Quiet _ v) (walk_children-Quiet x list_value rest)
    walk_children-Quiet x variable (child name v pos rest) = quiet refl
    walk_children-Quiet x int_value (child name v pos rest) = quiet refl
    walk_children-Quiet x float_value (child name v pos rest) = quiet refl
    walk_children-Quiet x string_value (child name v pos rest) = quiet refl
    walk_children-Quiet x block_value (child name v pos rest) = quiet refl
    walk_children-Quiet x boolean_value (child name v pos rest) = quiet refl
    walk_children-Quiet x null_value (child name v pos rest) = quiet refl
    walk_children-Quiet x enum_value (child name v pos rest) = quiet refl

  walk_arguments-Quiet :
      (defs : Option (List ArgumentDefinition)) (args : List Argument)
      → Quiet (walk_arguments s current defs args)
  unfolding walk_arguments walk_argument top_level
  walk_arguments-Quiet defs [] = quiet refl
  walk_arguments-Quiet defs (arg ∷ args) =
      both_Quiet (walk_value-Quiet _ arg.value) (walk_arguments-Quiet defs args)

  walk_each_directive-Quiet :
      (parent : Option Definition) (location : Bytes) (dirs : List Directive)
      → Quiet (walk_each_directive s current parent location dirs)
  unfolding walk_each_directive top_level
  walk_each_directive-Quiet parent location [] = quiet refl
  walk_each_directive-Quiet parent location (dir ∷ dirs) =
      both_Quiet (walk_arguments-Quiet _ dir.arguments)
        (directive_Quiet _ (walk_each_directive-Quiet parent location dirs))

  pub walk_directives-Quiet :
      (parent : Option Definition) (dirs : List Directive) (location : Bytes)
      → Quiet (walk_directives s current parent dirs location)
  unfolding walk_directives top_level
  walk_directives-Quiet parent dirs location =
      both_Quiet (walk_each_directive-Quiet parent location dirs) (quiet refl)

-- The walk adds no such call to those of the trail it began with.
pub data Calm (es : List Event) : Option Trail → Type 0 where
  lost : Calm es none
  calm : {t : Trail} → top_level t.events ≡ es → Calm es (some t)

pub emit-calm :
    {es new : List Event} (t : Trail)
    → Quiet new
    → top_level t.events ≡ es
    → top_level (t.events ++ new) ≡ es
emit-calm {es} {new} t (quiet k) h =
    top_level-append t.events new ∙ cc (append-nil (top_level t.events), k, h)

pub then_emit-Calm :
    {es new : List Event} {o : Option Trail} → Quiet new → Calm es o → Calm es (then_emit new o)
then_emit-Calm q lost = lost
then_emit-Calm q (calm {t} h) = calm (emit-calm t q h)

Calm-then :
    {es : List Event} {o : Option Trail} {g : Trail → Option Trail}
    → Calm es o
    → ((t : Trail) → top_level t.events ≡ es → Calm es (g t))
    → Calm es (elim o [ none ↦ none | some t ↦ g t ])
Calm-then lost k = lost
Calm-then (calm h) k = k _ h

branch_Calm :
    {es : List Event} {x y : Option Trail} (b : Bool)
    → Calm es x
    → Calm es y
    → Calm es (elim b [ true ↦ x | false ↦ y ])
branch_Calm true p q = p
branch_Calm false p q = q

field_Quiet : (n : FieldNode) → Quiet (field_event n ∷ [])
unfolding top_level
field_Quiet n = quiet refl

inline_Quiet : (n : InlineNode) → Quiet (inline_fragment_event n ∷ [])
unfolding top_level
inline_Quiet n = quiet refl

spread_Quiet : (n : SpreadNode) → Quiet (fragment_spread_event n ∷ [])
unfolding top_level
spread_Quiet n = quiet refl

module _ (s : Schema) (fs : List FragmentDefinition) (current : Option OperationDefinition) where
  module _ (enter : FragmentDefinition → Trail → Option Trail)
      (entering : (f : FragmentDefinition) (t : Trail)
        → Calm (top_level t.events) (enter f t)) where
    enter_spread-Calm :
        (es : List Event) (def : Option FragmentDefinition) (t : Trail)
        → top_level t.events ≡ es
        → Calm es (enter_spread s fs current enter def t)
    unfolding enter_spread
    enter_spread-Calm es none t h = calm h
    enter_spread-Calm es (some f) t h =
        let t' : Trail = record t {
          validated_fragment_spreads = f.name ∷ t.validated_fragment_spreads;
        } in
        branch_Calm (is_member f.name t.validated_fragment_spreads) (calm {t = t} h)
          (subst (λ e. Calm e (enter f t')) h (entering f t'))

    mutual
      unfolding walk_selection

      walk_selection-Calm :
          (es : List Event) (parent : Option Definition) (it : Selection) (t : Trail)
          → top_level t.events ≡ es
          → Calm es (walk_selection s fs current enter parent it t)
      walk_selection-Calm es parent (field alias name args dirs set pos) t h =
          then_emit-Calm (field_Quiet _) (
            walk_selection_set-Calm es _ set _ (
              emit-calm t
                (both_Quiet (walk_arguments-Quiet s current _ args)
                  (walk_directives-Quiet s current _ dirs _))
                h))
      walk_selection-Calm es parent (inline_fragment condition dirs set pos) t h =
          then_emit-Calm (inline_Quiet _) (
            walk_selection_set-Calm es _ set _
              (emit-calm t (walk_directives-Quiet s current _ dirs _) h))
      walk_selection-Calm es parent (fragment_spread name dirs pos) t h =
          then_emit-Calm (spread_Quiet _) (
            enter_spread-Calm es (fragment_for_name name fs)
              (emit
                (walk_directives s current (spread_type s (fragment_for_name name fs)) dirs
                  (codes "FRAGMENT_SPREAD"))
                t)
              (emit-calm t (walk_directives-Quiet s current _ dirs _) h))

      pub walk_selection_set-Calm :
          (es : List Event) (parent : Option Definition) (set : SelectionSet) (t : Trail)
          → top_level t.events ≡ es
          → Calm es (walk_selection_set s fs current enter parent set t)
      walk_selection_set-Calm es parent no_selections t h = calm h
      walk_selection_set-Calm es parent (select it rest) t h =
          Calm-then (walk_selection-Calm es parent it t h)
            (λ t' h'. walk_selection_set-Calm es parent rest t' h')

  pub enter_fragment-Calm :
      (n : ℕ) (f : FragmentDefinition) (t : Trail)
      → Calm (top_level t.events) (enter_fragment s fs current n f t)
  unfolding enter_fragment
  enter_fragment-Calm zero f t = lost
  enter_fragment-Calm (suc n) f t =
      walk_selection_set-Calm (enter_fragment s fs current n) (enter_fragment-Calm n) _ _
        f.selection_set t refl
