-- ===== src/Validator/Rules/Overlap.antt =====
-- PossibleFragmentSpreads on a schema without nil pointers.
use gqlparser.Ast.Document.{FragmentDefinition}
use gqlparser.Validator.Rules.Possible.{name_of}
use gqlparser.Validator.Rules.Rule.{add_error, impossible_spread}
use gqlparser.Base.{none, false, ◌≢◌, ◌↔◌}
use gqlparser.Ast.Definition.{
  Definition, DefinitionKind, scalar_kind, object_kind, interface_kind, union_kind, enum_kind,
  input_object_kind, is_composite_type,
}
use gqlparser.Validator.Rules.Possible.{
  emit_unless, parent_types, fragment_type_checked, validate_spread, possible_fragment_spreads,
}
use gqlparser.Validator.Schema.State.{Schema, get_possible_types, type_named}
use gqlparser.Validator.Walk.Event.{Event, inline_fragment_event, fragment_spread_event}
use gqlparser.Validator.Schema.Sound.Ready.{IsReady}
use gqlparser.Validator.Rules.Rule.{RuleError}
use gqlparser.Validator.Schema.State.{pointers_of}
use mathlib.Core.List.Memᴰ
use mathlib.Core.List.{Memᴰ}
use mathlib.Core.Path.{subst}
use gqlparser.Base.{
  if_both, ap, Bool, true, false, Bool-cases, Bytes, bytes_eq, bytes_eq_iff, bytes_eq_refl, List,
  [], ◌∷◌, Option, some, ◌≡◌, refl, sym, inl, inr,
}
use gqlparser.Validator.Rules.Possible.{overlap, same_name}
use gqlparser.Validator.Schema.Sound.Logic.{Every, nothing, each_one}
use gqlparser.Validator.Schema.Sound.Pointers.{NoNil, Present, present}

-- Two lists of pointers share one.
abbrev pub Share : List (Option Bytes) → List (Option Bytes) → Type 0
Share fs ps = (p : Option Bytes) × Memᴰ p fs × Memᴰ p ps

-- What a search among pointers that are not nil comes to: it is not the reading of a nil pointer.
data Decides (P : Type 0) : Option Bool → Type 0 where
  found_it : P → Decides P (some true)
  none_there : (P → ⊥) → Decides P (some false)

same_name-Decides :
    (f : Bytes) {ps : List (Option Bytes)}
    → Every Present ps
    → Decides (Memᴰ (some f) ps) (same_name (some f) ps)
unfolding same_name
same_name-Decides f nothing = none_there Memᴰ.not-nil
same_name-Decides f (each_one {l = l} (present p) es) = elim (Bool-cases (bytes_eq p f)) [
  | inl e ↦ rw e (found_it (Memᴰ.head (ap (λ x. some x) (sym ((bytes_eq_iff p f).0 e)))))
  | inr e ↦ rw e (further p e (same_name-Decides f es))
]
  where
    further :
        {f : Bytes} {l : List (Option Bytes)} {o : Option Bool} (p : Bytes)
        → bytes_eq p f ≡ false
        → Decides (Memᴰ (some f) l) o
        → Decides (Memᴰ (some f) (some p ∷ l)) o
    further p e (found_it h) = found_it (Memᴰ.tail h)
    further {f} p e (none_there k) = none_there (λ h. elim (Memᴰ.cases_cons h) [
      | inl same ↦ cc (e, bytes_eq_refl f, same)
      | inr rest ↦ k rest
    ])

overlap-Decides :
    {fs ps : List (Option Bytes)}
    → Every Present fs
    → Every Present ps
    → Decides (Share fs ps) (overlap fs ps)
unfolding overlap
overlap-Decides nothing qs = none_there (λ h. Memᴰ.not-nil h.1)
overlap-Decides {ps} (each_one {l = l} (present f) es) qs =
    both f (same_name-Decides f qs) (overlap-Decides es qs)
  where
    both :
        {l ps : List (Option Bytes)} {o o' : Option Bool} (f : Bytes)
        → Decides (Memᴰ (some f) ps) o
        → Decides (Share l ps) o'
        → Decides
            (Share (some f ∷ l) ps)
            (elim o [ none ↦ none | some true ↦ some true | some false ↦ o' ])
    both f (found_it h) d = found_it (some f, Memᴰ.head refl, h)
    both f (none_there k) (found_it (p, h, h')) = found_it (p, Memᴰ.tail h, h')
    both {ps = ps} f (none_there k) (none_there k') = none_there (λ (p, h, h').
        elim (Memᴰ.cases_cons h) [
          | inl e ↦ k (subst (λ x. Memᴰ x ps) e h')
          | inr rest ↦ k' (p, rest, h')
        ])

pointers_of-Present :
    (name : Bytes) {m : List (Bytes × List (Option Bytes))}
    → NoNil m
    → Every Present (pointers_of name m)
unfolding pointers_of
pointers_of-Present name nothing = nothing
pointers_of-Present name (each_one {a = (n, l)} e es) =
    if_both (Every Present) (bytes_eq n name) e (pointers_of-Present name es)

-- The rule reports, and reads no nil pointer.
pub data Reports : Option (List RuleError) → Type 0 where
  reports : {errors : List RuleError} → Reports (some errors)

emit_unless-Reports :
    {P : Type 0} {o : Option Bool} (errors : List RuleError)
    → Decides P o
    → Reports (emit_unless errors o)
emit_unless-Reports errors (found_it h) = reports
emit_unless-Reports errors (none_there k) = reports

emit_unless_iff :
    {P : Type 0} {o : Option Bool} (errors : List RuleError)
    → errors ≢ []
    → Decides P o
    → (emit_unless errors o ≡ some []) ↔ P
emit_unless_iff errors some_error (found_it h) = (λ e. h, λ p. refl)
emit_unless_iff errors some_error (none_there k) =
    (λ e. let same : errors ≡ [] = cc e in elim (some_error same) [ ], λ p. elim (k p) [ ])

module _ (s : Schema) (ready : IsReady s) where
  possible-Present : (d : Definition) → Every Present (get_possible_types s d)
  unfolding get_possible_types
  possible-Present d = pointers_of-Present d.name ready.pointers.possible

  parents-Present :
      (d : Definition) (kind : DefinitionKind) (ps : List (Option Bytes))
      → parent_types s d kind ≡ some ps
      → Every Present ps
  parents-Present d object_kind ps h =
      subst (Every Present) (cc h) (each_one (present d.name) nothing)
  parents-Present d interface_kind ps h = subst (Every Present) (cc h) (possible-Present d)
  parents-Present d union_kind ps h = subst (Every Present) (cc h) (possible-Present d)
  parents-Present d scalar_kind ps h = cc h
  parents-Present d enum_kind ps h = cc h
  parents-Present d input_object_kind ps h = cc h

  fragment_type-Reports :
      (errors : List RuleError) {ps : List (Option Bytes)} (t : Option Definition)
      → Every Present ps
      → Reports (fragment_type_checked s errors ps t)
  fragment_type-Reports errors none es = reports
  fragment_type-Reports errors (some t) es =
      branch (is_composite_type t.kind)
        (emit_unless-Reports errors (overlap-Decides (possible-Present t) es))
    where
      branch :
          {x : Option (List RuleError)} (b : Bool)
          → Reports x
          → Reports (elim b [ false ↦ some [] | true ↦ x ])
      branch false r = reports
      branch true r = r

  validate_spread-Reports :
      (errors : List RuleError) (parent : Option Definition) (name : Bytes)
      → Reports (validate_spread s errors parent name)
  unfolding validate_spread
  validate_spread-Reports errors none name = reports
  validate_spread-Reports errors (some parent) name =
      go (parent_types s parent parent.kind) (parents-Present parent parent.kind)
    where
      go :
          (o : Option (List (Option Bytes)))
          → ((ps : List (Option Bytes)) → o ≡ some ps → Every Present ps)
          → Reports (elim o [
            | none ↦ some []
            | some parents ↦ fragment_type_checked s errors parents (type_named s name)
          ])
      go none k = reports
      go (some ps) k = fragment_type-Reports errors (type_named s name) (k ps refl)

  -- On a schema that is ready, as ValidateSchemaDocument returns it, PossibleFragmentSpreads reads no
  -- nil pointer, whatever node it is called with.
  pub possible_fragment_spreads-Reports : (e : Event) → Reports (possible_fragment_spreads s e)
  unfolding possible_fragment_spreads
  possible_fragment_spreads-Reports (inline_fragment_event n) = validate_spread-Reports _ _ _
  possible_fragment_spreads-Reports (fragment_spread_event n) = go n.definition
    where
      go :
          (o : Option FragmentDefinition)
          → Reports (elim o [
            | none ↦ some []
            | some f ↦
                validate_spread s
                  (add_error
                    (impossible_spread n.name (name_of s n.object_definition) f.type_condition)
                    n.position)
                  n.object_definition
                  f.type_condition
          ])
      go none = reports
      go (some f) = validate_spread-Reports _ n.object_definition f.type_condition
  possible_fragment_spreads-Reports (Event.operation_event op) = reports
  possible_fragment_spreads-Reports (Event.field_event n) = reports
  possible_fragment_spreads-Reports (Event.fragment_event f d) = reports
  possible_fragment_spreads-Reports (Event.directive_event n) = reports
  possible_fragment_spreads-Reports (Event.directive_list_event n) = reports
  possible_fragment_spreads-Reports (Event.value_event n) = reports
  possible_fragment_spreads-Reports Event.nil_read = reports

  -- The same between the lists that the code goes through: Validator.Rules.Spread says what they hold.
  pub validate_spread-Share :
      (errors : List RuleError) (parent t : Definition) (ps : List (Option Bytes)) (name : Bytes)
      → errors ≢ []
      → parent_types s parent parent.kind ≡ some ps
      → type_named s name ≡ some t
      → is_composite_type t.kind ≡ true
      → (validate_spread s errors (some parent) name ≡ some []) ↔ Share (get_possible_types s t) ps
  unfolding validate_spread
  validate_spread-Share errors parent t ps name some_error h found composite =
      let allowed = Share (get_possible_types s t) ps in
      subst
        (λ o.
          (elim o [
            | none ↦ some []
            | some parents ↦ fragment_type_checked s errors parents (type_named s name)
          ]
            ≡ some [])
          ↔ allowed)
        (sym h)
        (subst (λ d. (fragment_type_checked s errors ps d ≡ some []) ↔ allowed) (sym found)
          (rw (composite, fragment_type_checked)
            (emit_unless_iff errors some_error
              (overlap-Decides (possible-Present t) (parents-Present parent parent.kind ps h)))))
