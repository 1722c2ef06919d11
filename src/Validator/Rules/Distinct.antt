-- ===== src/Validator/Rules/Distinct.antt =====
-- The loop of the rules on unique names finds an error exactly where a name is repeated.
use gqlparser.Base.{Every-both}
use gqlparser.Ast.Lookup.{first_named}
use gqlparser.Base.{
  false, Bool-cases, Bytes, bytes_eq, List, [], ◌∷◌, Option, none, ◌≡◌, ◌↔◌, refl, inl, inr,
}
use gqlparser.Validator.Schema.Sound.Distinct.{
  Distinct, no_item, once, bytes_eq-false, absent_nil, absent_parts, absent_cons,
}
use gqlparser.Validator.Schema.Sound.Logic.{Every, nothing, each_one, Every-map}
use gqlparser.Validator.Rules.Rule.{RuleMessage}
use gqlparser.Validator.Rules.Unique.{refuse_repeated}
use gqlparser.Validator.Walk.Selection.{is_member}
use gqlparser.Ast.Source.{Position}

is_member_new :
    (a b : Bytes) (known : List Bytes)
    → is_member a (b ∷ known) ≡ false
    → (bytes_eq b a ≡ false) × (is_member a known ≡ false)
unfolding is_member
is_member_new a b known h = elim (Bool-cases (bytes_eq b a)) [
  | inl e ↦ cc (rw e at h)
  | inr e ↦ (e, rw e at h)
]

is_member_other :
    (a b : Bytes) (known : List Bytes)
    → bytes_eq b a ≡ false
    → is_member a known ≡ false
    → is_member a (b ∷ known) ≡ false
unfolding is_member
is_member_other a b known e h = rw e h

module _ {A : Type 0} (key : A → Bytes) where
  -- None of the names is known.
  New : List Bytes → List A → Type 0
  New known = Every (λ a. is_member (key a) known ≡ false)

  Absent : Bytes → List A → Type 0
  Absent n = Every (λ a. bytes_eq n (key a) ≡ false)

  New-nil : (l : List A) → New [] l
  unfolding New is_member
  New-nil [] = nothing
  New-nil (a ∷ l) = each_one refl (New-nil l)

  first_named-Absent : (n : Bytes) (l : List A) → first_named key n l ≡ none → Absent n l
  unfolding Absent
  first_named-Absent n [] h = nothing
  first_named-Absent n (a ∷ l) h =
      let (other, rest) = absent_parts key n a l h in
      each_one (bytes_eq-false (key a) n other) (first_named-Absent n l rest)

  Absent-first_named : (n : Bytes) (l : List A) → Absent n l → first_named key n l ≡ none
  unfolding Absent
  Absent-first_named n [] nothing = absent_nil key n
  Absent-first_named n (a ∷ l) (each_one e es) =
      absent_cons key n a l (bytes_eq-false n (key a) e) (Absent-first_named n l es)

  module _ (complain : Bytes → RuleMessage) (place : A → Option Position) where
    refuse-New :
        (known : List Bytes) (l : List A)
        → refuse_repeated key complain place known l ≡ []
        → New known l × Distinct key l
    unfolding refuse_repeated New Absent
    refuse-New known [] h = (nothing, no_item)
    refuse-New known (a ∷ l) h = elim (Bool-cases (is_member (key a) known)) [
      | inl e ↦ cc (rw e at h)
      | inr e ↦
          let (new, distinct) = refuse-New (key a ∷ known) l (rw e at h) in
          let parts = Every-map (λ x. is_member_new (key x) (key a) known) new in
          (
            each_one e (Every-map (λ x p. p.1) parts),
            once (Absent-first_named (key a) l (Every-map (λ x p. p.0) parts)) distinct,
          )
    ]

    New-refuse :
        (known : List Bytes) {l : List A}
        → New known l
        → Distinct key l
        → refuse_repeated key complain place known l ≡ []
    unfolding refuse_repeated New Absent
    New-refuse known {l = []} new no_item = refl
    New-refuse known {l = a ∷ l} (each_one e es) (once absent more) = rw e (
        New-refuse (key a ∷ known)
          (Every-both (λ x. is_member_other (key x) (key a) known)
            (first_named-Absent (key a) l absent) es)
          more)

    -- A loop of the rules on unique names reports nothing exactly where the names are distinct.
    pub refuse_repeated-Distinct :
        (l : List A) → (refuse_repeated key complain place [] l ≡ []) ↔ Distinct key l
    refuse_repeated-Distinct l = (λ h. (refuse-New [] l h).1, λ d. New-refuse [] (New-nil l) d)
