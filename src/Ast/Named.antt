-- ===== src/Ast/Named.antt =====
-- What the loops of ast/collections.go look for, as relations on lists.
use gqlparser.Base.{◌↔◌}
use gqlparser.Ast.Definition.{ArgumentDefinition, Definition, FieldDefinition}
use gqlparser.Ast.Lookup.{argument_definition_for_name, field_for_name, definition_for_name}
use mathlib.Core.Path.{subst}
use gqlparser.Ast.Lookup.{first_named}
use gqlparser.Base.{
  false, Bytes, bytes_eq, bytes_eq_iff, Bool-cases, List, [], ◌∷◌, some, ◌≡◌, ◌≢◌, refl, inl, inr,
}

module _ {A : Type 0} (key : A → Bytes) (name : Bytes) where
  -- The item is the first one of the list that has the name.
  pub data FirstNamed : List A → A → Type 0 where
    named_first : {a : A} {l : List A} → key a ≡ name → FirstNamed (a ∷ l) a
    named_later : {a b : A} {l : List A} → key b ≢ name → FirstNamed l a → FirstNamed (b ∷ l) a

  -- Some item of the list has the name.
  pub data HasNamed : List A → Type 0 where
    has_here : {a : A} {l : List A} → key a ≡ name → HasNamed (a ∷ l)
    has_later : {a : A} {l : List A} → HasNamed l → HasNamed (a ∷ l)

other_name : (a b : Bytes) → bytes_eq a b ≡ false → a ≢ b
other_name a b e same = cc (e, (bytes_eq_iff a b).1 same)

name_differs : (a b : Bytes) → a ≢ b → bytes_eq a b ≡ false
name_differs a b other = elim (Bool-cases (bytes_eq a b)) [
  | inl e ↦ elim (other ((bytes_eq_iff a b).0 e)) [ ]
  | inr e ↦ e
]

module _ {A : Type 0} (key : A → Bytes) where
  pub first_named-FirstNamed :
      (name : Bytes) (l : List A) (a : A)
      → first_named key name l ≡ some a
      → FirstNamed key name l a
  unfolding first_named
  first_named-FirstNamed name [] a h = cc h
  first_named-FirstNamed name (b ∷ l) a h = elim (Bool-cases (bytes_eq (key b) name)) [
    | inl e ↦
        let same : b ≡ a = cc (rw e at h) in
        subst (λ x. FirstNamed key name (b ∷ l) x) same
          (named_first ((bytes_eq_iff (key b) name).0 e))
    | inr e ↦ named_later (other_name (key b) name e) (first_named-FirstNamed name l a (rw e at h))
  ]

  pub FirstNamed-first_named :
      {name : Bytes} {l : List A} {a : A}
      → FirstNamed key name l a
      → first_named key name l ≡ some a
  unfolding first_named
  FirstNamed-first_named {name} (named_first {a} e) = rw ((bytes_eq_iff (key a) name).1 e) refl
  FirstNamed-first_named {name} (named_later {b = b} other h) =
      rw (name_differs (key b) name other) (FirstNamed-first_named h)

  pub FirstNamed-HasNamed :
      {name : Bytes} {l : List A} {a : A} → FirstNamed key name l a → HasNamed key name l
  FirstNamed-HasNamed (named_first e) = has_here e
  FirstNamed-HasNamed (named_later other h) = has_later (FirstNamed-HasNamed h)

  pub HasNamed-some :
      {name : Bytes} {l : List A}
      → HasNamed key name l
      → (a : A) × (first_named key name l ≡ some a)
  unfolding first_named
  HasNamed-some {name} (has_here {a} e) = (a, rw ((bytes_eq_iff (key a) name).1 e) refl)
  HasNamed-some {name} (has_later {a} h) = elim (Bool-cases (bytes_eq (key a) name)) [
    | inl e ↦ (a, rw e refl)
    | inr e ↦ let (b, found) = HasNamed-some h in (b, rw e found)
  ]

  pub first_named_iff :
      (name : Bytes) (l : List A) (a : A)
      → (first_named key name l ≡ some a) ↔ FirstNamed key name l a
  first_named_iff name l a = (first_named-FirstNamed name l a, FirstNamed-first_named)

pub argument_definition_for_name_iff :
    (name : Bytes) (l : List ArgumentDefinition) (a : ArgumentDefinition)
    → (argument_definition_for_name name l ≡ some a)
      ↔ FirstNamed (λ (d : ArgumentDefinition). d.name) name l a
unfolding argument_definition_for_name
argument_definition_for_name_iff = first_named_iff (λ (d : ArgumentDefinition). d.name)

pub field_for_name_iff :
    (name : Bytes) (l : List FieldDefinition) (a : FieldDefinition)
    → (field_for_name name l ≡ some a) ↔ FirstNamed (λ (d : FieldDefinition). d.name) name l a
unfolding field_for_name
field_for_name_iff = first_named_iff (λ (d : FieldDefinition). d.name)

pub definition_for_name_iff :
    (name : Bytes) (l : List Definition) (a : Definition)
    → (definition_for_name name l ≡ some a) ↔ FirstNamed (λ (d : Definition). d.name) name l a
unfolding definition_for_name
definition_for_name_iff = first_named_iff (λ (d : Definition). d.name)

pub argument_definition_for_name-some :
    (name : Bytes) (l : List ArgumentDefinition) (a : ArgumentDefinition)
    → first_named (λ (d : ArgumentDefinition). d.name) name l ≡ some a
    → argument_definition_for_name name l ≡ some a
unfolding argument_definition_for_name
argument_definition_for_name-some name l a h = h
