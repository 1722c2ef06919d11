-- ===== src/Validator/Schema/Sound/Implements.antt =====
-- What validator/schema.go: `validateImplements` accepts.
use gqlparser.Ast.Named.{
  FirstNamed, HasNamed, FirstNamed-HasNamed, HasNamed-some, argument_definition_for_name_iff,
  argument_definition_for_name-some, field_for_name_iff, definition_for_name_iff,
}
use gqlparser.Validator.Schema.Sound.Distinct.{definition_key}
use mathlib.Core.Path.{subst}
use gqlparser.Validator.Schema.Sound.Logic.{then-fine, check_all-Every, refuse_if-fine, Every}
use gqlparser.Validator.Schema.Implements.{
  implements_interface, field_found, required_arguments, is_extra, is_interface, argument_found,
  extra_arguments, validate_implements, covariant_check, is_nil,
}
use gqlparser.Ast.TypeRef.{is_compatible, is_non_null}
use gqlparser.Validator.Schema.Sound.Covariant.{covariant_sound, covariant_complete, CovariantTo}
use gqlparser.Ast.Lookup.{argument_definition_for_name, field_for_name}
use gqlparser.Ast.Definition.{
  DefinitionKind, interface_kind, ArgumentDefinition, Definition, FieldDefinition,
}
use gqlparser.Validator.Schema.State.{fine, type_named, Schema}
use gqlparser.Base.{
  arith, Bool, true, false, not, Bytes, ◌≡◌, refl, Option, none, some, inl, inr, Bool-cases, ◌↔◌,
}

abbrev pub argument_key : ArgumentDefinition → Bytes
argument_key d = d.name

abbrev pub field_key : FieldDefinition → Bytes
field_key d = d.name

-- The field has an argument of the name, and `IsCompatible` lets the type of the interface's argument
-- stand where that of the first such argument is asked for.
pub data HasArgument (found : FieldDefinition) (arg : ArgumentDefinition) : Type 0 where
  has_argument :
      {a : ArgumentDefinition}
      → FirstNamed argument_key arg.name found.arguments a
      → is_compatible arg.type_ref a.type_ref ≡ true
      → HasArgument found arg

-- An argument that the interface's field does not have may be left off.
pub data MayBeLeftOff (required : FieldDefinition) (arg : ArgumentDefinition) : Type 0 where
  is_known : HasNamed argument_key arg.name required.arguments → MayBeLeftOff required arg
  is_nullable : is_non_null arg.type_ref ≡ false → MayBeLeftOff required arg
  has_default : is_nil arg.default_value ≡ false → MayBeLeftOff required arg

-- The definition has a field for that of the interface.
pub data HasField (s : Schema) (d : Definition) (required : FieldDefinition) : Type 0 where
  has_field :
      {found : FieldDefinition}
      → FirstNamed field_key required.name d.fields found
      → CovariantTo s required.type_ref found.type_ref
      → Every (HasArgument found) required.arguments
      → Every (MayBeLeftOff required) found.arguments
      → HasField s d required

-- The definition implements the interface of that name.
pub data Implements (s : Schema) (d : Definition) (name : Bytes) : Type 0 where
  implements :
      {i : Definition}
      → FirstNamed definition_key name s.types i
      → i.kind ≡ interface_kind
      → Every (HasField s d) i.fields
      → Implements s d name

not-false : (b : Bool) → not b ≡ false → b ≡ true
not-false b h = ground arith

true-not : {b : Bool} → b ≡ true → not b ≡ false
true-not h = rw h refl

module _ (s : Schema) (d_name i_name : Bytes) (required found : FieldDefinition) where
  argument_sound :
      (arg : ArgumentDefinition) (o : Option ArgumentDefinition)
      → argument_definition_for_name arg.name found.arguments ≡ o
      → argument_found s d_name i_name required arg found o ≡ fine
      → HasArgument found arg
  unfolding argument_found
  argument_sound arg none e h = cc
  argument_sound arg (some a) e h =
      has_argument ((argument_definition_for_name_iff _ _ _).0 e)
        (not-false (is_compatible arg.type_ref a.type_ref) ((refuse_if-fine _ _ _).0 h))

  argument_complete :
      (arg : ArgumentDefinition) (o : Option ArgumentDefinition)
      → argument_definition_for_name arg.name found.arguments ≡ o
      → HasArgument found arg
      → argument_found s d_name i_name required arg found o ≡ fine
  unfolding argument_found
  argument_complete arg none e (has_argument n c) =
      cc (e, (argument_definition_for_name_iff arg.name found.arguments _).1 n)
  argument_complete arg (some a) e (has_argument {a = b} n c) =
      let same : b ≡ a =
        cc (e, (argument_definition_for_name_iff arg.name found.arguments b).1 n) in
      (refuse_if-fine _ _ _).1
        (true-not (subst (λ x. is_compatible arg.type_ref x.type_ref ≡ true) same c))

  required_arguments-fine :
      (required_arguments s d_name i_name required found ≡ fine)
      ↔ Every (HasArgument found) required.arguments
  unfolding required_arguments
  required_arguments-fine =
      check_all-Every _ required.arguments
        (λ arg. (argument_sound arg _ refl, argument_complete arg _ refl))

  extra_sound :
      (arg : ArgumentDefinition) (o : Option ArgumentDefinition)
      → argument_definition_for_name arg.name required.arguments ≡ o
      → is_extra s d_name i_name o arg ≡ false
      → MayBeLeftOff required arg
  extra_sound arg (some a) e h =
      is_known (FirstNamed-HasNamed argument_key ((argument_definition_for_name_iff _ _ _).0 e))
  extra_sound arg none e h = elim (Bool-cases (is_non_null arg.type_ref)) [
    | inl nn ↦ has_default (rw nn at h)
    | inr nullable ↦ is_nullable nullable
  ]

  extra_complete :
      (arg : ArgumentDefinition) (o : Option ArgumentDefinition)
      → argument_definition_for_name arg.name required.arguments ≡ o
      → MayBeLeftOff required arg
      → is_extra s d_name i_name o arg ≡ false
  extra_complete arg (some a) e m = refl
  extra_complete arg none e (is_known n) =
      let (a, found_it) = HasNamed-some argument_key n in
      cc (e, argument_definition_for_name-some arg.name required.arguments a found_it)
  extra_complete arg none e (is_nullable h) = rw h refl
  extra_complete arg none e (has_default h) = ground arith

  extra_arguments-fine :
      (extra_arguments s d_name i_name required found ≡ fine)
      ↔ Every (MayBeLeftOff required) found.arguments
  unfolding extra_arguments
  extra_arguments-fine = check_all-Every _ found.arguments (λ arg. (
    λ h. extra_sound arg _ refl ((refuse_if-fine _ _ _).0 h),
    λ m. (refuse_if-fine _ _ _).1 (extra_complete arg _ refl m),
  ))

  covariant_check-fine :
      (o : Option Bool)
      → (covariant_check s d_name i_name required found o ≡ fine) ↔ (o ≡ some true)
  unfolding covariant_check
  covariant_check-fine none = (λ h. cc, λ h. cc)
  covariant_check-fine (some true) = (λ h. refl, λ h. refl)
  covariant_check-fine (some false) = (λ h. cc, λ h. cc)

module _ (s : Schema) (d : Definition) (i_name : Bytes) (required : FieldDefinition) where
  field_sound :
      (o : Option FieldDefinition)
      → field_for_name required.name d.fields ≡ o
      → field_found s d.name i_name d required o ≡ fine
      → HasField s d required
  unfolding field_found
  field_sound none e h = cc
  field_sound (some found) e h =
      let (covariant, arguments) = (then-fine _ _).0 h in
      let (has, extra) = (then-fine _ _).0 arguments in
      has_field ((field_for_name_iff _ _ _).0 e)
        (covariant_sound s required.type_ref found.type_ref
          ((covariant_check-fine s d.name i_name required found _).0 covariant))
        ((required_arguments-fine s d.name i_name required found).0 has)
        ((extra_arguments-fine s d.name i_name required found).0 extra)

  field_complete :
      (o : Option FieldDefinition)
      → field_for_name required.name d.fields ≡ o
      → HasField s d required
      → field_found s d.name i_name d required o ≡ fine
  unfolding field_found
  field_complete none e (has_field n c has extra) =
      cc (e, (field_for_name_iff required.name d.fields _).1 n)
  field_complete (some b) e (has_field {found} n c has extra) =
      let same : found ≡ b = cc (e, (field_for_name_iff required.name d.fields found).1 n) in
      subst (λ x. field_found s d.name i_name d required (some x) ≡ fine) same
        ((then-fine _ _).1 (
          (covariant_check-fine s d.name i_name required found _).1 (covariant_complete s c),
          (then-fine _ _).1 (
            (required_arguments-fine s d.name i_name required found).1 has,
            (extra_arguments-fine s d.name i_name required found).1 extra,
          ),
        ))

is_interface-true : (k : DefinitionKind) → (is_interface k ≡ true) ↔ (k ≡ interface_kind)
unfolding is_interface
is_interface-true interface_kind = (λ h. refl, λ h. refl)
is_interface-true _ = (λ h. cc, λ h. cc)

module _ (s : Schema) (d : Definition) (name : Bytes) where
  Implements-sound :
      (o : Option Definition)
      → type_named s name ≡ o
      → implements_interface s d name o ≡ fine
      → Implements s d name
  unfolding implements_interface
  Implements-sound none e h = cc
  Implements-sound (some i) e h =
      let (kind, fields) = (then-fine _ _).0 h in
      implements ((definition_for_name_iff _ _ _).0 e)
        ((is_interface-true i.kind).0
          (not-false (is_interface i.kind) ((refuse_if-fine _ _ _).0 kind)))
        ((check_all-Every _ i.fields
            (λ r. (field_sound s d i.name r _ refl, field_complete s d i.name r _ refl))).0
          fields)

  Implements-complete :
      (o : Option Definition)
      → type_named s name ≡ o
      → Implements s d name
      → implements_interface s d name o ≡ fine
  unfolding implements_interface
  Implements-complete none e (implements n k fields) =
      cc (e, (definition_for_name_iff name s.types _).1 n)
  Implements-complete (some b) e (implements {i} n k fields) =
      let same : i ≡ b = cc (e, (definition_for_name_iff name s.types i).1 n) in
      subst (λ x. implements_interface s d name (some x) ≡ fine) same
        ((then-fine _ _).1 (
          (refuse_if-fine _ _ _).1 (true-not ((is_interface-true i.kind).1 k)),
          (check_all-Every _ i.fields
                (λ r. (field_sound s d i.name r _ refl, field_complete s d i.name r _ refl))).1
              fields,
        ))

  -- validateImplements is passed exactly where the first type of the name is an interface and for
  -- every field of it the definition's first field of that name has a covariant type, has each of its
  -- arguments, with a type where IsCompatible lets the interface's stand, and has no further argument
  -- that is non-null without a default value.
  pub validate_implements-Implements : (validate_implements s d name ≡ fine) ↔ Implements s d name
  unfolding validate_implements
  validate_implements-Implements =
      (Implements-sound (type_named s name) refl, Implements-complete (type_named s name) refl)
