-- ===== src/Validator/Rules/Arguments.antt =====
-- The rules KnownArgumentNames and ProvidedRequiredArguments on the arguments of a node.
use gqlparser.Ast.Definition.{ArgumentDefinition}
use gqlparser.Ast.Document.{Argument}
use gqlparser.Ast.Lookup.{argument_definition_for_name}
use gqlparser.Ast.Named.{
  HasNamed, has_here, has_later, FirstNamed-HasNamed, HasNamed-some,
  argument_definition_for_name_iff, argument_definition_for_name-some,
}
use gqlparser.Ast.Source.{Position}
use gqlparser.Ast.TypeRef.{is_non_null}
use gqlparser.Base.{
  Bool, true, false, not, ◌&&◌, Bytes, bytes_eq, bytes_eq_iff, Bool-cases, List, [], ◌∷◌, Option,
  none, some, ◌≡◌, ◌↔◌, refl, if◌then◌else◌, inl, inr,
}
use gqlparser.Validator.Rules.Clean.{for_each_iff}
use gqlparser.Validator.Rules.Fields.{is_given, required_provided}
use gqlparser.Validator.Rules.Known.{known_arguments, unless_found}
use gqlparser.Validator.Rules.Rule.{RuleMessage, add_error}
use gqlparser.Validator.Schema.Implements.{is_nil}
use gqlparser.Validator.Schema.Sound.Implements.{argument_key}
use gqlparser.Validator.Schema.Sound.Logic.{Every}

-- An argument of a node has the name of an argument that is defined.
pub IsDefined : List ArgumentDefinition → Argument → Type 0
IsDefined defs arg = HasNamed argument_key arg.name defs

unless_found_iff :
    (m : RuleMessage) (pos : Option Position) (name : Bytes) (defs : List ArgumentDefinition)
    (o : Option ArgumentDefinition)
    → argument_definition_for_name name defs ≡ o
    → (unless_found m pos o ≡ []) ↔ HasNamed argument_key name defs
unless_found_iff m pos name defs none e = (
  λ h. cc h,
  λ n.
      let (a, found) = HasNamed-some argument_key n in
      cc (e, argument_definition_for_name-some name defs a found),
)
unless_found_iff m pos name defs (some a) e = (
  λ h. FirstNamed-HasNamed argument_key ((argument_definition_for_name_iff name defs a).0 e),
  λ n. refl,
)

-- The loop of KnownArgumentNames reports nothing exactly where every argument has the name of one
-- that is defined.
pub known_arguments-IsDefined :
    (complain : Bytes → RuleMessage) (pos : Option Position) (defs : List ArgumentDefinition)
    (args : List Argument)
    → (known_arguments complain pos defs args ≡ []) ↔ Every (IsDefined defs) args
unfolding known_arguments IsDefined
known_arguments-IsDefined complain pos defs =
    for_each_iff _ (λ arg. unless_found_iff (complain arg.name) pos arg.name defs _ refl)

is_given-HasNamed :
    (name : Bytes) (args : List Argument)
    → (is_given name args ≡ true) ↔ HasNamed (λ (a : Argument). a.name) name args
unfolding is_given
is_given-HasNamed name [] = (λ h. cc h, λ n. elim n [ ])
is_given-HasNamed name (a ∷ args) = elim (Bool-cases (bytes_eq a.name name)) [
  | inl e ↦ (λ h. has_here ((bytes_eq_iff a.name name).0 e), λ n. rw e refl)
  | inr e ↦ (
    λ h. has_later ((is_given-HasNamed name args).0 (rw e at h)),
    λ n. rw e ((is_given-HasNamed name args).1 (rest e n)),
  )
]
  where
    rest :
        bytes_eq a.name name ≡ false
        → HasNamed (λ (a : Argument). a.name) name (a ∷ args)
        → HasNamed (λ (a : Argument). a.name) name args
    rest e (has_here same) = cc (e, (bytes_eq_iff a.name name).1 same)
    rest e (has_later n) = n

-- An argument may be left out where it is nullable or has a default value.
pub data Provided (args : List Argument) (d : ArgumentDefinition) : Type 0 where
  nullable : is_non_null d.type_ref ≡ false → Provided args d
  defaulted : is_nil d.default_value ≡ false → Provided args d
  given : HasNamed (λ (a : Argument). a.name) d.name args → Provided args d

required_iff :
    (args : List Argument) (d : ArgumentDefinition) (m : RuleMessage) (pos : Option Position)
    (required bare named : Bool)
    → is_non_null d.type_ref ≡ required
    → is_nil d.default_value ≡ bare
    → is_given d.name args ≡ named
    → ((if required && bare && not named then add_error m pos else []) ≡ []) ↔ Provided args d
required_iff args d m pos false bare named r b h = (λ e. nullable r, λ p. refl)
required_iff args d m pos true false named r b h = (λ e. defaulted b, λ p. refl)
required_iff args d m pos true true true r b h =
    (λ e. given ((is_given-HasNamed d.name args).0 h), λ p. refl)
required_iff args d m pos true true false r b h = (
  λ e. cc e,
  λ p. elim p [
    | nullable k ↦ cc (r, k)
    | defaulted k ↦ cc (b, k)
    | given k ↦ cc (h, (is_given-HasNamed d.name args).1 k)
  ],
)

-- The loop of ProvidedRequiredArguments reports nothing exactly where every defined argument is
-- nullable, has a default value or is given: some argument has its name.
pub required_provided-Provided :
    (complain : ArgumentDefinition → RuleMessage) (pos : Option Position) (args : List Argument)
    (defs : List ArgumentDefinition)
    → (required_provided complain pos args defs ≡ []) ↔ Every (Provided args) defs
unfolding required_provided
required_provided-Provided complain pos args = for_each_iff _ (λ d.
    required_iff args d (complain d) pos (is_non_null d.type_ref) (is_nil d.default_value)
      (is_given d.name args) refl refl refl)
