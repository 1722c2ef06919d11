-- ===== src/Validator/Rules/Rule.antt =====
-- validator/rules/: what rules report, and how a rule runs over the events of a walk. Suggestions,
-- which other functions add to a message, are left out.
use gqlparser.Ast.Source.{Position}
use gqlparser.Ast.TypeRef.{TypeRef}
use gqlparser.Ast.Value.{Value}
use gqlparser.Base.{Bytes, List, [], ◌∷◌, ◌++◌, Option}
use gqlparser.Validator.Walk.Event.{Event}

-- The messages of the rules, by their format string; operands stand in its order.
pub data RuleMessage : Type 0 where
  repeated_argument : Bytes → RuleMessage
  repeated_directive : Bytes → RuleMessage
  repeated_fragment : Bytes → RuleMessage
  repeated_input_field : Bytes → RuleMessage
  repeated_operation : Bytes → RuleMessage
  repeated_variable : Bytes → RuleMessage
  not_the_only_operation : RuleMessage
  unknown_fragment : Bytes → RuleMessage
  unknown_directive : Bytes → RuleMessage
  misplaced_directive : Bytes → Bytes → RuleMessage
  unknown_field_argument : Bytes → Bytes → Bytes → RuleMessage
  unknown_directive_argument : Bytes → Bytes → RuleMessage
  unknown_type : Option Bytes → RuleMessage
  unused_fragment : Bytes → RuleMessage
  unused_variable : Bytes → RuleMessage
  unused_variable_in : Bytes → Bytes → RuleMessage
  undefined_variable : Value → RuleMessage
  undefined_variable_in : Value → Bytes → RuleMessage
  not_input_variable : Bytes → TypeRef → RuleMessage
  inline_not_composite : Bytes → RuleMessage
  fragment_not_composite : Bytes → Bytes → RuleMessage
  field_argument_missing : Bytes → Bytes → TypeRef → RuleMessage
  directive_argument_missing : Bytes → Bytes → TypeRef → RuleMessage
  leaf_with_selection : Bytes → Bytes → RuleMessage
  no_selection : Bytes → TypeRef → RuleMessage
  many_subscription_fields : Bytes → RuleMessage
  impossible_inline : Bytes → Bytes → RuleMessage
  impossible_spread : Bytes → Bytes → Bytes → RuleMessage

pub record RuleError : Type 0 where
  pub message : RuleMessage
  pub at : Option Position

-- A call of `addError`
abbrev pub add_error : RuleMessage → Option Position → List RuleError
add_error m p = record { message = m; at = p } ∷ []

-- A rule with variables of its own, which its observers share
unfoldable pub run :
    {S : Type 0} → (Event → S → S × List RuleError) → S → List Event → List RuleError
run observe st [] = []
run observe st (e ∷ es) = let r = observe e st in r.1 ++ run observe r.0 es

-- The errors of each item in turn: a loop whose body keeps nothing, and a rule with no variables
unfoldable pub for_each : {A : Type 0} → (A → List RuleError) → List A → List RuleError
for_each f [] = []
for_each f (a ∷ l) = f a ++ for_each f l
