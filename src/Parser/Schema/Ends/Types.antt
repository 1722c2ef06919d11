-- ===== src/Parser/Schema/Ends/Types.antt =====
-- parser/schema.go: definitions and extensions end.
use gqlparser.Parser.Selection.{on}
use gqlparser.Parser.Value.{parse_name}
use gqlparser.Parser.Fuel.Value.{Consumes-parse_name}
use gqlparser.Parser.Fuel.Many.{Keeps-at_least_one}
use gqlparser.Parser.Schema.Fields.{parse_operation_type_definition}
use gqlparser.Parser.Schema.Ends.Fields.{
  Keeps-locations, Consumes-operation_type, Keeps-argument_defs, Keeps-input_fields, Keeps-fields,
  Keeps-members, Keeps-enum_values, Keeps-implements,
}
use gqlparser.Parser.Fuel.Arguments.{Keeps-directives}
use gqlparser.Lexer.Token.{name, kind_eq, at, brace_r, brace_l}
use gqlparser.Parser.Many.{at_least_one}
use gqlparser.Parser.State.{◌>>=◌, peek_pos, ◌>>◌, expect_keyword, M}
use gqlparser.Parser.Fuel.Flow.{
  Consumes-Starts, Consumes-expect, Consumes-if, Keeps-peek_pos, Consumes-Keeps, Keeps-return,
  Keeps-peek, Consumes-unexpected_error, Consumes-expect_keyword, bind-Consumes, Keeps-bind,
  Consumes-bind, Consumes, Keeps-if, Keeps,
}
use gqlparser.Parser.Schema.Extensions.{unless_empty}
use gqlparser.Parser.Schema.Types.{
  type_system_cases, parse_type_system_definition, parse_input_object_type_definition,
  parse_scalar_type_definition, found, parse_interface_type_definition, parse_directive_definition,
  parse_enum_type_definition, parse_schema_definition, parse_object_type_definition,
  parse_union_type_definition, no_definition,
}
use gqlparser.Base.{ℕ, refl, none, some, true, Bool, Bytes, Option, codes, not}
use gqlparser.Ast.Definition.{Definition}
use gqlparser.Ast.Source.{Position}

module _ {f : ℕ} where
  -- A keyword, a position and a name begin every definition of a type.
  pub headed :
      {A : Type 0} (word : Bytes) (k : Option Position → Bytes → M A)
      → ((pos : Option Position) (n : Bytes) → Keeps f (k pos n))
      → Consumes f (expect_keyword word >> (peek_pos >>= λ pos. parse_name >>= λ n. k pos n))
  headed word k each = Consumes-bind (Consumes-expect_keyword word) (λ _.
      Keeps-bind Keeps-peek_pos
        (λ pos. Keeps-bind (Consumes-Keeps Consumes-parse_name) (λ n. each pos n)))

  pub Keeps-unless_empty : {A : Type 0} (nothing : Bool) (a : A) → Keeps f (unless_empty nothing a)
  unfolding unless_empty
  Keeps-unless_empty nothing a =
      Keeps-if nothing (Keeps-bind (Consumes-Keeps Consumes-unexpected_error) (λ _. Keeps-return a))
        (Keeps-return a)

module _ (f : ℕ) where
  pub Keeps-operation_types :
      Keeps f (at_least_one f brace_l brace_r (parse_operation_type_definition f))
  Keeps-operation_types =
      Keeps-at_least_one f brace_l brace_r (parse_operation_type_definition f)
        (Consumes-Starts (Consumes-operation_type f)) (unfold kind_eq in refl)

  pub Consumes-schema : (description : Bytes) → Consumes f (parse_schema_definition f description)
  unfolding parse_schema_definition
  Consumes-schema description = Consumes-bind (Consumes-expect_keyword (codes "schema")) (λ _.
      Keeps-bind Keeps-peek_pos (λ pos.
        Keeps-bind (Keeps-directives f true)
          (λ ds. Keeps-bind Keeps-operation_types (λ ops. Keeps-return _))))

  Consumes-scalar : (description : Bytes) → Consumes f (parse_scalar_type_definition f description)
  unfolding parse_scalar_type_definition
  Consumes-scalar description =
      headed (codes "scalar") _
        (λ pos n. Keeps-bind (Keeps-directives f true) (λ ds. Keeps-return _))

  Consumes-object : (description : Bytes) → Consumes f (parse_object_type_definition f description)
  unfolding parse_object_type_definition
  Consumes-object description = headed (codes "type") _ (λ pos n.
      Keeps-bind (Keeps-implements f) (λ interfaces.
        Keeps-bind (Keeps-directives f true)
          (λ ds. Keeps-bind (Keeps-fields f) (λ fields. Keeps-return _))))

  Consumes-interface :
      (description : Bytes) → Consumes f (parse_interface_type_definition f description)
  unfolding parse_interface_type_definition
  Consumes-interface description = headed (codes "interface") _ (λ pos n.
      Keeps-bind (Keeps-directives f true)
        (λ ds. Keeps-bind (Keeps-fields f) (λ fields. Keeps-return _)))

  Consumes-union : (description : Bytes) → Consumes f (parse_union_type_definition f description)
  unfolding parse_union_type_definition
  Consumes-union description = headed (codes "union") _ (λ pos n.
      Keeps-bind (Keeps-directives f true)
        (λ ds. Keeps-bind (Keeps-members f) (λ types. Keeps-return _)))

  Consumes-enum : (description : Bytes) → Consumes f (parse_enum_type_definition f description)
  unfolding parse_enum_type_definition
  Consumes-enum description = headed (codes "enum") _ (λ pos n.
      Keeps-bind (Keeps-directives f true)
        (λ ds. Keeps-bind (Keeps-enum_values f) (λ values. Keeps-return _)))

  Consumes-input :
      (description : Bytes) → Consumes f (parse_input_object_type_definition f description)
  unfolding parse_input_object_type_definition
  Consumes-input description = headed (codes "input") _ (λ pos n.
      Keeps-bind (Keeps-directives f true)
        (λ ds. Keeps-bind (Keeps-input_fields f) (λ fields. Keeps-return _)))

  Consumes-no_definition : Consumes f (no_definition f)
  unfolding no_definition
  Consumes-no_definition = Consumes-bind Consumes-unexpected_error (λ _. Keeps-return none)

  Consumes-found : (m : M Definition) → Consumes f m → Consumes f (found f m)
  unfolding found
  Consumes-found m c = Consumes-bind c (λ d. Keeps-return (some d))

  Consumes-cases : (word description : Bytes) → Consumes f (type_system_cases f word description)
  unfolding type_system_cases
  Consumes-cases word description = Consumes-if _ (Consumes-found _ (Consumes-scalar description)) (
      Consumes-if _ (Consumes-found _ (Consumes-object description)) (
        Consumes-if _ (Consumes-found _ (Consumes-interface description)) (
          Consumes-if _ (Consumes-found _ (Consumes-union description)) (
            Consumes-if _ (Consumes-found _ (Consumes-enum description)) (
              Consumes-if _ (Consumes-found _ (Consumes-input description))
                Consumes-no_definition)))))

  pub Consumes-type_system :
      (description : Bytes) → Consumes f (parse_type_system_definition f description)
  unfolding parse_type_system_definition
  Consumes-type_system description = bind-Consumes Keeps-peek (λ tok.
      Consumes-if (not (kind_eq tok.kind name)) Consumes-no_definition
        (Consumes-cases tok.value description))

  pub Consumes-directive_definition :
      (description : Bytes) → Consumes f (parse_directive_definition f description)
  unfolding parse_directive_definition
  Consumes-directive_definition description =
      Consumes-bind (Consumes-expect_keyword (codes "directive")) (λ _.
        Keeps-bind (Consumes-Keeps (Consumes-expect at (unfold kind_eq in refl))) (λ _.
          Keeps-bind Keeps-peek_pos (λ pos. Keeps-bind (Consumes-Keeps Consumes-parse_name) (λ n.
            Keeps-bind (Keeps-argument_defs f) (λ args.
              Keeps-bind (Consumes-Keeps (Consumes-expect_keyword on))
                (λ _. Keeps-bind (Keeps-locations f) (λ locations. Keeps-return _)))))))
