-- ===== src/Parser/Schema/Ends/Fields.antt =====
-- parser/schema.go: what stands inside a definition, and the lists of names and locations, end.
use gqlparser.Parser.Many.{no_error}
use gqlparser.Parser.Fuel.Token.{Upto-le, skip-Ends}
use gqlparser.Parser.Fuel.Arguments.{Keeps-directives, Consumes-type}
use gqlparser.Parser.Fuel.Weight.{ends, weight, Ends-bind, Ends, Upto}
use gqlparser.Parser.Fuel.Value.{Consumes-value, Consumes-parse_name}
use gqlparser.Parser.Value.{parse_directives, parse_value_literal, parse_type_reference, parse_name}
use gqlparser.Parser.Fuel.Query.{Keeps-operation_type}
use gqlparser.Parser.Fuel.Many.{Ends-turn, Keeps-at_least_one}
use gqlparser.Ast.Document.{Directive}
use gqlparser.Ast.Value.{nil_value, Value}
use gqlparser.Parser.Query.{parse_operation_type}
use gqlparser.Parser.State.{return, skip, ◌>>=◌, Parser, ◌>>◌, expect, M}
use gqlparser.Parser.Fuel.Flow.{
  Consumes-unexpected_token, Consumes-Starts, Keeps-return, Keeps-next, Keeps-if, Consumes-expect,
  Consumes-bind, Consumes-Keeps, Keeps-peek, Keeps-skip, Keeps-peek_pos, bind-Consumes, Keeps-bind,
  Keeps, Consumes,
}
use gqlparser.Lexer.Token.{
  amp, name, equals, paren_r, colon, brace_r, eof, brace_l, paren_l, kind_eq, pipe, Kind,
}
use gqlparser.Ast.TypeRef.{TypeRef}
use gqlparser.Parser.Schema.Fields.{
  is_location, is_text, separated, led, parse_field_definition, parse_argument_defs,
  parse_input_fields_definition, parse_argument_def, parse_enum_value_definition,
  parse_input_value_def, parse_directive_location, parse_description, parse_fields_definition,
  parse_enum_values_definition, parse_directive_locations, parse_operation_type_definition,
  parse_union_member_types, parse_implements_interfaces,
}
use gqlparser.Base.{
  if◌then◌else◌, suc, zero, ◌<◌, ℕ, refl, true, false, [], ◌∷◌, ◌≤◌, ◌≡◌, arith, Bool, List, ◌&&◌,
  bytes_eq, codes,
}

pub Keeps-description : {f : ℕ} → Keeps f parse_description
unfolding parse_description
Keeps-description = Keeps-bind Keeps-peek (λ tok.
    Keeps-if (is_text tok.kind) (Keeps-bind Keeps-next (λ t. Keeps-return t.value))
      (Keeps-return []))

and_left : (a b : Bool) → (a && b) ≡ true → a ≡ true
and_left a b h = ground arith

module _ {A : Type 0} (f : ℕ) (sep : Kind) (item : M A) (is_sep : kind_eq sep eof ≡ false)
    (each : Keeps f item) where
  separated-Ends :
      (n w : ℕ) (p : Parser)
      → Upto w p
      → w < n
      → n ≤ f
      → Ends (λ _ q. Upto w q) (separated sep item n p)
  unfolding separated
  separated-Ends zero w p u h k = elim h [ ]
  separated-Ends (suc n) w p u h k = Ends-bind (skip-Ends sep p is_sep u.valid) (λ took q s.
      Ends-turn (took && no_error q.err)
        (λ on.
          let fewer = s.less (and_left took (no_error q.err) on) in
          let now : Upto (weight q) q = record { weight_le = omega arith; valid = s.upto.valid } in
          Ends-bind (each.keep (weight q) q now (omega (arith, fewer, u.weight_le, h, k))) (λ a r v.
            Ends-bind
              (separated-Ends n (weight q) r v (omega (arith, fewer, u.weight_le, h))
                (omega (arith, k)))
              (λ rest r' v'. ends (Upto-le (omega (arith, fewer, u.weight_le)) v'))))
        (ends (Upto-le u.weight_le s.upto)))

  pub Keeps-led : Keeps f (led sep item f)
  unfolding led
  Keeps-led = Keeps-bind (Keeps-skip sep is_sep) (λ _. Keeps-bind each (λ a.
      Keeps-bind (record { keep = λ w p u h. separated-Ends f w p u h (omega arith) })
        (λ rest. Keeps-return (a ∷ rest))))

module _ (f : ℕ) where
  pub Consumes-operation_type : Consumes f (parse_operation_type_definition f)
  unfolding parse_operation_type_definition parse_operation_type
  Consumes-operation_type = bind-Consumes Keeps-peek_pos (λ pos.
      bind-Consumes (Keeps-bind Keeps-next Keeps-operation_type) (λ operation.
        Consumes-bind (Consumes-expect colon (unfold kind_eq in refl))
          (λ _. Keeps-bind (Consumes-Keeps Consumes-parse_name) (λ n. Keeps-return _))))

  pub Keeps-implements : Keeps f (parse_implements_interfaces f)
  unfolding parse_implements_interfaces
  Keeps-implements = Keeps-bind Keeps-peek (λ tok.
      Keeps-if (bytes_eq tok.value (codes "implements"))
        (Keeps-bind Keeps-next (λ _.
          Keeps-led f amp parse_name (unfold kind_eq in refl) (Consumes-Keeps Consumes-parse_name)))
        (Keeps-return []))

  pub Keeps-members : Keeps f (parse_union_member_types f)
  unfolding parse_union_member_types
  Keeps-members = Keeps-bind (Keeps-skip equals (unfold kind_eq in refl)) (λ has.
      Keeps-if has
        (Keeps-led f pipe parse_name (unfold kind_eq in refl) (Consumes-Keeps Consumes-parse_name))
        (Keeps-return []))

  -- What an argument and an input field have in common, from the colon on.
  typed :
      {A : Type 0} (k : TypeRef → Value → List Directive → A)
      → Keeps f (
          expect colon
          >> (parse_type_reference f >>= λ t. skip equals >>= λ has.
              (if has then parse_value_literal true f else return nil_value) >>= λ d.
              parse_directives f true >>= λ ds. return (k t d ds)))
  typed k = Keeps-bind (Consumes-Keeps (Consumes-expect colon (unfold kind_eq in refl))) (λ _.
      Keeps-bind (Consumes-Keeps (Consumes-type f)) (λ t.
        Keeps-bind (Keeps-skip equals (unfold kind_eq in refl)) (λ has.
          Keeps-bind
            (Keeps-if has (Consumes-Keeps (Consumes-value true f)) (Keeps-return nil_value))
            (λ d. Keeps-bind (Keeps-directives f true) (λ ds. Keeps-return (k t d ds))))))

  Consumes-argument_def : Consumes f (parse_argument_def f)
  unfolding parse_argument_def
  Consumes-argument_def = bind-Consumes Keeps-peek_pos (λ pos.
      bind-Consumes Keeps-description
        (λ description. Consumes-bind Consumes-parse_name (λ n. typed _)))

  pub Keeps-argument_defs : Keeps f (parse_argument_defs f)
  unfolding parse_argument_defs
  Keeps-argument_defs =
      Keeps-at_least_one f paren_l paren_r (parse_argument_def f)
        (Consumes-Starts Consumes-argument_def) (unfold kind_eq in refl)

  Consumes-field_definition : Consumes f (parse_field_definition f)
  unfolding parse_field_definition
  Consumes-field_definition = bind-Consumes Keeps-peek_pos (λ pos.
      bind-Consumes Keeps-description (λ description. Consumes-bind Consumes-parse_name (λ n.
        Keeps-bind Keeps-argument_defs (λ args.
          Keeps-bind (Consumes-Keeps (Consumes-expect colon (unfold kind_eq in refl))) (λ _.
            Keeps-bind (Consumes-Keeps (Consumes-type f))
              (λ t. Keeps-bind (Keeps-directives f true) (λ ds. Keeps-return _)))))))

  pub Keeps-fields : Keeps f (parse_fields_definition f)
  unfolding parse_fields_definition
  Keeps-fields =
      Keeps-at_least_one f brace_l brace_r (parse_field_definition f)
        (Consumes-Starts Consumes-field_definition) (unfold kind_eq in refl)

  Consumes-input_value : Consumes f (parse_input_value_def f)
  unfolding parse_input_value_def
  Consumes-input_value = bind-Consumes Keeps-peek_pos (λ pos.
      bind-Consumes Keeps-description
        (λ description. Consumes-bind Consumes-parse_name (λ n. typed _)))

  pub Keeps-input_fields : Keeps f (parse_input_fields_definition f)
  unfolding parse_input_fields_definition
  Keeps-input_fields =
      Keeps-at_least_one f brace_l brace_r (parse_input_value_def f)
        (Consumes-Starts Consumes-input_value) (unfold kind_eq in refl)

  Consumes-enum_value : Consumes f (parse_enum_value_definition f)
  unfolding parse_enum_value_definition
  Consumes-enum_value = bind-Consumes Keeps-peek_pos (λ pos.
      bind-Consumes Keeps-description (λ description.
        Consumes-bind Consumes-parse_name
          (λ n. Keeps-bind (Keeps-directives f true) (λ ds. Keeps-return _))))

  pub Keeps-enum_values : Keeps f (parse_enum_values_definition f)
  unfolding parse_enum_values_definition
  Keeps-enum_values =
      Keeps-at_least_one f brace_l brace_r (parse_enum_value_definition f)
        (Consumes-Starts Consumes-enum_value) (unfold kind_eq in refl)

  Keeps-location : Keeps f parse_directive_location
  unfolding parse_directive_location
  Keeps-location =
      Keeps-bind (Consumes-Keeps (Consumes-expect name (unfold kind_eq in refl))) (λ tok.
        Keeps-if (is_location tok.value) (Keeps-return tok.value)
          (Keeps-bind (Consumes-Keeps (Consumes-unexpected_token tok)) (λ _. Keeps-return [])))

  pub Keeps-locations : Keeps f (parse_directive_locations f)
  unfolding parse_directive_locations
  Keeps-locations =
      Keeps-led f pipe parse_directive_location (unfold kind_eq in refl) Keeps-location
