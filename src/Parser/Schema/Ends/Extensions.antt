-- ===== src/Parser/Schema/Ends/Extensions.antt =====
-- parser/schema.go: extensions end.
use gqlparser.Parser.Fuel.Arguments.{Keeps-directives}
use gqlparser.Parser.Schema.Ends.Fields.{
  Keeps-enum_values, Keeps-members, Keeps-fields, Keeps-input_fields, Keeps-implements,
}
use gqlparser.Parser.Schema.Ends.Types.{Keeps-unless_empty, Keeps-operation_types, headed}
use gqlparser.Parser.Fuel.Flow.{
  Consumes-if, Consumes-Keeps, Keeps-peek, Keeps-peek_pos, Keeps-return, Keeps-bind,
  Consumes-expect_keyword, Consumes-unexpected_error, Consumes-bind, Consumes,
}
use gqlparser.Parser.State.{M}
use gqlparser.Parser.Schema.Extensions.{
  extension_cases, parse_object_type_extension, no_extension, add_schema_extension,
  parse_enum_type_extension, parse_interface_type_extension, parse_union_type_extension,
  parse_schema_extension, add_extension, parse_type_system_extension,
  parse_input_object_type_extension, parse_scalar_type_extension,
}
use gqlparser.Base.{Bytes, ℕ, true, false, codes}
use gqlparser.Ast.Definition.{Definition, SchemaDocument}

module _ (f : ℕ) where
  Consumes-schema_extension : Consumes f (parse_schema_extension f)
  unfolding parse_schema_extension
  Consumes-schema_extension = Consumes-bind (Consumes-expect_keyword (codes "schema")) (λ _.
      Keeps-bind Keeps-peek_pos (λ pos.
        Keeps-bind (Keeps-directives f true)
          (λ ds. Keeps-bind (Keeps-operation_types f) (λ ops. Keeps-unless_empty _ _))))

  Consumes-scalar : Consumes f (parse_scalar_type_extension f)
  unfolding parse_scalar_type_extension
  Consumes-scalar =
      headed (codes "scalar") _
        (λ pos n. Keeps-bind (Keeps-directives f true) (λ ds. Keeps-unless_empty _ _))

  Consumes-object : Consumes f (parse_object_type_extension f)
  unfolding parse_object_type_extension
  Consumes-object = headed (codes "type") _ (λ pos n. Keeps-bind (Keeps-implements f) (λ interfaces.
      Keeps-bind (Keeps-directives f true)
        (λ ds. Keeps-bind (Keeps-fields f) (λ fields. Keeps-unless_empty _ _))))

  Consumes-interface : Consumes f (parse_interface_type_extension f)
  unfolding parse_interface_type_extension
  Consumes-interface = headed (codes "interface") _ (λ pos n.
      Keeps-bind (Keeps-directives f true)
        (λ ds. Keeps-bind (Keeps-fields f) (λ fields. Keeps-unless_empty _ _)))

  Consumes-union : Consumes f (parse_union_type_extension f)
  unfolding parse_union_type_extension
  Consumes-union = headed (codes "union") _ (λ pos n.
      Keeps-bind (Keeps-directives f true)
        (λ ds. Keeps-bind (Keeps-members f) (λ types. Keeps-unless_empty _ _)))

  Consumes-enum : Consumes f (parse_enum_type_extension f)
  unfolding parse_enum_type_extension
  Consumes-enum = headed (codes "enum") _ (λ pos n.
      Keeps-bind (Keeps-directives f true)
        (λ ds. Keeps-bind (Keeps-enum_values f) (λ values. Keeps-unless_empty _ _)))

  Consumes-input : Consumes f (parse_input_object_type_extension f)
  unfolding parse_input_object_type_extension
  Consumes-input = headed (codes "input") _ (λ pos n.
      Keeps-bind (Keeps-directives f false)
        (λ ds. Keeps-bind (Keeps-input_fields f) (λ fields. Keeps-unless_empty _ _)))

  Consumes-add :
      (doc : SchemaDocument) (m : M Definition) → Consumes f m → Consumes f (add_extension f doc m)
  unfolding add_extension
  Consumes-add doc m c = Consumes-bind c (λ d. Keeps-return _)

  Consumes-add_schema : (doc : SchemaDocument) → Consumes f (add_schema_extension f doc)
  unfolding add_schema_extension
  Consumes-add_schema doc = Consumes-bind Consumes-schema_extension (λ d. Keeps-return _)

  Consumes-no_extension : (doc : SchemaDocument) → Consumes f (no_extension f doc)
  unfolding no_extension
  Consumes-no_extension doc = Consumes-bind Consumes-unexpected_error (λ _. Keeps-return doc)

  Consumes-cases : (doc : SchemaDocument) (word : Bytes) → Consumes f (extension_cases f doc word)
  unfolding extension_cases
  Consumes-cases doc word = Consumes-if _ (Consumes-add_schema doc) (
      Consumes-if _ (Consumes-add doc _ Consumes-scalar) (
        Consumes-if _ (Consumes-add doc _ Consumes-object) (
          Consumes-if _ (Consumes-add doc _ Consumes-interface) (
            Consumes-if _ (Consumes-add doc _ Consumes-union) (
              Consumes-if _ (Consumes-add doc _ Consumes-enum)
                (Consumes-if _ (Consumes-add doc _ Consumes-input) (Consumes-no_extension doc)))))))

  pub Consumes-extension : (doc : SchemaDocument) → Consumes f (parse_type_system_extension f doc)
  unfolding parse_type_system_extension
  Consumes-extension doc =
      Consumes-bind (Consumes-expect_keyword (codes "extend"))
        (λ _. Keeps-bind Keeps-peek (λ tok. Consumes-Keeps (Consumes-cases doc tok.value)))
