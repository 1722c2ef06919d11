-- ===== src/Parser/Fuel/Query.antt =====
-- Operations and definitions of parser/query.go end.
use gqlparser.Ast.Value.{nil_value}
use gqlparser.Parser.Fuel.Arguments.{Consumes-type, Keeps-directives}
use gqlparser.Parser.Fuel.Value.{Consumes-value, Consumes-parse_name, Consumes-parse_variable}
use gqlparser.Parser.Fuel.Selection.{Keeps-fragment_name, Starts-selection, Consumes-required}
use gqlparser.Lexer.Token.{equals, colon, brace_l, name, kind_eq, paren_r, paren_l, Token}
use gqlparser.Parser.Fuel.Flow.{
  Keeps-skip, Consumes-unexpected_token, Consumes-expect, Consumes-Keeps, Keeps-next,
  Consumes-Starts, Consumes-expect_keyword, Keeps-bind, Consumes-unexpected_error, Keeps-return,
  Keeps-peek_pos, Keeps-if, Keeps-peek, Consumes-if, bind-Consumes, Consumes-bind, Keeps, Consumes,
}
use gqlparser.Parser.Query.{
  parse_operation_type, name_definition, parse_variable_definition, parse_fragment_definition,
  parse_variable_definitions, parse_full_operation, document_turn, parse_shorthand, add_fragment,
  add_operation, parse_operation_definition, refuse, operation_type, definition,
}
use gqlparser.Base.{ℕ, refl, true, false, [], bytes_eq, codes}
use gqlparser.Ast.Document.{QueryDocument, query, mutation, subscription, no_operation}
use gqlparser.Parser.Fuel.Many.{Keeps-many}
use gqlparser.Parser.Selection.{parse_selection, parse_required_selection_set, on}

pub Keeps-operation_type : {f : ℕ} (tok : Token) → Keeps f (operation_type tok)
unfolding operation_type
Keeps-operation_type tok = Keeps-if (bytes_eq tok.value (codes "query")) (Keeps-return query) (
    Keeps-if (bytes_eq tok.value (codes "mutation")) (Keeps-return mutation) (
      Keeps-if (bytes_eq tok.value (codes "subscription")) (Keeps-return subscription) (
        Keeps-bind (Consumes-Keeps (Consumes-unexpected_token tok))
          (λ _. Keeps-return no_operation))))

module _ (f : ℕ) where
  Consumes-variable : Consumes f (parse_variable_definition f)
  unfolding parse_variable_definition
  Consumes-variable = bind-Consumes Keeps-peek_pos (λ pos.
      Consumes-bind Consumes-parse_variable (λ v.
        Keeps-bind (Consumes-Keeps (Consumes-expect colon (unfold kind_eq in refl))) (λ _.
          Keeps-bind (Consumes-Keeps (Consumes-type f)) (λ t.
            Keeps-bind (Keeps-skip equals (unfold kind_eq in refl)) (λ has.
              Keeps-bind
                (Keeps-if has (Consumes-Keeps (Consumes-value true f)) (Keeps-return nil_value))
                (λ d. Keeps-bind (Keeps-directives f false) (λ ds. Keeps-return _)))))))

  Keeps-variables : Keeps f (parse_variable_definitions f)
  unfolding parse_variable_definitions
  Keeps-variables =
      Keeps-many f paren_l paren_r (parse_variable_definition f) (Consumes-Starts Consumes-variable)
        (unfold kind_eq in refl)

  Consumes-selections : Consumes f (parse_required_selection_set f (parse_selection f))
  Consumes-selections = Consumes-required f (parse_selection f) (Starts-selection f)

  Consumes-shorthand : Consumes f (parse_shorthand f)
  unfolding parse_shorthand
  Consumes-shorthand =
      bind-Consumes Keeps-peek_pos (λ pos. Consumes-bind Consumes-selections (λ ss. Keeps-return _))

  Consumes-full : Consumes f (parse_full_operation f)
  unfolding parse_full_operation parse_operation_type
  Consumes-full = bind-Consumes Keeps-peek_pos (λ pos.
      bind-Consumes (Keeps-bind Keeps-next Keeps-operation_type) (λ op.
        bind-Consumes Keeps-peek (λ tok.
          bind-Consumes
            (Keeps-if (kind_eq tok.kind name) (Keeps-bind Keeps-next (λ t. Keeps-return t.value))
              (Keeps-return []))
            (λ n. bind-Consumes Keeps-variables (λ vs.
              bind-Consumes (Keeps-directives f false) (λ ds.
                Consumes-bind Consumes-selections (λ ss. Keeps-return (record {
                  operation = op;
                  name = n;
                  variable_definitions = vs;
                  directives = ds;
                  selection_set = ss;
                  position = pos;
                }))))))))

  Consumes-operation : Consumes f (parse_operation_definition f)
  unfolding parse_operation_definition
  Consumes-operation =
      bind-Consumes Keeps-peek
        (λ tok. Consumes-if (kind_eq tok.kind brace_l) Consumes-shorthand Consumes-full)

  Consumes-fragment : Consumes f (parse_fragment_definition f)
  unfolding parse_fragment_definition
  Consumes-fragment = bind-Consumes Keeps-peek_pos (λ pos.
      Consumes-bind (Consumes-expect_keyword (codes "fragment")) (λ _.
        Keeps-bind Keeps-fragment_name (λ n. Keeps-bind Keeps-variables (λ vs.
          Keeps-bind (Consumes-Keeps (Consumes-expect_keyword on)) (λ _.
            Keeps-bind (Consumes-Keeps Consumes-parse_name) (λ condition.
              Keeps-bind (Keeps-directives f false)
                (λ ds. Keeps-bind (Consumes-Keeps Consumes-selections) (λ ss. Keeps-return _))))))))

  Consumes-refuse : (doc : QueryDocument) → Consumes f (refuse f doc)
  unfolding refuse
  Consumes-refuse doc = Consumes-bind Consumes-unexpected_error (λ _. Keeps-return doc)

  Consumes-add_operation : (doc : QueryDocument) → Consumes f (add_operation f doc)
  unfolding add_operation
  Consumes-add_operation doc = Consumes-bind Consumes-operation (λ op. Keeps-return _)

  Consumes-add_fragment : (doc : QueryDocument) → Consumes f (add_fragment f doc)
  unfolding add_fragment
  Consumes-add_fragment doc = Consumes-bind Consumes-fragment (λ op. Keeps-return _)

  Consumes-definition : (doc : QueryDocument) (tok : Token) → Consumes f (definition f doc tok)
  unfolding definition name_definition
  Consumes-definition doc tok =
      Consumes-if (kind_eq tok.kind name)
        (Consumes-if _ (Consumes-add_operation doc)
          (Consumes-if _ (Consumes-add_fragment doc) (Consumes-refuse doc)))
        (Consumes-if (kind_eq tok.kind brace_l) (Consumes-add_operation doc) (Consumes-refuse doc))

  pub Consumes-turn : (doc : QueryDocument) → Consumes f (document_turn f doc)
  unfolding document_turn
  Consumes-turn doc = bind-Consumes Keeps-peek_pos (λ pos.
      bind-Consumes Keeps-peek (λ tok. Consumes-definition (record doc { position = pos }) tok))
