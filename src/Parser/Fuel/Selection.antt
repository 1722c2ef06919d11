-- ===== src/Parser/Fuel/Selection.antt =====
-- Selections of parser/query.go end.
use gqlparser.Parser.Many.{at_least_one}
use gqlparser.Parser.Fuel.Token.{Upto-le}
use gqlparser.Parser.Fuel.Arguments.{Keeps-arguments, Keeps-directives}
use gqlparser.Parser.Fuel.Value.{Consumes-parse_name}
use gqlparser.Parser.Fuel.Weight.{ends, Ends, Upto, Peeked, peek-Ends, Ends-bind}
use gqlparser.Lexer.Token.{colon, name, spread, brace_r, kind_eq, brace_l, Token}
use gqlparser.Parser.Fuel.Flow.{
  Consumes-report, Consumes-bind, Consumes-unexpected_error, Keeps-next, Consumes-Keeps,
  Keeps-return, Keeps-skip, Starts-if, Consumes-expect, Keeps-if, Keeps-peek_pos, Starts-bind,
  Keeps-peek, Keeps-bind, bind-Starts, Consumes, Starts, Keeps,
}
use gqlparser.Parser.Selection.{
  selection_set, selection_set, on, parse_inline_fragment, parse_fragment, parse_field,
  parse_optional_selection_set, parse_fragment_spread, parse_selection,
  parse_required_selection_set, parse_fragment_name,
}
use gqlparser.Parser.State.{◌>>=◌, return, ◌>>◌, expected_kind, report, Parser, M}
use gqlparser.Base.{
  if◌then◌else◌, ◌&&◌, suc, zero, ◌<◌, ℕ, refl, true, false, [], ◌-◌, ◌≡◌, arith, Bool, not,
  bytes_eq,
}
use gqlparser.Ast.Document.{Selection, no_selections, field, inline_fragment, fragment_spread}
use gqlparser.Parser.Fuel.Many.{Keeps-at_least_one, at_least_one-Peeked}

pub Keeps-fragment_name : {f : ℕ} → Keeps f parse_fragment_name
unfolding parse_fragment_name
Keeps-fragment_name = Keeps-bind Keeps-peek (λ tok.
    Keeps-if (bytes_eq tok.value on)
      (Keeps-bind (Consumes-Keeps Consumes-unexpected_error) (λ _. Keeps-return []))
      (Consumes-Keeps Consumes-parse_name))

-- The opening brace is there and is taken, or there is an error.
required_cases :
    (f : ℕ) (self : M Selection)
    → Starts f self
    → (opens : Bool) (tok : Token) (w : ℕ) (q : Parser) → kind_eq tok.kind brace_l ≡ opens
    → Peeked tok q
    → Upto w q
    → w < f
    → Ends
        (λ _ r. Upto (w - 1) r)
        ((if not opens
            then (report tok (expected_kind brace_l tok.kind) >> return no_selections)
            else (at_least_one f brace_l brace_r self >>= λ s. return (selection_set s)))
          q)
required_cases f self inner false tok w q k pk u h =
    (Consumes-bind (Consumes-report tok (expected_kind brace_l tok.kind))
        (λ _. Keeps-return no_selections)).eat
      w q u h
required_cases f self inner true tok w q k pk u h =
    Ends-bind
      (at_least_one-Peeked f brace_l brace_r self inner tok w q (unfold kind_eq in refl) k pk u
        (omega (arith, h)))
      (λ s r x. ends x)

pub Consumes-required :
    (f : ℕ) (self : M Selection) → Starts f self → Consumes f (parse_required_selection_set f self)
unfolding parse_required_selection_set
Consumes-required f self inner = record {
  eat = λ w p u h. Ends-bind (peek-Ends p u.valid) (λ tok q (u', pk).
      required_cases f self inner (kind_eq tok.kind brace_l) tok w q refl pk
        (Upto-le u.weight_le u') h);
}

module _ (f : ℕ) (self : M Selection) (inner : Starts f self) where
  Keeps-optional : Keeps f (parse_optional_selection_set f self)
  unfolding parse_optional_selection_set
  Keeps-optional =
      Keeps-bind (Keeps-at_least_one f brace_l brace_r self inner (unfold kind_eq in refl))
        (λ s. Keeps-return (selection_set s))

  Starts-field : Starts (suc f) (parse_field f self)
  unfolding parse_field
  Starts-field = bind-Starts Keeps-peek_pos (λ pos. Starts-bind Consumes-parse_name (λ alias.
      Keeps-bind (Keeps-skip colon (unfold kind_eq in refl)) (λ aliased.
        Keeps-bind (Keeps-if aliased (Consumes-Keeps Consumes-parse_name) (Keeps-return alias))
          (λ n. Keeps-bind (Keeps-arguments f false) (λ args.
            Keeps-bind (Keeps-directives f false) (λ ds. Keeps-bind Keeps-peek (λ tok.
              Keeps-bind
                (Keeps-if (kind_eq tok.kind brace_l) Keeps-optional (Keeps-return no_selections))
                (λ ss. Keeps-return (field alias n args ds ss pos)))))))))

  Keeps-inline : Keeps f (parse_inline_fragment f self)
  unfolding parse_inline_fragment
  Keeps-inline = Keeps-bind Keeps-peek_pos (λ pos. Keeps-bind Keeps-peek (λ tok.
      Keeps-bind
        (Keeps-if (bytes_eq tok.value on)
          (Keeps-bind Keeps-next (λ _. Consumes-Keeps Consumes-parse_name)) (Keeps-return []))
        (λ condition. Keeps-bind (Keeps-directives f false) (λ ds.
          Keeps-bind (Consumes-Keeps (Consumes-required f self inner))
            (λ ss. Keeps-return (inline_fragment condition ds ss pos))))))

  Keeps-spread : Keeps f (parse_fragment_spread f self)
  unfolding parse_fragment_spread
  Keeps-spread = Keeps-bind Keeps-peek_pos (λ pos.
      Keeps-bind Keeps-fragment_name (λ n.
        Keeps-bind (Keeps-directives f false) (λ ds. Keeps-return (fragment_spread n ds pos))))

  Starts-fragment : Starts (suc f) (parse_fragment f self)
  unfolding parse_fragment
  Starts-fragment = Starts-bind (Consumes-expect spread (unfold kind_eq in refl)) (λ _.
      Keeps-bind Keeps-peek (λ tok.
        Keeps-if (kind_eq tok.kind name && not (bytes_eq tok.value on)) Keeps-spread Keeps-inline))

pub Starts-selection : (f : ℕ) → Starts f (parse_selection f)
unfolding parse_selection
Starts-selection zero = record { start = λ w p u one h. elim h [ ] }
Starts-selection (suc f) = record {
  start =
      (bind-Starts Keeps-peek (λ tok.
        Starts-if (kind_eq tok.kind spread)
          (Starts-fragment f (parse_selection f) (Starts-selection f))
          (Starts-field f (parse_selection f) (Starts-selection f)))).start;
}
