-- ===== src/Parser/Fuel/Arguments.antt =====
-- Arguments, directives and references to types of parser/query.go end.
use gqlparser.Parser.Many.{no_error}
use gqlparser.Parser.Fuel.Value.{Consumes-value, Consumes-parse_name}
use gqlparser.Lexer.Token.{bracket_r, colon, kind_eq, at, bang, bracket_l, paren_r, paren_l}
use gqlparser.Parser.Fuel.Token.{Upto-le, skip-Ends, Skipped}
use gqlparser.Parser.Fuel.Weight.{ends, weight_pos, Ends, Ends-bind, Upto}
use gqlparser.Parser.Fuel.Flow.{
  Keeps-return, Keeps-if, Consumes-Keeps, Keeps-peek, Consumes-Starts, Keeps-peek_pos, Keeps-skip,
  Consumes-expect, bind-Consumes, Keeps-bind, Consumes-bind, Keeps, Consumes,
}
use gqlparser.Parser.State.{◌>>◌, expect, ◌>>=◌, peek_pos, Parser, M}
use gqlparser.Base.{
  ◌&&◌, if◌then◌else◌, suc, zero, ◌<◌, ℕ, refl, true, false, ◌-◌, ◌≤◌, arith, Bool, Option,
}
use gqlparser.Ast.Source.{Position}
use gqlparser.Ast.TypeRef.{TypeRef, named, list}
use gqlparser.Parser.Fuel.Many.{Keeps-many, Ends-turn, no_error-none}
use gqlparser.Parser.Value.{
  parse_directives, parse_type_reference, parse_arguments, directives_loop, parse_directive,
  with_bang, parse_argument, parse_name,
}

module _ (f : ℕ) (is_const : Bool) where
  Consumes-argument : Consumes f (parse_argument f is_const)
  unfolding parse_argument
  Consumes-argument = bind-Consumes Keeps-peek_pos (λ pos. Consumes-bind Consumes-parse_name (λ n.
      Keeps-bind (Consumes-Keeps (Consumes-expect colon (unfold kind_eq in refl))) (λ _.
        Keeps-bind (Consumes-Keeps (Consumes-value is_const f))
          (λ v. Keeps-return (record { name = n; value = v; position = pos })))))

  pub Keeps-arguments : Keeps f (parse_arguments f is_const)
  unfolding parse_arguments
  Keeps-arguments =
      Keeps-many f paren_l paren_r (parse_argument f is_const) (Consumes-Starts Consumes-argument)
        (unfold kind_eq in refl)

  Consumes-directive : Consumes f (parse_directive f is_const)
  unfolding parse_directive
  Consumes-directive = Consumes-bind (Consumes-expect at (unfold kind_eq in refl)) (λ _.
      Keeps-bind Keeps-peek_pos (λ pos. Keeps-bind (Consumes-Keeps Consumes-parse_name) (λ n.
        Keeps-bind Keeps-arguments
          (λ args. Keeps-return (record { name = n; arguments = args; position = pos })))))

  directives-Ends :
      (n w : ℕ) (p : Parser)
      → Upto w p
      → w < n
      → n ≤ f
      → Ends (λ _ q. Upto w q) (directives_loop f is_const n p)
  unfolding directives_loop
  directives-Ends zero w p u h k = elim h [ ]
  directives-Ends (suc n) w p u h k = Ends-bind (Keeps-peek.keep w p u h) (λ tok q u'.
      Ends-turn (kind_eq tok.kind at && no_error q.err)
        (λ on.
          let some_left = weight_pos q (no_error-none (kind_eq tok.kind at) q.err on) in
          let one : 1 ≤ w = omega (arith, some_left, u'.weight_le) in
          Ends-bind (Consumes-directive.eat w q u' (omega (arith, h, k))) (λ d r v.
            Ends-bind (directives-Ends n (w - 1) r v (omega (arith, h, one)) (omega (arith, k)))
              (λ rest r' v'. ends (Upto-le (omega arith) v'))))
        (ends u'))

  pub Keeps-directives : Keeps f (parse_directives f is_const)
  unfolding parse_directives
  Keeps-directives = record { keep = λ w p u h. directives-Ends f w p u h (omega arith) }

Keeps-bang :
    {f : ℕ} (make : Bool → Option Position → TypeRef) (pos : Option Position)
    → Keeps f (with_bang make pos)
unfolding with_bang
Keeps-bang make pos = Keeps-bind (Keeps-skip bang (unfold kind_eq in refl)) (λ nn.
    Keeps-if nn (Keeps-bind Keeps-peek_pos (λ pos'. Keeps-return (make true pos')))
      (Keeps-return (make false pos)))

type_end :
    (f : ℕ) (self : M TypeRef)
    → Consumes f self
    → (is_list : Bool) (w : ℕ) (q : Parser) → Skipped w w is_list q
    → w < suc f
    → Ends
        (λ _ r. Upto (w - 1) r)
        ((if is_list
            then (peek_pos >>= λ pos.
                self >>= λ elem. expect bracket_r >> with_bang (list elem) pos)
            else (peek_pos >>= λ pos. parse_name >>= λ n. with_bang (named n) pos))
          q)
type_end f self inner true w q s h =
    let u : Upto (w - 1) q = record {
      weight_le = omega (arith, s.less refl);
      valid = s.upto.valid;
    } in
    let one = s.less refl in
    (Keeps-bind {f = f} Keeps-peek_pos (λ pos. Keeps-bind (Consumes-Keeps inner) (λ elem.
        Keeps-bind (Consumes-Keeps (Consumes-expect bracket_r (unfold kind_eq in refl)))
          (λ _. Keeps-bang (list elem) pos)))).keep
      (w - 1) q u (omega (arith, one, h))
type_end f self inner false w q s h =
    (bind-Consumes {f = suc f} Keeps-peek_pos
        (λ pos. Consumes-bind Consumes-parse_name (λ n. Keeps-bang (named n) pos))).eat
      w q s.upto h

pub Consumes-type : (f : ℕ) → Consumes f (parse_type_reference f)
unfolding parse_type_reference
Consumes-type zero = record { eat = λ w p u h. elim h [ ] }
Consumes-type (suc f) = record {
  eat = λ w p u h.
      Ends-bind (skip-Ends bracket_l p (unfold kind_eq in refl) u.valid) (λ is_list q s.
        type_end f (parse_type_reference f) (Consumes-type f) is_list w q
          (record {
            upto = Upto-le u.weight_le s.upto;
            less = λ e. omega (arith, s.less e, u.weight_le);
          })
          h);
}
