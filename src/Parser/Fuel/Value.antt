-- ===== src/Parser/Fuel/Value.antt =====
-- Names, values, arguments, directives and references to types of parser/query.go end.
use gqlparser.Parser.Fuel.Steps.{next-Peeked, pos-Peeked}
use gqlparser.Parser.Fuel.Token.{Upto-le}
use gqlparser.Parser.Fuel.Weight.{ends, Ends, Peeked, Upto, peek-Ends, Ends-bind}
use gqlparser.Parser.Fuel.Flow.{
  Consumes-unexpected_error, Consumes-Starts, Consumes-if, Keeps-bind, Consumes-Keeps, Keeps-return,
  Keeps-peek_pos, bind-Consumes, Consumes-expect, Consumes-bind, Consumes,
}
use gqlparser.Parser.State.{Parser, M}
use gqlparser.Lexer.Token.{
  int, float, string, block_string, brace_r, bracket_r, colon, bracket_l, brace_l, name, dollar,
  Token, number, eof, kind_eq, Kind,
}
use gqlparser.Base.{suc, zero, ℕ, refl, some, true, false, ◌-◌, ◌≤◌, ◌≡◌, arith, Bool, ap, ◌∙◌}
use gqlparser.Ast.Value.{
  variable, value, no_children, variable, nil_value, value, block_value, string_value, float_value,
  int_value, Value, ValueKind,
}
use gqlparser.Parser.Fuel.Many.{many-Peeked}
use gqlparser.Parser.Value.{
  name_kind, scalar, no_value, parse_variable_value, parse_object, parse_object_field, parse_list,
  value_cases, parse_value_literal, parse_variable, parse_name,
}

pub Consumes-parse_name : {f : ℕ} → Consumes f parse_name
unfolding parse_name
Consumes-parse_name =
    Consumes-bind (Consumes-expect name (unfold kind_eq in refl)) (λ t. Keeps-return t.value)

pub Consumes-parse_variable : {f : ℕ} → Consumes f parse_variable
unfolding parse_variable
Consumes-parse_variable =
    Consumes-bind (Consumes-expect dollar (unfold kind_eq in refl))
      (λ _. Consumes-Keeps Consumes-parse_name)

is_kind : (k j : Kind) → k ≡ j → kind_eq k j ≡ true
unfolding kind_eq
is_kind k j h = ground (arith, ap number h)

not_eof : (k j : Kind) → k ≡ j → kind_eq j eof ≡ false → kind_eq k eof ≡ false
not_eof k j h e = ap (λ x. kind_eq x eof) h ∙ e

module _ (f : ℕ) (is_const : Bool) (self : M Value) (inner : Consumes f self) where
  Consumes-object_field : Consumes f (parse_object_field f is_const self)
  unfolding parse_object_field
  Consumes-object_field = bind-Consumes Keeps-peek_pos (λ pos.
      Consumes-bind Consumes-parse_name (λ n.
        Keeps-bind (Consumes-Keeps (Consumes-expect colon (unfold kind_eq in refl)))
          (λ _. Keeps-bind (Consumes-Keeps inner) (λ v. Keeps-return (n, v, pos)))))

  list-Ends :
      (tok : Token) (w : ℕ) (p : Parser)
      → tok.kind ≡ bracket_l
      → Peeked tok p
      → Upto w p
      → w ≤ f
      → Ends (λ _ q. Upto (w - 1) q) (parse_list f is_const self p)
  unfolding parse_list
  list-Ends tok w p k pk u h = Ends-bind (pos-Peeked tok w p pk u) (λ pos q (pk', u').
      Ends-bind
        (many-Peeked f bracket_l bracket_r self (Consumes-Starts inner) tok w q
          (unfold kind_eq in refl) (is_kind tok.kind bracket_l k) pk' u' h)
        (λ values r x. ends x))

  object-Ends :
      (tok : Token) (w : ℕ) (p : Parser)
      → tok.kind ≡ brace_l
      → Peeked tok p
      → Upto w p
      → w ≤ f
      → Ends (λ _ q. Upto (w - 1) q) (parse_object f is_const self p)
  unfolding parse_object
  object-Ends tok w p k pk u h = Ends-bind (pos-Peeked tok w p pk u) (λ pos q (pk', u').
      Ends-bind
        (many-Peeked f brace_l brace_r (parse_object_field f is_const self)
          (Consumes-Starts Consumes-object_field) tok w q (unfold kind_eq in refl)
          (is_kind tok.kind brace_l k) pk' u' h)
        (λ values r x. ends x))

  scalar-Ends :
      (kind : ValueKind) (tok : Token) (w : ℕ) (p : Parser)
      → kind_eq tok.kind eof ≡ false
      → Peeked tok p
      → Upto w p
      → Ends (λ _ q. Upto (w - 1) q) (scalar f is_const self kind tok p)
  unfolding scalar
  scalar-Ends kind tok w p k pk u =
      Ends-bind (next-Peeked tok p u.valid pk k)
        (λ t q x. ends (Upto-le (omega (arith, u.weight_le)) x))

  Consumes-no_value : {g : ℕ} → Consumes g (no_value f is_const self)
  unfolding no_value
  Consumes-no_value = Consumes-bind Consumes-unexpected_error (λ _. Keeps-return nil_value)

  Consumes-variable_value :
      {g : ℕ} (tok : Token) → Consumes g (parse_variable_value f is_const self tok)
  unfolding parse_variable_value
  Consumes-variable_value tok =
      Consumes-bind Consumes-parse_variable
        (λ raw. Keeps-return (value variable raw no_children (some tok.pos)))

  cases-Ends :
      (k : Kind) (tok : Token) (w : ℕ) (p : Parser)
      → tok.kind ≡ k
      → Peeked tok p
      → Upto w p
      → w ≤ f
      → Ends (λ _ q. Upto (w - 1) q) (value_cases f is_const self k tok p)
  unfolding value_cases
  cases-Ends bracket_l tok w p k pk u h = list-Ends tok w p k pk u h
  cases-Ends brace_l tok w p k pk u h = object-Ends tok w p k pk u h
  cases-Ends dollar tok w p k pk u h =
      (Consumes-if {f = suc f} is_const Consumes-no_value (Consumes-variable_value tok)).eat w p u
        (omega (arith, h))
  cases-Ends int tok w p k pk u h =
      scalar-Ends int_value tok w p (not_eof tok.kind int k (unfold kind_eq in refl)) pk u
  cases-Ends float tok w p k pk u h =
      scalar-Ends float_value tok w p (not_eof tok.kind float k (unfold kind_eq in refl)) pk u
  cases-Ends string tok w p k pk u h =
      scalar-Ends string_value tok w p (not_eof tok.kind string k (unfold kind_eq in refl)) pk u
  cases-Ends block_string tok w p k pk u h =
      scalar-Ends block_value tok w p (not_eof tok.kind block_string k (unfold kind_eq in refl)) pk
        u
  cases-Ends name tok w p k pk u h =
      scalar-Ends (name_kind tok.value) tok w p (not_eof tok.kind name k (unfold kind_eq in refl))
        pk u
  cases-Ends _ tok w p k pk u h = (Consumes-no_value {g = suc f}).eat w p u (omega (arith, h))

pub Consumes-value : (is_const : Bool) (f : ℕ) → Consumes f (parse_value_literal is_const f)
unfolding parse_value_literal
Consumes-value is_const zero = record { eat = λ w p u h. elim h [ ] }
Consumes-value is_const (suc f) = record {
  eat = λ w p u h. Ends-bind (peek-Ends p u.valid) (λ tok q (u', pk).
      cases-Ends f is_const (parse_value_literal is_const f) (Consumes-value is_const f) tok.kind
        tok w q refl pk (Upto-le u.weight_le u') (omega (arith, h)));
}
