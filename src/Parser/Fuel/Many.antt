-- ===== src/Parser/Fuel/Many.antt =====
-- many and some of parser/parser.go end, if each turn of their loops does.
use gqlparser.Parser.Fuel.Steps.{next-Ends}
use gqlparser.Base.{
  Option, suc, zero, ◌<◌, ℕ, refl, none, some, true, false, [], ◌∷◌, ◌-◌, ◌≤◌, ◌≡◌, arith, Bool,
  ◌&&◌, not, List,
}
use gqlparser.Lexer.Token.{Kind, Token, kind_eq, eof}
use gqlparser.Parser.Fuel.Flow.{
  Keeps, Starts, Keeps-next, Consumes-report, Keeps-peek, Keeps-bind, Keeps-return, Consumes-Keeps,
}
use gqlparser.Parser.Fuel.Token.{Upto-le, Skipped, skip-Ends, skip-Peeked}
use gqlparser.Parser.Fuel.Weight.{
  Ends-bind, Ends-weaken, Upto, Ends, ends, weight, weight_pos, Peeked,
}
use gqlparser.Parser.Many.{items, many, many_items, at_least_one, some_close, some_items, no_error}
use gqlparser.Parser.State.{expected_definition, Parser, M, Fault}

-- A loop goes on, or stops here.
pub Ends-turn :
    {A : Type 0} {P : A → Parser → Type 0} {m k : Option (A × Parser)} (goes : Bool)
    → (goes ≡ true → Ends P m)
    → Ends P k
    → Ends P (elim goes [ true ↦ m | false ↦ k ])
Ends-turn true x y = x refl
Ends-turn false x y = y

pub no_error-none : (b : Bool) (e : Option Fault) → (b && no_error e) ≡ true → e ≡ none
no_error-none b none h = refl
no_error-none true (some e) h = cc
no_error-none false (some e) h = cc

module _ {A : Type 0} (f : ℕ) (end : Kind) (callback : M A) (each : Starts f callback) where
  items-Ends :
      (n w : ℕ) (p : Parser)
      → Upto w p
      → w < n
      → n ≤ f
      → Ends (λ _ q. Upto w q) (items end callback n p)
  unfolding items
  items-Ends zero w p u h k = elim h [ ]
  items-Ends (suc n) w p u h k = Ends-bind (Keeps-peek.keep w p u h) (λ tok q u'.
      Ends-turn (not (kind_eq tok.kind end) && no_error q.err)
        (λ on.
          let some_left = weight_pos q (no_error-none (not (kind_eq tok.kind end)) q.err on) in
          let one : 1 ≤ w = omega (arith, some_left, u'.weight_le) in
          Ends-bind (each.start w q u' one (omega (arith, h, k))) (λ a r v.
            Ends-bind (items-Ends n (w - 1) r v (omega (arith, h, one)) (omega (arith, k)))
              (λ rest r' v'. ends (Upto-le (omega arith) v'))))
        (ends u'))

module _ {A : Type 0} (f : ℕ) (start end : Kind) (callback : M A) (each : Starts f callback) where
  many_items-Ends :
      (took : Bool) (v w : ℕ) (q : Parser)
      → Skipped v w took q
      → w ≤ f
      → Ends (λ _ r. Upto v r) (many_items f start end callback took q)
  unfolding many_items
  many_items-Ends false v w q s h = ends s.upto
  many_items-Ends true v w q s h =
      let u : Upto (weight q) q = record { weight_le = omega arith; valid = s.upto.valid } in
      Ends-bind
        (items-Ends f end callback each f (weight q) q u (omega (arith, s.less refl, h))
          (omega arith))
        (λ found r x.
          Ends-bind (next-Ends r x.valid)
            (λ t r' y. ends (Upto-le (omega (arith, x.weight_le, s.upto.weight_le)) y)))

  close-Keeps : {g : ℕ} (found : List A) → Keeps g (some_close f start end callback found)
  unfolding some_close
  close-Keeps [] = Keeps-bind Keeps-peek (λ tok.
      Keeps-bind (Consumes-Keeps (Consumes-report tok (expected_definition tok.kind)))
        (λ _. Keeps-return []))
  close-Keeps (a ∷ found) = Keeps-bind Keeps-next (λ _. Keeps-return (a ∷ found))

  some_items-Ends :
      (took : Bool) (v w : ℕ) (q : Parser)
      → Skipped v w took q
      → w ≤ f
      → Ends (λ _ r. Upto v r) (some_items f start end callback took q)
  unfolding some_items
  some_items-Ends false v w q s h = ends s.upto
  some_items-Ends true v w q s h =
      let u : Upto (weight q) q = record { weight_le = omega arith; valid = s.upto.valid } in
      Ends-bind
        (items-Ends f end callback each f (weight q) q u (omega (arith, s.less refl, h))
          (omega arith))
        (λ found r x.
          Ends-weaken ((close-Keeps {g = suc (weight q)} found).keep (weight q) r x (omega arith))
            (λ t r' y. Upto-le s.upto.weight_le y))

  pub Keeps-many : kind_eq start eof ≡ false → Keeps f (many f start end callback)
  unfolding many
  Keeps-many k = record {
    keep = λ w p u h. Ends-bind (skip-Ends start p k u.valid) (λ took q s.
        Ends-weaken (many_items-Ends took (weight p) (weight p) q s (omega (arith, h, u.weight_le)))
          (λ a r x. Upto-le u.weight_le x));
  }

  -- A list whose first token is known to be there.
  pub many-Peeked :
      (tok : Token) (w : ℕ) (p : Parser)
      → kind_eq start eof ≡ false
      → kind_eq tok.kind start ≡ true
      → Peeked tok p
      → Upto w p
      → w ≤ f
      → Ends (λ _ q. Upto (w - 1) q) (many f start end callback p)
  unfolding many
  many-Peeked tok w p k same pk u h =
      Ends-bind (skip-Peeked tok start p k u.valid pk same) (λ took q s.
        Ends-weaken
          (many_items-Ends took (weight p - 1) (weight p) q s (omega (arith, h, u.weight_le)))
          (λ a r x. Upto-le (omega (arith, u.weight_le)) x))

  pub Keeps-at_least_one : kind_eq start eof ≡ false → Keeps f (at_least_one f start end callback)
  unfolding at_least_one
  Keeps-at_least_one k = record {
    keep = λ w p u h. Ends-bind (skip-Ends start p k u.valid) (λ took q s.
        Ends-weaken (some_items-Ends took (weight p) (weight p) q s (omega (arith, h, u.weight_le)))
          (λ a r x. Upto-le u.weight_le x));
  }

  pub at_least_one-Peeked :
      (tok : Token) (w : ℕ) (p : Parser)
      → kind_eq start eof ≡ false
      → kind_eq tok.kind start ≡ true
      → Peeked tok p
      → Upto w p
      → w ≤ f
      → Ends (λ _ q. Upto (w - 1) q) (at_least_one f start end callback p)
  unfolding at_least_one
  at_least_one-Peeked tok w p k same pk u h =
      Ends-bind (skip-Peeked tok start p k u.valid pk same) (λ took q s.
        Ends-weaken
          (some_items-Ends took (weight p - 1) (weight p) q s (omega (arith, h, u.weight_le)))
          (λ a r x. Upto-le (omega (arith, u.weight_le)) x))
