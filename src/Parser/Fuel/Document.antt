-- ===== src/Parser/Fuel/Document.antt =====
-- ParseQuery of parser/query.go ends on the fuel that the model gives it, at an error or at the end of
-- the input.
use gqlparser.Parser.Fuel.Query.{Consumes-turn}
use gqlparser.Parser.Fuel.Token.{Upto-le}
use gqlparser.Parser.Many.{no_error}
use gqlparser.Lexer.State.{new_lexer}
use gqlparser.Lexer.Token.{eof, kind_eq, Token}
use gqlparser.Parser.Fuel.Weight.{
  peek-Ends, Peeked, Ends-weaken, weight_pos, ends, Ends-bind, Ends, Upto, weight,
}
use gqlparser.Parser.State.{peek_on, Fault, new_parser, Parser}
use gqlparser.Parser.Query.{empty_document, parse_query_document, document_loop}
use gqlparser.Base.{
  ◌≡◌, Bool, ◌⊎◌, inl, inr, Bool-cases, ap, ◌∙◌, suc, zero, ◌<◌, ℕ, refl, none, some, true, false,
  ◌-◌, ◌≤◌, ◌*◌, ◌+◌, arith, not, Option, length, ◌&&◌,
}
use gqlparser.Ast.Document.{QueryDocument}
use gqlparser.Ast.Source.{Source}
use gqlparser.Parser.Fuel.Many.{no_error-none}

-- There is an error, or the next token is the end of the input.
pub Done : Parser → Type 0
Done q = ((e : Fault) × q.err ≡ some e) ⊎ (kind_eq (peek_on q.err q).0.kind eof ≡ true)

stop_cases :
    (b : Bool) (e : Option Fault)
    → (not b && no_error e) ≡ false
    → ((f : Fault) × e ≡ some f) ⊎ (b ≡ true)
stop_cases b (some e) h = inl (e, refl)
stop_cases true none h = inr refl
stop_cases false none h = cc

-- The loop stops where it is done.
stop-Done :
    (tok : Token) (q : Parser)
    → Peeked tok q
    → (not (kind_eq tok.kind eof) && no_error q.err) ≡ false
    → Done q
unfolding Peeked Done
stop-Done tok q pk h = elim (stop_cases (kind_eq tok.kind eof) q.err h) [
  | inl e ↦ inl e
  | inr at_end ↦ inr (ap (λ (x : Token × Parser). kind_eq x.0.kind eof) pk ∙ at_end)
]

module _ (f : ℕ) where
  document-Ends :
      (n w : ℕ) (doc : QueryDocument) (p : Parser)
      → Upto w p
      → w < n
      → n ≤ f
      → Ends (λ _ q. Upto w q × Done q) (document_loop f n doc p)
  unfolding document_loop
  document-Ends zero w doc p u h k = elim h [ ]
  document-Ends (suc n) w doc p u h k = Ends-bind (peek-Ends p u.valid) (λ tok q (peeked, pk).
      let u' = Upto-le u.weight_le peeked in
      elim (Bool-cases (not (kind_eq tok.kind eof) && no_error q.err)) [
        | inl goes ↦
            let some_left = weight_pos q (no_error-none (not (kind_eq tok.kind eof)) q.err goes) in
            let one : 1 ≤ w = omega (arith, some_left, u'.weight_le) in
            rw goes (
              Ends-bind ((Consumes-turn f doc).eat w q u' (omega (arith, h, k))) (λ d r v.
                Ends-weaken
                  (document-Ends n (w - 1) d r v (omega (arith, h, one)) (omega (arith, k)))
                  (λ rest r' (v', done). (Upto-le (omega arith) v', done))))
        | inr stops ↦ rw stops (ends (u', stop-Done tok q pk stops))
      ])

pub initial-Upto :
    (source : Source) → Upto (2 * length source.input + 1) (new_parser (new_lexer source))
unfolding weight new_lexer
initial-Upto source = record {
  weight_le = omega arith;
  valid = record { end_le = omega arith; runes_le = omega arith; line_start_le = omega arith };
}

-- The parser and its first error, where it ends.
-- On every source parseQueryDocument ends on the fuel that ParseQuery gives it, and in a state that
-- has an error or whose next token is the end of the input: no part of a source that parses is
-- left unread.
pub parse_query_document-Done :
    (source : Source)
    → Ends
        (λ doc q. Done q)
        (parse_query_document (2 * length source.input + 2) (new_parser (new_lexer source)))
unfolding parse_query_document
parse_query_document-Done source =
    let f = 2 * length source.input + 2 in
    Ends-weaken
      (document-Ends f f (2 * length source.input + 1) empty_document
        (new_parser (new_lexer source)) (initial-Upto source) (omega arith) (omega arith))
      (λ doc q (u, done). done)
