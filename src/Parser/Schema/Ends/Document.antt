-- ===== src/Parser/Schema/Ends/Document.antt =====
-- ParseSchema of parser/schema.go ends, with an error or with a document that is not nil.
use gqlparser.Parser.Schema.Ends.Rounds.{Rounds-document, Explained}
use gqlparser.Lexer.State.{new_lexer}
use gqlparser.Parser.State.{new_parser, ◌>>=◌, Fault, Parser}
use gqlparser.Lexer.Token.{eof, kind_eq}
use gqlparser.Parser.Fuel.Weight.{Ends, weight_pos, weight, Upto, Ends-bind, ends}
use gqlparser.Parser.Fuel.Flow.{Keeps-peek_pos, Keeps-peek}
use gqlparser.Parser.Schema.Document.{
  continues, empty_schema, parse_schema_document, failed, out_of_fuel, parse_schema, SchemaResult,
  schema_result, follow, parsed, schema_loop, Round, breaks, gives_up, document_round,
}
use gqlparser.Base.{
  ℕ, suc, zero, ◌+◌, ◌*◌, ◌-◌, ◌<◌, ◌≤◌, arith, refl, none, some, true, false, ◌≡◌, ◌⊎◌, inl, inr,
  Bool, Option, length, Option-cases,
}
use gqlparser.Ast.Definition.{SchemaDocument}
use gqlparser.Ast.Source.{Source}
use gqlparser.Parser.Fuel.Document.{initial-Upto}

-- There is an error, or a document.
abbrev Settled : Option SchemaDocument → Parser → Type 0
Settled doc q = ((e : Fault) × q.err ≡ some e) ⊎ ((d : SchemaDocument) × doc ≡ some d)

no_weight : (q : Parser) → weight q ≤ 0 → (e : Fault) × q.err ≡ some e
no_weight q h = elim (Option-cases q.err) [
  | inl none_left ↦ absurd (omega (arith, weight_pos q none_left))
  | inr e ↦ e
]

-- One round of the loop, and what follows it.
module _ (f n : ℕ)
    (ih : (w : ℕ) (doc : SchemaDocument) (p : Parser)
      → Upto w p
      → w < n
      → Ends Settled (schema_loop f n doc p)) where
  follow-Ends :
      (r : Round) (w : ℕ) (q : Parser)
      → Upto w q
      → w < n
      → Explained r q
      → Ends Settled (follow f (schema_loop f n) r q)
  unfolding follow
  follow-Ends (continues doc) w q u h e = ih w doc q u h
  follow-Ends (breaks doc) w q u h e = ends (inr (doc, refl))
  follow-Ends gives_up w q u h e = ends (inl (no_weight q e))

  round-Ends :
      (at_end : Bool) (e : Option Fault) (w : ℕ) (doc : SchemaDocument) (q : Parser)
      → q.err ≡ e
      → Upto w q
      → w < suc n
      → w < f
      → Ends Settled (elim at_end [
        | true ↦ some (some doc, q)
        | false ↦ elim e [
          | some e ↦ some (none, q)
          | none ↦ (document_round f doc >>= follow f (schema_loop f n)) q
        ]
      ])
  round-Ends true e w doc q same u h k = ends (inr (doc, refl))
  round-Ends false (some e) w doc q same u h k = ends (inl (e, same))
  round-Ends false none w doc q same u h k =
      let one : 1 ≤ w = omega (arith, weight_pos q same, u.weight_le) in
      Ends-bind ((Rounds-document f doc).round w q u k)
        (λ r q' (v, e). follow-Ends r (w - 1) q' v (omega (arith, one, h)) e)

schema_loop-Ends :
    (f n w : ℕ) (doc : SchemaDocument) (p : Parser)
    → n ≤ f
    → Upto w p
    → w < n
    → Ends Settled (schema_loop f n doc p)
unfolding schema_loop
schema_loop-Ends f zero w doc p k u h = elim h [ ]
schema_loop-Ends f (suc n) w doc p k u h = Ends-bind (Keeps-peek.keep w p u h) (λ tok q u'.
    round-Ends f n (λ w' doc' p'. schema_loop-Ends f n w' doc' p' (omega (arith, k)))
      (kind_eq tok.kind eof) q.err w doc q refl u' h (omega (arith, h, k)))

-- What a caller of ParseSchema relies on: an error, or a document that is not nil.
pub data Answered : SchemaResult → Type 0 where
  answered : {doc : SchemaDocument} → Answered (parsed doc)
  refused : {e : Fault} → Answered (failed e)

Settled-Answered :
    (built_in : Bool) (doc : Option SchemaDocument) (e : Option Fault) (q : Parser)
    → q.err ≡ e
    → Settled doc q
    → Answered (schema_result built_in doc e)
Settled-Answered b doc (some e) q same s = refused
Settled-Answered b (some d) none q same s = answered
Settled-Answered b none none q same (inl (e, h)) = cc (same, h)
Settled-Answered b none none q same (inr (d, h)) = cc

result-Answered :
    {m : Option (Option SchemaDocument × Parser)} (b : Bool)
    → Ends Settled m
    → Answered (elim m [ none ↦ out_of_fuel | some (doc, p) ↦ schema_result b doc p.err ])
result-Answered b (ends {a = doc} {q = q} s) = Settled-Answered b doc q.err q refl s

-- ParseSchema answers every source: its fuel of twice the length of the input and two never runs
-- out, and without an error the document is not nil.
pub parse_schema-Answered : (source : Source) → Answered (parse_schema source)
unfolding parse_schema parse_schema_document
parse_schema-Answered source =
    let f = 2 * length source.input + 2 in
    result-Answered source.built_in (
      Ends-bind
        ((Keeps-peek_pos {f = f}).keep (2 * length source.input + 1) (new_parser (new_lexer source))
          (initial-Upto source) (omega arith))
        (λ pos q u.
          schema_loop-Ends f f (2 * length source.input + 1)
            (record empty_schema { position = pos }) q (omega arith) u (omega arith)))
