-- ===== src/Parser/Schema/Ends/Rounds.antt =====
-- The body of the loop of parseSchemaDocument in parser/schema.go.
use gqlparser.Parser.Fuel.Token.{Upto-le, unexpected_error-Ends}
use gqlparser.Parser.State.{return, ◌>>◌, ◌>>=◌, M, unexpected_error, Parser}
use gqlparser.Lexer.Token.{name, kind_eq}
use gqlparser.Parser.Schema.Ends.Fields.{Keeps-description}
use gqlparser.Parser.Schema.Fields.{is_text}
use gqlparser.Parser.Schema.Ends.Extensions.{Consumes-extension}
use gqlparser.Parser.Schema.Ends.Types.{
  Consumes-type_system, Consumes-schema, Consumes-directive_definition,
}
use gqlparser.Parser.Fuel.Weight.{Ends, weight, Upto, Ends-bind, ends}
use gqlparser.Parser.Fuel.Flow.{
  Keeps-if, Consumes-unexpected_token, Keeps-return, Consumes-Keeps, Keeps-peek, Consumes, Keeps,
}
use gqlparser.Parser.Schema.Document.{
  continues, Round, breaks, gives_up, document_round, extension_round, unknown_round,
  directive_round, type_round, round_cases, schema_round, no_description,
}
use gqlparser.Base.{if◌then◌else◌, ℕ, ◌-◌, ◌<◌, ◌≤◌, arith, true, false, [], ◌∷◌, Bool, Bytes, not}
use gqlparser.Ast.Definition.{SchemaDocument}

-- A round that returns nil has met an error.
abbrev pub Explained : Round → Parser → Type 0
Explained (continues doc) q = Unit
Explained (breaks doc) q = Unit
Explained gives_up q = weight q ≤ 0

-- A round ends, brings the weight down and explains a nil document.
pub record Rounds (f : ℕ) (m : M Round) : Type 0 where
  pub round :
      (w : ℕ) (p : Parser) → Upto w p → w < f → Ends (λ r q. Upto (w - 1) q × Explained r q) (m p)

module _ {f : ℕ} where
  Rounds-return :
      {A : Type 0} {m : M A} (k : A → SchemaDocument)
      → Consumes f m
      → Rounds f (m >>= λ a. return (continues (k a)))
  Rounds-return k c = record {
    round = λ w p u h. Ends-bind (c.eat w p u h) (λ a q u'. ends (u', tt));
  }

  Rounds-bind :
      {A : Type 0} {m : M A} {k : A → M Round}
      → Keeps f m
      → ((a : A) → Rounds f (k a))
      → Rounds f (m >>= k)
  Rounds-bind x y = record {
    round = λ w p u h. Ends-bind (x.keep w p u h) (λ a q u'. (y a).round w q u' h);
  }

  Rounds-if : {m n : M Round} (b : Bool) → Rounds f m → Rounds f n → Rounds f (if b then m else n)
  Rounds-if true x y = x
  Rounds-if false x y = y

module _ (f : ℕ) where
  Keeps-no_description : (description : Bytes) → Keeps f (no_description description)
  unfolding no_description
  Keeps-no_description [] = record { keep = λ w p u h. ends u }
  Keeps-no_description (c ∷ s) = record {
    keep = λ w p u h. (Consumes-Keeps (Consumes-unexpected_token p.prev)).keep w p u h;
  }

  Rounds-type :
      (description : Bytes) (doc : SchemaDocument) → Rounds f (type_round f description doc)
  unfolding type_round
  Rounds-type description doc = Rounds-return _ (Consumes-type_system f description)

  Rounds-schema :
      (description : Bytes) (doc : SchemaDocument) → Rounds f (schema_round f description doc)
  unfolding schema_round
  Rounds-schema description doc = Rounds-return _ (Consumes-schema f description)

  Rounds-directive :
      (description : Bytes) (doc : SchemaDocument) → Rounds f (directive_round f description doc)
  unfolding directive_round
  Rounds-directive description doc = Rounds-return _ (Consumes-directive_definition f description)

  Rounds-extension :
      (description : Bytes) (doc : SchemaDocument) → Rounds f (extension_round f description doc)
  unfolding extension_round
  Rounds-extension description doc =
      Rounds-bind (Keeps-no_description description)
        (λ _. Rounds-return _ (Consumes-extension f doc))

  Rounds-unknown : Rounds f (unknown_round f)
  unfolding unknown_round
  Rounds-unknown = record {
    round = λ w p u h.
        Ends-bind (unexpected_error-Ends p u.valid)
          (λ _ q u'. ends (Upto-le (omega arith) u', u'.weight_le));
  }

  Rounds-cases :
      (word description : Bytes) (doc : SchemaDocument)
      → Rounds f (round_cases f word description doc)
  unfolding round_cases
  Rounds-cases word description doc = Rounds-if _ (Rounds-type description doc) (
      Rounds-if _ (Rounds-schema description doc) (
        Rounds-if _ (Rounds-directive description doc)
          (Rounds-if _ (Rounds-extension description doc) Rounds-unknown)))

  Rounds-breaks : (doc : SchemaDocument) → Rounds f (unexpected_error >> return (breaks doc))
  Rounds-breaks doc = record {
    round = λ w p u h.
        Ends-bind (unexpected_error-Ends p u.valid) (λ _ q u'. ends (Upto-le (omega arith) u', tt));
  }

  pub Rounds-document : (doc : SchemaDocument) → Rounds f (document_round f doc)
  unfolding document_round
  Rounds-document doc = Rounds-bind Keeps-peek (λ first.
      Rounds-bind (Keeps-if (is_text first.kind) Keeps-description (Keeps-return []))
        (λ description. Rounds-bind Keeps-peek (λ tok.
          Rounds-if (not (kind_eq tok.kind name)) (Rounds-breaks doc)
            (Rounds-cases tok.value description doc))))
