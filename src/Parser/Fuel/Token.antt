-- ===== src/Parser/Fuel/Token.antt =====
-- expect, expectKeyword, skip and unexpectedError of parser/parser.go: how far they bring the weight
-- down.
use gqlparser.Lexer.Bounds.Makers.{Valid}
use gqlparser.Parser.Fuel.Steps.{next-Peeked, report-Ends}
use gqlparser.Parser.Fuel.Weight.{
  peek-again, weight_zero, weight_pos, ends, Ends-weaken, peek-Ends, Ends-bind, Peeked, Ends,
  weight, Upto,
}
use gqlparser.Parser.State.{
  Fault, skip_on, expected_keyword, return, ◌>>◌, expected_kind, report, unexpected, next,
  Complaint, expect, skip, unexpected_error, Parser, skip_token, unexpected_token, expect_keyword,
}
use gqlparser.Lexer.Token.{name, eof, Token, Kind, kind_eq}
use gqlparser.Base.{
  ◌∙◌, ap, Option, refl, none, some, bytes_eq, ◌<◌, if◌then◌else◌, arith, ◌≡◌, ◌&&◌, Bytes, ℕ, Bool,
  true, false, ◌-◌, ◌≤◌,
}

pub Upto-le : {v w : ℕ} {q : Parser} → v ≤ w → Upto v q → Upto w q
Upto-le h u = record { weight_le = omega (arith, u.weight_le); valid = u.valid }

-- Two kinds that are the same one are not the end of the input, if one is not.
kind_eq-eof : (a b : Kind) → kind_eq a b ≡ true → kind_eq b eof ≡ false → kind_eq a eof ≡ false
unfolding kind_eq
kind_eq-eof a b h k = ground arith

-- A token of the expected kind is taken, or there is an error.
take_or_report :
    (ok : Bool) (tok : Token) (c : Complaint) (w : ℕ) (q : Parser)
    → Upto w q
    → Peeked tok q
    → (ok ≡ true → kind_eq tok.kind eof ≡ false)
    → Ends (λ t q'. Upto (w - 1) q') ((if ok then next else (report tok c >> return tok)) q)
take_or_report true tok c w q u pk h =
    Ends-weaken (next-Peeked tok q u.valid pk (h refl))
      (λ t q' x. Upto-le (omega (arith, u.weight_le)) x)
take_or_report false tok c w q u pk h =
    Ends-bind (report-Ends tok c q u.valid) (λ _ q' x. ends (Upto-le (omega arith) x))

pub expect-Ends :
    (kind : Kind) (p : Parser)
    → kind_eq kind eof ≡ false
    → Valid p.lexer
    → Ends (λ t q. Upto (weight p - 1) q) (expect kind p)
unfolding expect
expect-Ends kind p k v = Ends-bind (peek-Ends p v) (λ tok q (u, pk).
    take_or_report (kind_eq tok.kind kind) tok (expected_kind kind tok.kind) (weight p) q u pk
      (λ e. kind_eq-eof tok.kind kind e k))

and-left : (a b : Bool) → (a && b) ≡ true → a ≡ true
and-left a b h = ground arith

pub expect_keyword-Ends :
    (word : Bytes) (p : Parser)
    → Valid p.lexer
    → Ends (λ t q. Upto (weight p - 1) q) (expect_keyword word p)
unfolding expect_keyword
expect_keyword-Ends word p v = Ends-bind (peek-Ends p v) (λ tok q (u, pk).
    take_or_report (kind_eq tok.kind name && bytes_eq tok.value word) tok
      (expected_keyword word tok) (weight p) q u pk
      (λ e. kind_eq-eof tok.kind name (and-left _ _ e) (unfold kind_eq in refl)))

pub unexpected_token-Ends :
    (tok : Token) (p : Parser) → Valid p.lexer → Ends (λ u q. Upto 0 q) (unexpected_token tok p)
unfolding unexpected_token
unexpected_token-Ends tok p v = report-Ends tok (unexpected tok) p v

pub unexpected_error-Ends :
    (p : Parser) → Valid p.lexer → Ends (λ u q. Upto 0 q) (unexpected_error p)
unfolding unexpected_error
unexpected_error-Ends p v =
    Ends-bind (peek-Ends p v) (λ tok q (u, pk). unexpected_token-Ends tok q u.valid)

-- What `skip` does: at most `v` is left, and less than `w` if it says that it took a token.
pub record Skipped (v w : ℕ) (took : Bool) (q : Parser) : Type 0 where
  pub upto : Upto v q
  pub less : took ≡ true → weight q < w

take-Peeked :
    (ok : Bool) (tok : Token) (w : ℕ) (q : Parser)
    → ok ≡ true
    → Upto w q
    → Peeked tok q
    → 1 ≤ w
    → kind_eq tok.kind eof ≡ false
    → Ends (Skipped (w - 1) w) ((if ok then (next >> return true) else return false) q)
take-Peeked true tok w q e u pk one h = Ends-bind (next-Peeked tok q u.valid pk h) (λ t q' x.
    ends (record {
      upto = Upto-le (omega (arith, u.weight_le)) x;
      less = λ e. omega (arith, x.weight_le, u.weight_le);
    }))
take-Peeked false tok w q e u pk one h = cc

Skipped-le : {w : ℕ} {b : Bool} {q : Parser} → Skipped (w - 1) w b q → Skipped w w b q
Skipped-le s = record { upto = Upto-le (omega arith) s.upto; less = s.less }

take_if :
    (ok : Bool) (tok : Token) (w : ℕ) (q : Parser)
    → Upto w q
    → Peeked tok q
    → 1 ≤ w
    → (ok ≡ true → kind_eq tok.kind eof ≡ false)
    → Ends (Skipped w w) ((if ok then (next >> return true) else return false) q)
take_if true tok w q u pk one h =
    Ends-weaken (take-Peeked true tok w q refl u pk one (h refl)) (λ b q' x. Skipped-le x)
take_if false tok w q u pk one h = ends (record { upto = u; less = λ e. cc })

skip_on-Ends :
    (e : Option Fault) (kind : Kind) (p : Parser)
    → p.err ≡ e
    → kind_eq kind eof ≡ false
    → Valid p.lexer
    → Ends (Skipped (weight p) (weight p)) (skip_on e kind p)
unfolding skip_on skip_token
skip_on-Ends (some e) kind p h k v =
    ends (record { upto = record { weight_le = omega arith; valid = v }; less = λ q. cc })
skip_on-Ends none kind p h k v = Ends-bind (peek-Ends p v) (λ tok q (u, pk).
    take_if (kind_eq tok.kind kind) tok (weight p) q u pk (weight_pos p h)
      (λ e. kind_eq-eof tok.kind kind e k))

pub skip-Ends :
    (kind : Kind) (p : Parser)
    → kind_eq kind eof ≡ false
    → Valid p.lexer
    → Ends (Skipped (weight p) (weight p)) (skip kind p)
unfolding skip
skip-Ends kind p = skip_on-Ends p.err kind p refl

skip_on-Peeked :
    (e : Option Fault) (tok : Token) (kind : Kind) (p : Parser)
    → p.err ≡ e
    → kind_eq kind eof ≡ false
    → Valid p.lexer
    → Peeked tok p
    → kind_eq tok.kind kind ≡ true
    → Ends (Skipped (weight p - 1) (weight p)) (skip_on e kind p)
unfolding skip_on skip_token
skip_on-Peeked (some e) tok kind p h k v pk same = ends (record {
  upto = record { weight_le = omega (arith, weight_zero p e h); valid = v };
  less = λ q. cc;
})
skip_on-Peeked none tok kind p h k v pk same =
    Ends-bind (peek-again tok p v pk) (λ t q (et, pk', u).
      let is_kind : kind_eq t.kind kind ≡ true =
        ap (λ (x : Token). kind_eq x.kind kind) et ∙ same in
      take-Peeked (kind_eq t.kind kind) t (weight p) q is_kind u pk' (weight_pos p h)
        (kind_eq-eof t.kind kind is_kind k))

-- `skip` where the token is known to be there.
pub skip-Peeked :
    (tok : Token) (kind : Kind) (p : Parser)
    → kind_eq kind eof ≡ false
    → Valid p.lexer
    → Peeked tok p
    → kind_eq tok.kind kind ≡ true
    → Ends (Skipped (weight p - 1) (weight p)) (skip kind p)
unfolding skip
skip-Peeked tok kind p = skip_on-Peeked p.err tok kind p refl
