-- ===== src/Parser/Fuel/Weight.antt =====
-- What a parser has still to read, and how far the functions of parser/parser.go bring it down.
use gqlparser.Lexer.Progress.{read_token-Beyond}
use gqlparser.Ast.Source.{Source}
use gqlparser.Lexer.Bounds.Token.{read_token-Valid, read_token-Placed}
use gqlparser.Lexer.Read.{read_token}
use gqlparser.Lexer.Bounds.Makers.{Valid}
use gqlparser.Gqlerror.{Error}
use gqlparser.Lexer.State.{remaining, Lexer}
use gqlparser.Lexer.Token.{eof, kind_eq, Token, Kind}
use gqlparser.Parser.State.{peek, Fault, M, Parser, peek_on}
use gqlparser.Base.{
  ◌≤◌, ◌≢◌, Bool-cases, refl, none, some, true, false, inl, inr, length, ◌<◌, ◌+◌, ap, not, ◌*◌,
  arith, Bool, if◌then◌else◌, ◌≡◌, Option, ℕ,
}

-- A token whose taking brings the parser on: no error, and not the end of the input.
unfoldable pub is_heavy : Kind → Option Error → Bool
is_heavy k none = not (kind_eq k eof)
is_heavy k (some e) = false

unfoldable pub weight_on : Option Fault → Parser → ℕ
weight_on (some e) p = 0
weight_on none p =
    if p.peeked
    then 2 * remaining p.lexer + (if is_heavy p.peek_token.kind p.peek_error then 2 else 1)
    else 2 * remaining p.lexer + 1

-- 0 exactly when there is an error.
unfoldable pub weight : Parser → ℕ
unfolding weight_on is_heavy
weight p = weight_on p.err p

-- The lexer is inside its input, and at most `w` is left to read.
pub record Upto (w : ℕ) (q : Parser) : Type 0 where
  pub weight_le : weight q ≤ w
  pub valid : Valid q.lexer

-- A function ends with `P`, and does not run out of fuel.
pub data Ends {A : Type 0} (P : A → Parser → Type 0) : Option (A × Parser) → Type 0 where
  ends : {a : A} {q : Parser} → P a q → Ends P (some (a, q))

pub Ends-bind :
    {A B : Type 0} {P : A → Parser → Type 0} {Q : B → Parser → Type 0} {m : Option (A × Parser)}
    {f : A → M B}
    → Ends P m
    → ((a : A) (q : Parser) → P a q → Ends Q (f a q))
    → Ends Q (elim m [ none ↦ none | some (a, q) ↦ f a q ])
Ends-bind (ends {a} {q} h) k = k a q h

pub Ends-weaken :
    {A : Type 0} {P Q : A → Parser → Type 0} {m : Option (A × Parser)}
    → Ends P m
    → ((a : A) (q : Parser) → P a q → Q a q)
    → Ends Q m
Ends-weaken (ends {a} {q} h) k = ends (k a q h)

-- The token `tok` is the next one, and is read ahead.
unfoldable pub Peeked : Token → Parser → Type 0
unfolding peek_on
Peeked tok p = peek_on p.err p ≡ (tok, p)

pub read_token-remaining : (s : Lexer) → Valid s → remaining (read_token s).lexer ≤ remaining s
read_token-remaining s v =
    let i = (read_token-Placed s v).lexer in
    omega (arith, i.forward, ap (λ (src : Source). length src.input) i.same_source)

heavy_parts : (k : Kind) (e : Option Error) → is_heavy k e ≡ true → (e ≡ none) × (k ≢ eof)
unfolding is_heavy kind_eq
heavy_parts k none h = (refl, λ same. cc (h, same))
heavy_parts k (some e) h = cc

read_token-heavy :
    (s : Lexer)
    → Valid s
    → is_heavy (read_token s).token.kind (read_token s).err ≡ true
    → remaining (read_token s).lexer < remaining s
read_token-heavy s v h =
    let i = (read_token-Placed s v).lexer in
    let (no_err, not_eof) = heavy_parts (read_token s).token.kind (read_token s).err h in
    omega (
      arith,
      (read_token-Beyond s v).read no_err not_eof,
      i.end_le,
      ap (λ (src : Source). length src.input) i.same_source,
    )

-- Reading a token ahead does not add to the weight.
read_ahead-weight :
    (s : Lexer)
    → Valid s
    → 2 * remaining (read_token s).lexer
        + (if is_heavy (read_token s).token.kind (read_token s).err then 2 else 1)
      ≤ 2 * remaining s + 1
read_ahead-weight s v = elim (Bool-cases (is_heavy (read_token s).token.kind (read_token s).err)) [
  | inl h ↦ rw h (omega (arith, read_token-heavy s v h))
  | inr h ↦ rw h (omega (arith, read_token-remaining s v))
]

-- A state by its fields, so that each lemma splits on those that matter.
abbrev pub state : Lexer → Option Fault → Bool → Token → Option Error → Token → Parser
state l e b t pe pr = record {
  lexer = l;
  err = e;
  peeked = b;
  peek_token = t;
  peek_error = pe;
  prev = pr;
}

pub peek_on-Upto :
    (l : Lexer) (e : Option Fault) (b : Bool) (t : Token) (pe : Option Error) (pr : Token)
    → Valid l
    → Upto (weight (state l e b t pe pr)) (peek_on e (state l e b t pe pr)).1
unfolding weight peek_on
peek_on-Upto l (some e) b t pe pr v = record { weight_le = omega arith; valid = v }
peek_on-Upto l none true t pe pr v = record { weight_le = omega arith; valid = v }
peek_on-Upto l none false t pe pr v = record {
  weight_le = read_ahead-weight l v;
  valid = read_token-Valid l v;
}

peek_on-Peeked :
    (l : Lexer) (e : Option Fault) (b : Bool) (t : Token) (pe : Option Error) (pr : Token)
    → Peeked (peek_on e (state l e b t pe pr)).0 (peek_on e (state l e b t pe pr)).1
unfolding Peeked peek_on
peek_on-Peeked l (some e) b t pe pr = refl
peek_on-Peeked l none true t pe pr = refl
peek_on-Peeked l none false t pe pr = refl

pub peek-Ends :
    (p : Parser) → Valid p.lexer → Ends (λ tok q. Upto (weight p) q × Peeked tok q) (peek p)
unfolding peek
peek-Ends p v = ends (
  peek_on-Upto p.lexer p.err p.peeked p.peek_token p.peek_error p.prev v,
  peek_on-Peeked p.lexer p.err p.peeked p.peek_token p.peek_error p.prev,
)

pub one_le_if : (b : Bool) → 1 ≤ (if b then 2 else 1)
one_le_if b = ground arith

weight-err :
    (l : Lexer) (e : Option Fault) (b : Bool) (t : Token) (pe : Option Error) (pr : Token)
    → ((e ≡ none) → 1 ≤ weight (state l e b t pe pr))
      × ((f : Fault) → e ≡ some f → weight (state l e b t pe pr) ≡ 0)
unfolding weight
weight-err l (some e) b t pe pr = (λ h. cc, λ f h. refl)
weight-err l none true t pe pr = (λ h. omega (arith, one_le_if (is_heavy t.kind pe)), λ f h. cc)
weight-err l none false t pe pr = (λ h. omega arith, λ f h. cc)

-- Without an error there is something left.
pub weight_pos : (p : Parser) → p.err ≡ none → 1 ≤ weight p
weight_pos p = (weight-err p.lexer p.err p.peeked p.peek_token p.peek_error p.prev).0

pub weight_zero : (p : Parser) (f : Fault) → p.err ≡ some f → weight p ≡ 0
weight_zero p = (weight-err p.lexer p.err p.peeked p.peek_token p.peek_error p.prev).1

-- A token that is read ahead is read again.
pub peek-again :
    (tok : Token) (p : Parser)
    → Valid p.lexer
    → Peeked tok p
    → Ends (λ t q. (t ≡ tok) × Peeked t q × Upto (weight p) q) (peek p)
unfolding peek Peeked
peek-again tok p v h = ends (
  ap (λ x. x.0) h,
  peek_on-Peeked p.lexer p.err p.peeked p.peek_token p.peek_error p.prev,
  peek_on-Upto p.lexer p.err p.peeked p.peek_token p.peek_error p.prev v,
)
