-- ===== src/Lexer/Bounds/Makers.antt =====
-- The lexer's invariant inside a token, and that what makes a token or an error of a state keeps
-- the positions inside the input: lexer/lexer.go.
use gqlparser.Base.{arith, ap, Bytes, ◌∙◌, length, ◌≡◌, ◌≤◌, ℕ}
use gqlparser.Ast.Source.{Source}
use gqlparser.Lexer.State.{
  advance, make_error, make_token, make_value_token, Lexer, Reading, Message, Moves, rest,
  length-rest,
}
use gqlparser.Lexer.Token.{Kind}

-- Between tokens.
pub record Valid (s : Lexer) : Type 0 where
  pub end_le : s.end ≤ length s.source.input
  pub runes_le : s.end_runes ≤ s.end
  pub line_start_le : s.line_start_runes ≤ s.end_runes

-- Inside a token that begins not before `o`.
pub record InToken (o s : Lexer) : Type 0 where
  pub same_source : s.source ≡ o.source
  pub forward : o.end ≤ s.end
  pub end_le : s.end ≤ length o.source.input
  pub runes_le : s.end_runes ≤ s.end
  pub start_le : s.start ≤ s.end
  pub start_runes_le : s.start_runes ≤ s.end_runes
  pub line_start_le : s.line_start_runes ≤ s.start_runes

-- A reading from `o`: its lexer, and its token's place in the input.
pub record Placed (o : Lexer) (r : Reading) : Type 0 where
  pub lexer : InToken o r.lexer
  pub src : r.token.pos.src ≡ o.source
  pub start_le : r.token.pos.start ≤ r.token.pos.end
  pub end_le : r.token.pos.end ≤ length o.source.input

pub length-input : {o s : Lexer} → InToken o s → length s.source.input ≡ length o.source.input
length-input i = ap (λ (src : Source). length src.input) i.same_source

pub Moves-InToken : {o s s' : Lexer} → Moves s s' (rest s) → InToken o s → InToken o s'
Moves-InToken {o} {s} {s'} m i = record {
  same_source = m.same_source ∙ i.same_source;
  forward = omega (arith, m.end_lt, i.forward);
  end_le = omega (arith, m.end_le, length-rest s, length-input i, i.end_le);
  runes_le = omega (arith, m.runes_le, i.runes_le, m.end_lt);
  start_le = omega (arith, m.same_start, i.start_le, m.end_lt);
  start_runes_le = omega (arith, m.same_start_runes, i.start_runes_le, m.end_runes_le);
  line_start_le = omega (arith, m.same_start_runes, m.same_line_start, i.line_start_le);
}

pub make_value_token-Placed :
    {o s : Lexer} (kind : Kind) (value : Bytes)
    → InToken o s
    → Placed o (make_value_token kind value s)
unfolding make_value_token
make_value_token-Placed kind value i = record {
  lexer = i;
  src = i.same_source;
  start_le = i.start_runes_le;
  end_le = omega (arith, i.runes_le, i.end_le);
}

pub make_token-Placed : {o s : Lexer} (kind : Kind) → InToken o s → Placed o (make_token kind s)
unfolding make_token
make_token-Placed kind i = make_value_token-Placed kind _ i

pub make_error-Placed : {o s : Lexer} (m : Message) → InToken o s → Placed o (make_error m s)
unfolding make_error
make_error-Placed m i = record {
  lexer = i;
  src = i.same_source;
  start_le = i.start_runes_le;
  end_le = omega (arith, i.runes_le, i.end_le);
}

-- Over `n` bytes that are there, as `n` runes.
pub advance-InToken :
    {o s : Lexer} (n : ℕ) → InToken o s → n ≤ length (rest s) → InToken o (advance n n s)
advance-InToken {o} {s} n i h = record {
  same_source = i.same_source;
  forward = omega (arith, i.forward);
  end_le = omega (arith, length-rest s, length-input i, i.end_le);
  runes_le = omega (arith, i.runes_le);
  start_le = omega (arith, i.start_le);
  start_runes_le = omega (arith, i.start_runes_le);
  line_start_le = i.line_start_le;
}
