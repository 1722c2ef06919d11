-- ===== src/Lexer/Bounds/Token.antt =====
-- ws and ReadToken of lexer/lexer.go stay inside the input.
use gqlparser.Lexer.Bounds.Number.{
  read_number-Placed, skip_name-InToken, skip_comment-InToken, back-advance,
}
use gqlparser.Lexer.Bounds.Text.{read_string-Placed, read_block_string-Placed, length-starts_with}
use gqlparser.Lexer.Bounds.Makers.{
  make_value_token-Placed, make_error-Placed, advance-InToken, make_token-Placed, Valid, InToken,
  Placed,
}
use gqlparser.Lexer.Read.{
  token-falls, punctuator, token_step, token_turn, read_token, token_cases, token_error, mark_start,
}
use gqlparser.Lexer.Block.{read_block_string, triple_quote}
use gqlparser.Lexer.Str.{read_string}
use mathlib.Core.Path.{subst}
use gqlparser.Lexer.Scan.{
  read_name, read_comment, is_digit, is_name_start, ws_turn-inr, ws-falls, ws_step, ws, ws_turn,
}
use gqlparser.Base.{
  if◌then◌else◌, repeat_post, ◌||◌, ◌&&◌, not, ltb, Option-cases, Post-intro, ◌+◌, inl, inr, ◌==◌,
  starts_with, if_both, Bool-cases, refl, sym, [], ◌∷◌, leaves, goes_on, Post, arith, ap, Bytes,
  length, ◌≡◌, ◌≤◌, ℕ,
}
use gqlparser.Ast.Source.{Source}
use gqlparser.Lexer.State.{
  unexpected_character, single_quote, invalid_character, remaining, advance, make_token,
  make_value_token, Lexer, rest, length-rest,
}
use gqlparser.Lexer.Token.{spread, name, eof}

-- Between tokens, at or behind `o`.
pub record Between (o s : Lexer) : Type 0 where
  pub same_source : s.source ≡ o.source
  pub forward : o.end ≤ s.end
  pub end_le : s.end ≤ length o.source.input
  pub runes_le : s.end_runes ≤ s.end
  pub line_start_le : s.line_start_runes ≤ s.end_runes

pub InToken-Between : {o s : Lexer} → InToken o s → Between o s
InToken-Between i = record {
  same_source = i.same_source;
  forward = i.forward;
  end_le = i.end_le;
  runes_le = i.runes_le;
  line_start_le = omega (arith, i.line_start_le, i.start_runes_le);
}

pub ws_turn-Between :
    {o : Lexer} (s s' : Lexer) (l : Bytes)
    → s.end + length l ≤ length o.source.input
    → ws_turn s l ≡ inl s'
    → Between o s
    → Between o s'
unfolding ws_turn
ws_turn-Between s s' [] h e b = cc
ws_turn-Between s s' (c ∷ []) h e b = ground arith
ws_turn-Between s s' (c ∷ d ∷ []) h e b = ground arith
ws_turn-Between s s' (c ∷ d ∷ f ∷ l) h e b = ground arith

pub room : {o s : Lexer} → Between o s → s.end + length (rest s) ≤ length o.source.input
room {o} {s} b =
    let e = ap (λ (src : Source). length src.input) b.same_source in
    omega (arith, length-rest s, b.end_le)

pub ws-Between : {o : Lexer} (s : Lexer) → Between o s → Between o (ws s)
unfolding ws
ws-Between {o} = repeat_post ws_step remaining ws-falls (Between o) (Between o) (λ s b.
    Post-intro (ws_step s) (λ s' e. ws_turn-Between s s' (rest s) (room b) e b)
      (λ r e. subst (Between o) (sym (ws_turn-inr s r (rest s) e)) b))

pub mark_start-InToken : {o s : Lexer} → Between o s → InToken o (mark_start s)
mark_start-InToken b = record {
  same_source = b.same_source;
  forward = b.forward;
  end_le = b.end_le;
  runes_le = b.runes_le;
  start_le = omega arith;
  start_runes_le = omega arith;
  line_start_le = b.line_start_le;
}

pub token_error-Placed : {o : Lexer} (r : ℕ) {s : Lexer} → InToken o s → Placed o (token_error r s)
unfolding token_error
token_error-Placed {o} r {s} i =
    if_both (Placed o) (ltb r 0x20 && not (r == 0x09) && not (r == 0x0a) && not (r == 0x0d))
      (make_error-Placed (invalid_character r) i)
      (if_both (Placed o) (r == b'\'') (make_error-Placed single_quote i)
        (make_error-Placed (unexpected_character r) i))

pub spread_or_error-Placed :
    {o : Lexer} (r : ℕ) (s : Lexer)
    → InToken o s
    → Placed o (
        if starts_with (b'.' ∷ b'.' ∷ b'.' ∷ []) (rest s)
        then make_value_token spread [] (advance 2 2 (advance 1 1 s))
        else token_error r s)
spread_or_error-Placed {o} r s i =
    elim (Bool-cases (starts_with (b'.' ∷ b'.' ∷ b'.' ∷ []) (rest s))) [
      | inl h ↦
          let three = length-starts_with (b'.' ∷ b'.' ∷ b'.' ∷ []) (rest s) h in
          let i1 = advance-InToken 1 i (omega arith) in
          let two : 2 ≤ length (rest (advance 1 1 s)) =
            omega (arith, length-rest s, length-rest (advance 1 1 s)) in
          rw h (make_value_token-Placed spread [] (advance-InToken 2 i1 two))
      | inr h ↦ rw h (token_error-Placed r i)
    ]

pub string_or_block-Placed :
    {o : Lexer} (s : Lexer)
    → InToken o s
    → s.start ≡ s.end
    → s.start_runes ≡ s.end_runes
    → 1 ≤ length (rest s)
    → Placed o (
        if starts_with triple_quote (rest s)
        then read_block_string (advance 1 1 s)
        else read_string (advance 1 1 s))
string_or_block-Placed {o} s i k k' one =
    let i1 = advance-InToken 1 i one in
    elim (Bool-cases (starts_with triple_quote (rest s))) [
      | inl h ↦
          let three = length-starts_with triple_quote (rest s) h in
          let two : 2 ≤ length (rest (advance 1 1 s)) =
            omega (arith, length-rest s, length-rest (advance 1 1 s)) in
          rw h (read_block_string-Placed _ i1 (omega arith) (omega arith) two)
      | inr h ↦ rw h (read_string-Placed _ i1 (omega arith) (omega arith))
    ]

-- What one turn of `ReadToken` leads to, at the start of a token.
pub token_cases-Placed :
    {o : Lexer} (s : Lexer) (r : ℕ) (l : Bytes)
    → r ∷ l ≡ rest s
    → InToken o s
    → s.start ≡ s.end
    → s.start_runes ≡ s.end_runes
    → Post (Between o) (Placed o) (token_cases s r (r ∷ l))
unfolding token_cases read_comment read_name make_token make_value_token
token_cases-Placed {o} s r l h i k k' =
    let T = Post (Between o) (Placed o) in
    let one : 1 ≤ length (rest s) = omega (arith, ap length h) in
    let i1 = advance-InToken 1 i one in
    let number = subst (InToken o) (sym (back-advance 1 s)) i in
    if_both T (r == b'.') (leaves (rw h (spread_or_error-Placed r s i))) (
      if_both T (r == b'#') (goes_on (InToken-Between (skip_comment-InToken _ i1))) (
        if_both T (is_name_start r) (leaves (make_token-Placed name (skip_name-InToken _ i1))) (
          if_both T (r == b'-' || is_digit r) (leaves (read_number-Placed _ number)) (
            if_both T (r == b'"') (leaves (rw h (string_or_block-Placed s i k k' one)))
              (leaves (token_error-Placed r i))))))

pub token_turn-Placed :
    {o : Lexer} (s : Lexer) (l : Bytes)
    → l ≡ rest s
    → InToken o s
    → s.start ≡ s.end
    → s.start_runes ≡ s.end_runes
    → Post (Between o) (Placed o) (token_turn s l)
unfolding token_turn
token_turn-Placed s [] h i k k' = leaves (make_token-Placed eof i)
token_turn-Placed s (r ∷ l) h i k k' = elim (Option-cases (punctuator r)) [
  | inl e ↦ rw (e, token_turn) (token_cases-Placed s r l h i k k')
  | inr (kind, e) ↦
      rw (e, token_turn)
        (leaves
          (make_value_token-Placed kind [] (advance-InToken 1 i (omega (arith, ap length h)))))
]

pub read_token-Between : {o : Lexer} (s : Lexer) → Between o s → Placed o (read_token s)
unfolding read_token
read_token-Between {o} = repeat_post token_step remaining token-falls (Between o) (Placed o) (λ s b.
    token_turn-Placed (mark_start (ws s)) _ refl (mark_start-InToken (ws-Between s b)) refl refl)

pub Valid-Between : {s : Lexer} → Valid s → Between s s
Valid-Between v = record {
  same_source = refl;
  forward = omega arith;
  end_le = v.end_le;
  runes_le = v.runes_le;
  line_start_le = v.line_start_le;
}

-- From a state inside its input, whatever ReadToken returns, an error included: the source is the
-- same, the lexer does not move back and stays inside the input, its rune counters do not pass its
-- byte counters, and the token's start and end are in order and inside the input.
pub read_token-Placed : (s : Lexer) → Valid s → Placed s (read_token s)
read_token-Placed s v = read_token-Between s (Valid-Between v)

pub read_token-Valid : (s : Lexer) → Valid s → Valid (read_token s).lexer
read_token-Valid s v =
    let i = (read_token-Placed s v).lexer in
    record {
      end_le = omega (arith, i.end_le, ap (λ (src : Source). length src.input) i.same_source);
      runes_le = i.runes_le;
      line_start_le = omega (arith, i.line_start_le, i.start_runes_le);
    }
