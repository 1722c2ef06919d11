-- ===== src/Lexer/Progress.antt =====
-- ReadToken of lexer/lexer.go moves on: a token that is no error and no end of input takes at least
-- one byte.
use mathlib.Core.Path.{subst}
use gqlparser.Lexer.Bounds.Text.{read_string-Placed, read_block_string-Placed, length-starts_with}
use gqlparser.Lexer.Str.{read_string}
use gqlparser.Lexer.Block.{read_block_string, triple_quote}
use gqlparser.Lexer.Bounds.Token.{
  Valid-Between, InToken-Between, ws-Between, mark_start-InToken, Between,
}
use gqlparser.Lexer.Token.{name, spread, eof}
use gqlparser.Lexer.Bounds.Number.{
  skip_comment-InToken, back-advance, skip_name-InToken, read_fraction-Placed,
  accept_digits-ReadDigits, accept_byte-InToken,
}
use gqlparser.Lexer.Bounds.Makers.{
  make_token-Placed, advance-InToken, Valid, length-input, Placed, InToken,
}
use gqlparser.Lexer.Number.{read_fraction, read_number}
use gqlparser.Lexer.State.{
  length-rest, remaining, make_token, make_value_token, unexpected_character, single_quote,
  invalid_character, rest, advance, back, Message, make_error, Reading, Lexer,
}
use gqlparser.Lexer.Read.{
  mark_start, token-falls, punctuator, token_step, token_turn, read_token, token_cases, token_error,
}
use gqlparser.Lexer.Scan.{
  is_digit, is_name_start, ws, read_name, read_comment, accept_digits, accept_byte, accept_on,
}
use gqlparser.Base.{
  refl, ◌||◌, sym, Option-cases, leaves, repeat_post, starts_with, goes_on, if◌then◌else◌, Post, ap,
  length, inl, inr, ◌⊎◌, ◌≤◌, Bool-cases, ◌==◌, [], ◌∷◌, not, ◌&&◌, ◌≢◌, arith, Bytes, ltb, true,
  none, ◌<◌, if_both, List, ◌≡◌, ℕ,
}

-- The bound that `InToken` gives, seen from the state itself.
InToken-self : {o s : Lexer} → InToken o s → InToken s s
InToken-self {o} {s} i = record {
  same_source = refl;
  forward = omega arith;
  end_le = omega (arith, length-input i, i.end_le);
  runes_le = i.runes_le;
  start_le = i.start_le;
  start_runes_le = i.start_runes_le;
  line_start_le = i.line_start_le;
}

-- No error, and no end of input: then some bytes behind `n` are read.
pub record Beyond (n : ℕ) (r : Reading) : Type 0 where
  pub read : r.err ≡ none → r.token.kind ≢ eof → n < r.lexer.end

Placed-Beyond : {n : ℕ} {s : Lexer} {r : Reading} → n < s.end → Placed s r → Beyond n r
Placed-Beyond h p = record { read = λ e k. omega (arith, p.lexer.forward) }

make_error-Beyond : (n : ℕ) (m : Message) (s : Lexer) → Beyond n (make_error m s)
unfolding make_error
make_error-Beyond n m s = record { read = λ e k. cc }

token_error-Beyond : (n r : ℕ) (s : Lexer) → Beyond n (token_error r s)
unfolding token_error
token_error-Beyond n r s =
    if_both (Beyond n) (ltb r 0x20 && not (r == 0x09) && not (r == 0x0a) && not (r == 0x0d))
      (make_error-Beyond n (invalid_character r) s)
      (if_both (Beyond n) (r == b'\'') (make_error-Beyond n single_quote s)
        (make_error-Beyond n (unexpected_character r) s))

accept_on-advance :
    (accepted : List ℕ) (l : Bytes) (s : Lexer)
    → (accept_on accepted l s).0 ≡ true
    → (accept_on accepted l s).1 ≡ advance 1 1 s
unfolding accept_on
accept_on-advance accepted [] s h = cc
accept_on-advance [] (c ∷ cs) s h = cc
accept_on-advance (a ∷ more) (c ∷ cs) s h = ground (arith, accept_on-advance more (c ∷ cs) s)

-- An accepted byte is read.
pub accept_byte-advance :
    (accepted : List ℕ) (s : Lexer)
    → (accept_byte accepted s).0 ≡ true
    → (accept_byte accepted s).1 ≡ advance 1 1 s
unfolding accept_byte
accept_byte-advance accepted s = accept_on-advance accepted (rest s) s

-- Behind the integer part, if it has a digit.
integer-Beyond :
    {o : Lexer} (n : ℕ) (s : Lexer)
    → InToken o s
    → n ≤ s.end
    → (accept_digits s).0 ≢ 0 ⊎ (n < s.end)
    → Beyond n (read_fraction (accept_digits s).1)
integer-Beyond n s i h (inl some_digit) =
    let d = accept_digits-ReadDigits i in
    Placed-Beyond (omega (arith, h, some_digit, ap (λ (t : Lexer). t.end) d.counted))
      (read_fraction-Placed (InToken-self d.inside))
integer-Beyond n s i h (inr beyond) =
    let d = accept_digits-ReadDigits (InToken-self i) in
    Placed-Beyond (omega (arith, d.inside.forward)) (read_fraction-Placed (InToken-self d.inside))

pub read_number-Beyond :
    {o : Lexer} (s : Lexer) → InToken o (back 1 s) → Beyond (back 1 s).end (read_number s)
unfolding read_number
read_number-Beyond {o} s i =
    let n = (back 1 s).end in
    let s1 = (accept_byte (b'-' ∷ []) (back 1 s)).1 in
    let i1 = accept_byte-InToken (b'-' ∷ []) (InToken-self i) in
    let s2 = (accept_byte (b'0' ∷ []) s1).1 in
    let i2 = accept_byte-InToken (b'0' ∷ []) i1 in
    elim (Bool-cases (accept_byte (b'0' ∷ []) s1).0) [
      | inl z ↦
          let e = ap (λ (t : Lexer). t.end) (accept_byte-advance (b'0' ∷ []) s1 z) in
          rw z (
            if_both (Beyond n) ((accept_digits s2).0 == 0)
              (integer-Beyond n s2 i2 i2.forward (inr (omega (arith, e, i1.forward))))
              (make_error-Beyond n _ _))
      | inr z ↦ rw z (elim (Bool-cases ((accept_digits s2).0 == 0)) [
        | inl none_read ↦ rw none_read (make_error-Beyond n _ _)
        | inr some_read ↦ rw some_read (integer-Beyond n s2 i2 i2.forward (inl (ground arith)))
      ])
    ]

string_or_block-Beyond :
    {o : Lexer} (s : Lexer)
    → InToken o s
    → s.start ≡ s.end
    → s.start_runes ≡ s.end_runes
    → 1 ≤ length (rest s)
    → Beyond s.end (
        if starts_with triple_quote (rest s)
        then read_block_string (advance 1 1 s)
        else read_string (advance 1 1 s))
string_or_block-Beyond {o} s i k k' one =
    let i1 = InToken-self (advance-InToken 1 i one) in
    elim (Bool-cases (starts_with triple_quote (rest s))) [
      | inl h ↦
          let three = length-starts_with triple_quote (rest s) h in
          let two : 2 ≤ length (rest (advance 1 1 s)) =
            omega (arith, length-rest s, length-rest (advance 1 1 s)) in
          rw h (
            Placed-Beyond (omega arith)
              (read_block_string-Placed _ i1 (omega arith) (omega arith) two))
      | inr h ↦
          rw h (Placed-Beyond (omega arith) (read_string-Placed _ i1 (omega arith) (omega arith)))
    ]

spread_or_error-Beyond :
    (r : ℕ) (s : Lexer)
    → Beyond s.end (
        if starts_with (b'.' ∷ b'.' ∷ b'.' ∷ []) (rest s)
        then make_value_token spread [] (advance 2 2 (advance 1 1 s))
        else token_error r s)
unfolding make_value_token
spread_or_error-Beyond r s =
    if_both (Beyond s.end) (starts_with (b'.' ∷ b'.' ∷ b'.' ∷ []) (rest s))
      (record { read = λ e k. omega arith }) (token_error-Beyond s.end r s)

token_cases-Beyond :
    {o : Lexer} (s : Lexer) (r : ℕ) (l : Bytes)
    → r ∷ l ≡ rest s
    → InToken o s
    → s.start ≡ s.end
    → s.start_runes ≡ s.end_runes
    → Post (Between o) (Beyond s.end) (token_cases s r (r ∷ l))
unfolding token_cases read_comment read_name make_token make_value_token
token_cases-Beyond {o} s r l h i k k' =
    let T = Post (Between o) (Beyond s.end) in
    let one : 1 ≤ length (rest s) = omega (arith, ap length h) in
    let i1 = advance-InToken 1 i one in
    let named = make_token-Placed name (skip_name-InToken _ (InToken-self i1)) in
    let number = subst (InToken o) (sym (back-advance 1 s)) i in
    let numbered =
      subst (λ (t : Lexer). Beyond t.end (read_number (advance 1 1 s))) (back-advance 1 s)
        (read_number-Beyond (advance 1 1 s) number) in
    if_both T (r == b'.') (leaves (rw h (spread_or_error-Beyond r s))) (
      if_both T (r == b'#') (goes_on (InToken-Between (skip_comment-InToken _ i1))) (
        if_both T (is_name_start r) (leaves (Placed-Beyond {n = s.end} (omega arith) named)) (
          if_both T (r == b'-' || is_digit r) (leaves numbered) (
            if_both T (r == b'"') (leaves (rw h (string_or_block-Beyond s i k k' one)))
              (leaves (token_error-Beyond s.end r s))))))

Post-weaken :
    {o : Lexer} {n m : ℕ} {x : Lexer ⊎ Reading}
    → m ≤ n
    → Post (Between o) (Beyond n) x
    → Post (Between o) (Beyond m) x
Post-weaken h (goes_on b) = goes_on b
Post-weaken h (leaves p) = leaves (record { read = λ e ne. omega (arith, p.read e ne) })

token_turn-Beyond :
    {o : Lexer} (s : Lexer) (l : Bytes)
    → l ≡ rest s
    → InToken o s
    → s.start ≡ s.end
    → s.start_runes ≡ s.end_runes
    → Post (Between o) (Beyond o.end) (token_turn s l)
unfolding token_turn make_token make_value_token
token_turn-Beyond s [] h i k k' = leaves (record { read = λ e ne. absurd (ne refl) })
token_turn-Beyond {o} s (r ∷ l) h i k k' = elim (Option-cases (punctuator r)) [
  | inl e ↦ rw (e, token_turn) (Post-weaken i.forward (token_cases-Beyond s r l h i k k'))
  | inr (kind, e) ↦ rw (e, token_turn) (leaves (record { read = λ e ne. omega (arith, i.forward) }))
]

-- Without an error, every token but the end of the input is read off the input.
pub read_token-Beyond : (s : Lexer) → Valid s → Beyond s.end (read_token s)
unfolding read_token
read_token-Beyond s v =
    repeat_post token_step remaining token-falls (Between s) (Beyond s.end)
      (λ t b.
        token_turn-Beyond (mark_start (ws t)) _ refl (mark_start-InToken (ws-Between t b)) refl
          refl)
      s (Valid-Between v)

-- From a state inside its input, a token that comes without an error and is not the end of the
-- input leaves the lexer behind where it was: at least one byte is read, so lexing terminates.
pub end-read_token :
    (s : Lexer)
    → Valid s
    → (read_token s).err ≡ none
    → (read_token s).token.kind ≢ eof
    → s.end < (read_token s).lexer.end
end-read_token s v = (read_token-Beyond s v).read
