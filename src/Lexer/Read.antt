-- ===== src/Lexer/Read.antt =====
-- lexer/lexer.go: ReadToken.
use gqlparser.Base.{
  arith, ◌<◌, length, repeat, ℕ, ◌≡◌, not, ◌&&◌, Bytes, [], ◌∷◌, ◌⊎◌, inl, inr, Option, none, some,
  ◌==◌, ltb, ◌||◌, if◌then◌else◌, starts_with,
}
use gqlparser.Lexer.Block.{read_block_string, triple_quote}
use gqlparser.Lexer.Number.{read_number}
use gqlparser.Lexer.Scan.{
  ws, read_comment, read_name, is_name_start, is_digit, ws-Follows, comment-Follows, skip_comment,
}
use gqlparser.Lexer.State.{
  length-rest, remaining, Lexer, Reading, invalid_character, single_quote, unexpected_character,
  rest, advance, make_token, make_value_token, make_error,
}
use gqlparser.Lexer.Str.{read_string}
use gqlparser.Lexer.Token.{
  Kind, eof, bang, dollar, amp, paren_l, paren_r, spread, colon, equals, at, bracket_l, bracket_r,
  brace_l, brace_r, pipe,
}

-- The punctuators of one byte.
unfoldable pub punctuator : ℕ → Option Kind
punctuator r =
    if r == b'!'
    then some bang
    else if r == b'$'
    then some dollar
    else if r == b'&'
    then some amp
    else if r == b'('
    then some paren_l
    else if r == b')'
    then some paren_r
    else if r == b':'
    then some colon
    else if r == b'='
    then some equals
    else if r == b'@'
    then some at
    else if r == b'['
    then some bracket_l
    else if r == b']'
    then some bracket_r
    else if r == b'{'
    then some brace_l
    else if r == b'}'
    then some brace_r
    else if r == b'|'
    then some pipe
    else none

-- What stands behind the switch, with `s.end` moved back.
unfoldable pub token_error : ℕ → Lexer → Reading
token_error r s =
    if ltb r 0x20 && not (r == 0x09) && not (r == 0x0a) && not (r == 0x0d)
    then make_error (invalid_character r) s
    else if r == b'\''
    then make_error single_quote s
    else make_error (unexpected_character r) s

-- `s.start = s.end; s.startRunes = s.endRunes`
abbrev pub mark_start : Lexer → Lexer
mark_start s = record s { start = s.end; start_runes = s.end_runes }

-- The switch on the byte `r`, where `l` is the input from it on and `s` stands in front of it.
-- `inl` is a comment's end, from where `ReadToken` is called again.
unfoldable pub token_cases : Lexer → ℕ → Bytes → Lexer ⊎ Reading
token_cases s r l =
    if r == b'.'
    then inr (
        if starts_with (b'.' ∷ b'.' ∷ b'.' ∷ []) l
        then make_value_token spread [] (advance 2 2 (advance 1 1 s))
        else token_error r s)
    else if r == b'#'
    then inl (read_comment (advance 1 1 s)).lexer
    else if is_name_start r
    then inr (read_name (advance 1 1 s))
    else if r == b'-' || is_digit r
    then inr (read_number (advance 1 1 s))
    else if r == b'"'
    then inr (
        if starts_with triple_quote l
        then read_block_string (advance 1 1 s)
        else read_string (advance 1 1 s))
    else inr (token_error r s)

-- `ReadToken` behind its call of `ws`.
unfoldable pub token_turn : Lexer → Bytes → Lexer ⊎ Reading
token_turn s [] = inr (make_token eof s)
token_turn s (r ∷ l) = elim (punctuator r) [
  | some kind ↦ inr (make_value_token kind [] (advance 1 1 s))
  | none ↦ token_cases s r (r ∷ l)
]

abbrev pub token_step : Lexer → Lexer ⊎ Reading
token_step s = let s1 = mark_start (ws s) in token_turn s1 (rest s1)

token_turn-falls :
    (s s' : Lexer) (l : Bytes)
    → length l ≡ remaining s
    → token_turn s l ≡ inl s'
    → remaining s' < remaining s
unfolding token_turn token_cases read_comment make_token make_value_token
token_turn-falls s s' [] h e = cc
token_turn-falls s s' (r ∷ l) h e = ground (arith, comment-Follows (advance 1 1 s))

pub token-falls : (s s' : Lexer) → token_step s ≡ inl s' → remaining s' < remaining s
token-falls s s' e =
    let s1 = mark_start (ws s) in
    ground (arith, ws-Follows s, token_turn-falls s1 s' (rest s1) (length-rest s1))

-- `ReadToken`: a comment's end is followed by another turn.
unfoldable pub read_token : Lexer → Reading
unfolding repeat token_turn starts_with token_cases punctuator token_error ws read_comment
    skip_comment read_name read_number read_string read_block_string make_token make_value_token
    make_error is_name_start is_digit
read_token = repeat token_step remaining token-falls
