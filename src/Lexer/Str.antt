-- ===== src/Lexer/Str.antt =====
-- lexer/lexer.go: readString and unhex.
use gqlparser.Base.Utf8.{decode_rune-width, decode_rune, decode_rune-pos, encode_rune}
use gqlparser.Base.{
  ℕ, ◌+◌, ◌-◌, ◌*◌, ◌<◌, ◌≡◌, not, ◌&&◌, ◌||◌, Bytes, [], ◌∷◌, ◌++◌, ◌⊎◌, inl, inr, Option, none,
  some, ◌==◌, ltb, leb, within, if◌then◌else◌, length, take, drop, arith, repeat,
}
use gqlparser.Lexer.State.{
  Moves-falls, Moves, Lexer, Reading, invalid_in_string, escape_at_end, bad_escape, unterminated,
  rest, slice, remaining, length-rest, advance, make_token, make_error,
}
use gqlparser.Lexer.Token.{string}

-- The value of one hexadecimal digit.
unfoldable pub hex_digit : ℕ → Option ℕ
hex_digit c =
    if within b'0' b'9' c
    then some (c - b'0')
    else if within b'a' b'f' c
    then some (c - b'a' + 10)
    else if within b'A' b'F' c
    then some (c - b'A' + 10)
    else none

-- The loop of `unhex`: `v <<= 4; v |= digit`. The low four bits are zero then, so it adds.
unfoldable pub unhex_from : ℕ → Bytes → Option ℕ
unfolding hex_digit
unhex_from v [] = some v
unhex_from v (c ∷ b) = elim (hex_digit c) [ none ↦ none | some d ↦ unhex_from (v * 16 + d) b ]

-- `unhex`
unfoldable pub unhex : Bytes → Option ℕ
unfolding unhex_from
unhex = unhex_from 0

-- The byte that an escape of one letter stands for.
unfoldable pub simple_escape : ℕ → Option ℕ
simple_escape e =
    if e == b'"' || e == b'/' || e == b'\\'
    then some e
    else if e == b'b'
    then some 0x08
    else if e == b'f'
    then some 0x0c
    else if e == b'n'
    then some 0x0a
    else if e == b'r'
    then some 0x0d
    else if e == b't'
    then some 0x09
    else none

-- The buffer, created only if there are escapes, and the lexer.
abbrev pub StringState : Type 0
StringState = Option Bytes × Lexer

-- `buf.WriteRune(char)`, if there is a buffer
abbrev pub write_rune : ℕ → Option Bytes → Option Bytes
write_rune char none = none
write_rune char (some buf) = some (buf ++ encode_rune char)

abbrev pub buffer_or : Bytes → Option Bytes → Bytes
buffer_or text none = text
buffer_or text (some buf) = buf

-- At the closing quote: the position covers the quotes, the value does not.
unfoldable pub close_string : Option Bytes → Lexer → Reading
close_string buf s =
    let t = (make_token string s).token in
    record {
      token = record t {
        value = buffer_or t.value buf;
        pos = record t.pos { start = t.pos.start - 1; end = t.pos.end + 1 };
      };
      err = none;
      lexer = advance 1 1 s;
    }

-- At `\u`, with the buffer so far; `l` is `s.Input[s.end:]`.
unfoldable pub unicode_escape : Bytes → Lexer → Bytes → StringState ⊎ Reading
unicode_escape buf s l =
    let s1 = advance 1 1 s in
    if leb (length l) 6
    then inr (make_error (bad_escape (rest s1)) s1)
    else elim (unhex (take 4 (drop 2 l))) [
      | none ↦ inr (make_error (bad_escape (take 5 (rest s1))) s1)
      | some r ↦ inl (some (buf ++ encode_rune r), advance 6 6 s)
    ]

-- At a backslash, with the bytes behind it.
unfoldable pub escape_turn : Bytes → Lexer → Bytes → StringState ⊎ Reading
escape_turn buf s [] = inr (make_error escape_at_end (advance 1 1 s))
escape_turn buf s (e ∷ l) =
    if e == b'u' then unicode_escape buf s (b'\\' ∷ e ∷ l) else elim (simple_escape e) [
      | none ↦ inr (make_error (bad_escape (encode_rune e)) (advance 1 1 s))
      | some b ↦ inl (some (buf ++ b ∷ []), advance 2 2 s)
    ]

-- The rune at the front, without a call of `decode_rune` in the ASCII range.
abbrev pub next_rune : ℕ → Bytes → ℕ × ℕ
next_rune r l = if leb 127 r then decode_rune (r ∷ l) else (r, 1)

-- One turn of the loop of `readString`, with `s.Input[s.end:]` at hand.
unfoldable pub string_turn : StringState → Bytes → StringState ⊎ Reading
string_turn (buf, s) [] = inr (make_error unterminated s)
string_turn (buf, s) (r ∷ l) =
    if r == b'\n' || r == b'\r'
    then inr (make_error unterminated s)
    else if ltb r 0x20 && not (r == b'\t')
    then inr (make_error (invalid_in_string r) s)
    else if r == b'"'
    then inr (close_string buf s)
    else if r == b'\\'
    then escape_turn (buffer_or (slice s.start s.end s.source.input) buf) s l
    else let (char, w) = next_rune r l in inl (write_rune char buf, advance w 1 s)

abbrev pub string_step : StringState → StringState ⊎ Reading
string_step p = string_turn p (rest p.1)

abbrev pub string_remaining : StringState → ℕ
string_remaining p = remaining p.1

unicode_escape-Moves :
    (buf : Bytes) (s : Lexer) (p' : StringState) (l : Bytes)
    → unicode_escape buf s l ≡ inl p'
    → Moves s p'.1 l
unfolding unicode_escape
unicode_escape-Moves buf s p' l e = ground arith

escape_turn-Moves :
    (buf : Bytes) (s : Lexer) (p' : StringState) (l : Bytes)
    → escape_turn buf s l ≡ inl p'
    → Moves s p'.1 (b'\\' ∷ l)
unfolding escape_turn
escape_turn-Moves buf s p' [] e = cc
escape_turn-Moves buf s p' (d ∷ l) e = ground (arith, unicode_escape-Moves buf s p' (b'\\' ∷ d ∷ l))

pub string_turn-Moves :
    (p p' : StringState) (l : Bytes) → string_turn p l ≡ inl p' → Moves p.1 p'.1 l
unfolding string_turn
string_turn-Moves p p' [] e = cc
string_turn-Moves (buf, s) p' (r ∷ l) e = ground (
  arith,
  decode_rune-pos r l,
  decode_rune-width (r ∷ l),
  escape_turn-Moves (buffer_or (slice s.start s.end s.source.input) buf) s p' l,
)

pub string-falls :
    (p p' : StringState) → string_step p ≡ inl p' → string_remaining p' < string_remaining p
string-falls p p' e = Moves-falls (string_turn-Moves p p' (rest p.1) e) (length-rest p.1)

-- `readString`, with the opening quote read already.
unfoldable pub read_string : Lexer → Reading
unfolding repeat string_turn escape_turn unicode_escape unhex simple_escape close_string make_token
    make_error decode_rune encode_rune
read_string s =
    repeat string_step string_remaining string-falls
      (none, record s { start = s.start + 1; start_runes = s.start_runes + 1 })
