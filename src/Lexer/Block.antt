-- ===== src/Lexer/Block.antt =====
-- lexer/blockstring.go, and readBlockString of lexer/lexer.go.
use gqlparser.Base.Utf8.{decode_rune-width, decode_rune, decode_rune-pos, encode_rune}
use gqlparser.Base.{
  true, ℕ, ◌+◌, ◌-◌, ◌<◌, ◌≡◌, Bool, not, ◌&&◌, ◌||◌, Bytes, List, [], ◌∷◌, ◌++◌, ◌⊎◌, inl, inr,
  ◌==◌, ltb, if◌then◌else◌, length, drop, arith, repeat, starts_with,
}
use gqlparser.Lexer.Scan.{skip_line_feed}
use gqlparser.Lexer.State.{
  Moves, Moves-falls, Lexer, Reading, invalid_in_string, unterminated, rest, remaining, length-rest,
  advance, make_value_token, make_error,
}
use gqlparser.Lexer.Str.{next_rune}
use gqlparser.Lexer.Token.{block_string}

-- `math.MaxInt32`
abbrev pub max_int32 : ℕ
max_int32 = 2147483647

abbrev pub is_blank : ℕ → Bool
is_blank c = c == b' ' || c == b'\t'

-- The loop of `leadingWhitespace`, from byte `i` on. A byte of a longer rune is no blank, so bytes
-- serve for runes.
unfoldable pub leading_from : ℕ → Bytes → ℕ
leading_from i [] = max_int32
leading_from i (c ∷ s) = if is_blank c then leading_from (i + 1) s else i

-- `leadingWhitespace`
unfoldable pub leading_whitespace : Bytes → ℕ
unfolding leading_from
leading_whitespace = leading_from 0

-- `strings.Split(raw, "\n")`: the first line, and the others.
unfoldable pub split_lines : Bytes → Bytes × List Bytes
split_lines [] = ([], [])
split_lines (c ∷ s) =
    let (line, lines) = split_lines s in
    if c == b'\n' then ([], line ∷ lines) else (c ∷ line, lines)

-- `strings.Join(lines, "\n")`
unfoldable pub join_lines : List Bytes → Bytes
join_lines [] = []
join_lines (line ∷ []) = line
join_lines (line ∷ next ∷ lines) = line ++ b'\n' ∷ join_lines (next ∷ lines)

-- The loop that finds `commonIndent`; it breaks at 0.
unfoldable pub common_indent : ℕ → List Bytes → ℕ
common_indent common [] = common
common_indent common (line ∷ lines) =
    let indent = leading_whitespace line in
    let lower = ltb indent (length line) && ltb indent common in
    let more = common_indent (if lower then indent else common) lines in
    if lower && indent == 0 then 0 else more

-- One of the lines behind the first.
unfoldable pub dedent : ℕ → Bytes → Bytes
dedent common line = if ltb (length line) common then [] else drop common line

unfoldable pub dedent_all : ℕ → List Bytes → List Bytes
dedent_all common [] = []
dedent_all common (line ∷ lines) = dedent common line ∷ dedent_all common lines

-- Made up of whitespace alone.
unfoldable pub is_blank_line : Bytes → Bool
unfolding leading_whitespace
is_blank_line line = leading_whitespace line == max_int32

-- The loop that moves `start` up.
unfoldable pub trim_start : List Bytes → List Bytes
trim_start [] = []
trim_start (line ∷ lines) = if is_blank_line line then trim_start lines else line ∷ lines

abbrev pub cons_unless_blank : Bytes → List Bytes → List Bytes
cons_unless_blank line [] = if is_blank_line line then [] else line ∷ []
cons_unless_blank line (next ∷ lines) = line ∷ next ∷ lines

-- The loop that moves `end` down: the blank lines at the end go.
unfoldable pub trim_end : List Bytes → List Bytes
trim_end [] = []
trim_end (line ∷ lines) = cons_unless_blank line (trim_end lines)

-- `blockStringValue`
unfoldable pub block_string_value : Bytes → Bytes
unfolding split_lines common_indent leading_whitespace dedent dedent_all trim_start trim_end
    is_blank_line join_lines
block_string_value raw =
    let (first, others) = split_lines raw in
    let common = common_indent max_int32 (first ∷ others) in
    let lines = if common == max_int32 then others else dedent_all common others in
    join_lines (trim_end (trim_start (first ∷ lines)))

abbrev pub BlockState : Type 0
BlockState = Bytes × Lexer

abbrev pub triple_quote : Bytes
triple_quote = b'"' ∷ b'"' ∷ b'"' ∷ []

-- At the closing quotes: the position covers the quotes, the value does not.
unfoldable pub close_block : Bytes → Lexer → Reading
close_block buf s =
    let t = (make_value_token block_string (block_string_value buf) s).token in
    record {
      token = record t { pos = record t.pos { start = t.pos.start - 3; end = t.pos.end + 3 } };
      err = (make_value_token block_string (block_string_value buf) s).err;
      lexer = advance 3 3 s;
    }

-- A carriage return, with the line feed behind it if there is one, is written as a line feed.
unfoldable pub block_return : BlockState → Bytes → BlockState
block_return (buf, s) l = (buf ++ b'\n' ∷ [], advance 1 1 (skip_line_feed l s))

unfoldable pub block_rune : BlockState → ℕ → Bytes → BlockState
block_rune (buf, s) r l = let (char, w) = next_rune r l in (buf ++ encode_rune char, advance w 1 s)

-- One turn of the loop of `readBlockString`, with `s.Input[s.end:]` at hand.
unfoldable pub block_turn : BlockState → Bytes → BlockState ⊎ Reading
block_turn (buf, s) [] = inr (make_error unterminated s)
block_turn (buf, s) (r ∷ l) =
    if starts_with triple_quote (r ∷ l)
    then inr (close_block buf s)
    else if ltb r 0x20 && not (r == b'\t') && not (r == b'\n') && not (r == b'\r')
    then inr (make_error (invalid_in_string r) s)
    else if starts_with (b'\\' ∷ triple_quote) (r ∷ l)
    then inl (buf ++ triple_quote, advance 4 4 s)
    else if r == b'\r'
    then inl (block_return (buf, s) l)
    else inl (block_rune (buf, s) r l)

abbrev pub block_step : BlockState → BlockState ⊎ Reading
block_step p = block_turn p (rest p.1)

abbrev pub block_remaining : BlockState → ℕ
block_remaining p = remaining p.1

block_return-Moves : (p : BlockState) (r : ℕ) (l : Bytes) → Moves p.1 (block_return p l).1 (r ∷ l)
unfolding block_return
block_return-Moves (buf, s) r [] = ground arith
block_return-Moves (buf, s) r (c ∷ l) = ground arith

block_rune-Moves : (p : BlockState) (r : ℕ) (l : Bytes) → Moves p.1 (block_rune p r l).1 (r ∷ l)
unfolding block_rune
block_rune-Moves (buf, s) r l = ground (arith, decode_rune-pos r l, decode_rune-width (r ∷ l))

escaped_quote-Moves :
    (s : Lexer) (l : Bytes)
    → starts_with (b'\\' ∷ triple_quote) l ≡ true
    → Moves s (advance 4 4 s) l
unfolding starts_with
escaped_quote-Moves s (a ∷ b ∷ c ∷ d ∷ l) h = ground arith
escaped_quote-Moves s _ h = ground arith

-- The turns that go on.
block_turn-inl :
    (buf : Bytes) (s : Lexer) (p' : BlockState) (r : ℕ) (l : Bytes)
    → block_turn (buf, s) (r ∷ l) ≡ inl p'
    → ((starts_with (b'\\' ∷ triple_quote) (r ∷ l) ≡ true)
        × (p' ≡ (buf ++ triple_quote, advance 4 4 s)))
      ⊎ ((p' ≡ block_return (buf, s) l) ⊎ (p' ≡ block_rune (buf, s) r l))
unfolding block_turn
block_turn-inl buf s p' r l e = ground arith

pub block_turn-Moves : (p p' : BlockState) (l : Bytes) → block_turn p l ≡ inl p' → Moves p.1 p'.1 l
block_turn-Moves p p' [] e = unfold block_turn in cc
block_turn-Moves (buf, s) p' (r ∷ l) e = elim (block_turn-inl buf s p' r l e) [
  | inl (h, q) ↦ rw q (escaped_quote-Moves s (r ∷ l) h)
  | inr (inl q) ↦ rw q (block_return-Moves (buf, s) r l)
  | inr (inr q) ↦ rw q (block_rune-Moves (buf, s) r l)
]

pub block-falls :
    (p p' : BlockState) → block_step p ≡ inl p' → block_remaining p' < block_remaining p
block-falls p p' e = Moves-falls (block_turn-Moves p p' (rest p.1) e) (length-rest p.1)

-- `readBlockString`, with one opening quote read already.
unfoldable pub read_block_string : Lexer → Reading
unfolding repeat block_turn starts_with block_return block_rune close_block block_string_value
    make_value_token make_error decode_rune encode_rune
read_block_string s =
    let opened = record s { start = s.start + 3; start_runes = s.start_runes + 3 } in
    repeat block_step block_remaining block-falls ([], advance 2 2 opened)
