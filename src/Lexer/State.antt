-- ===== src/Lexer/State.antt =====
-- lexer/lexer.go: the lexer's state, and the functions that make a token or an error of it.
-- Offsets and line numbers of the source are Go `int`s that never leave the input, so ℕ serves; the
-- column's subtraction does not fall below zero (Lexer.Bounds).
use gqlparser.Ast.Source.{Source}
use gqlparser.Base.Utf8.{encode_rune}
use gqlparser.Base.{
  ℕ, ◌+◌, ◌-◌, ◌≡◌, ◌<◌, ◌≤◌, ap, arith, Bytes, codes, [], ◌∷◌, ◌++◌, Option, none, some, ltb,
  if◌then◌else◌, itoa, take, drop, length, length-drop,
}
use gqlparser.Gqlerror.{Error, error_locf}
use gqlparser.Lexer.Token.{Kind, Token, invalid}

pub record Lexer : Type 0 where
  pub source : Source
  -- offsets into the input in bytes and in runes
  pub start : ℕ
  pub start_runes : ℕ
  pub end : ℕ
  pub end_runes : ℕ
  pub line : ℕ
  pub line_start_runes : ℕ

-- `New`
unfoldable pub new_lexer : Source → Lexer
new_lexer src = record {
  source = src;
  start = 0;
  start_runes = 0;
  end = 0;
  end_runes = 0;
  line = 1;
  line_start_runes = 0;
}

-- `s.Input[s.end:]`
abbrev pub rest : Lexer → Bytes
rest s = drop s.end s.source.input

-- `s.Input[from:to]`
abbrev pub slice : ℕ → ℕ → Bytes → Bytes
slice from to input = take (to - from) (drop from input)

-- `s.end += bytes; s.endRunes += runes`
abbrev pub advance : ℕ → ℕ → Lexer → Lexer
advance bytes runes s = record s { end = s.end + bytes; end_runes = s.end_runes + runes }

-- `s.end -= n; s.endRunes -= n`
abbrev pub back : ℕ → Lexer → Lexer
back n s = record s { end = s.end - n; end_runes = s.end_runes - n }

-- What a reading function returns, with the lexer that it leaves.
pub record Reading : Type 0 where
  pub token : Token
  pub err : Option Error
  pub lexer : Lexer

-- The messages of `makeError`, by their format string.
pub data Message : Type 0 where
  invalid_character : ℕ → Message
  single_quote : Message
  unexpected_character : ℕ → Message
  digit_after_zero : Bytes → Message
  expected_digit : Bytes → Message
  invalid_in_string : ℕ → Message
  escape_at_end : Message
  bad_escape : Bytes → Message
  unterminated : Message

-- `%04d`
pad_four : ℕ → Bytes
pad_four n =
    if ltb n 10
    then codes "000" ++ itoa n
    else if ltb n 100
    then codes "00" ++ itoa n
    else if ltb n 1000
    then codes "0" ++ itoa n
    else itoa n

-- `fmt.Sprintf` of the message.
unfoldable pub message_text : Message → Bytes
unfolding pad_four itoa encode_rune
message_text (invalid_character r) =
    codes "Cannot contain the invalid character \"\\u" ++ (pad_four r ++ codes "\"")
message_text single_quote =
    codes "Unexpected single quote character ('), did you mean to use a double quote (\")?"
message_text (unexpected_character r) =
    codes "Cannot parse the unexpected character \"" ++ (encode_rune r ++ codes "\".")
message_text (digit_after_zero next) =
    codes "Invalid number, unexpected digit after 0: " ++ (next ++ codes ".")
message_text (expected_digit next) =
    codes "Invalid number, expected digit but got: " ++ (next ++ codes ".")
message_text (invalid_in_string r) =
    codes "Invalid character within String: \"\\u" ++ (pad_four r ++ codes "\".")
message_text escape_at_end = codes "Invalid character escape sequence."
message_text (bad_escape s) = codes "Invalid character escape sequence: \\" ++ (s ++ codes ".")
message_text unterminated = codes "Unterminated string."

-- `makeValueToken`
unfoldable pub make_value_token : Kind → Bytes → Lexer → Reading
make_value_token kind value s = record {
  token = record {
    kind = kind;
    value = value;
    pos = record {
      start = s.start_runes;
      end = s.end_runes;
      line = s.line;
      column = s.start_runes - s.line_start_runes + 1;
      src = s.source;
    };
  };
  err = none;
  lexer = s;
}

-- `makeToken`
unfoldable pub make_token : Kind → Lexer → Reading
unfolding make_value_token
make_token kind s = make_value_token kind (slice s.start s.end s.source.input) s

-- `makeError`
unfoldable pub make_error : Message → Lexer → Reading
make_error message s =
    let column = s.end_runes - s.line_start_runes + 1 in
    record {
      token = record {
        kind = invalid;
        value = [];
        pos = record {
          start = s.start_runes;
          end = s.end_runes;
          line = s.line;
          column = column;
          src = s.source;
        };
      };
      err = some (error_locf s.source.name s.line column (message_text message));
      lexer = s;
    }

-- `describeNext`; `string` of a byte is the text of the rune with that number.
unfoldable pub describe_next : Lexer → Bytes
unfolding encode_rune
describe_next s = elim (rest s) [ [] ↦ codes "<EOF>" | r ∷ _ ↦ b'"' ∷ (encode_rune r ++ b'"' ∷ []) ]

-- The bytes that are left: each turn of a loop takes some.
abbrev pub remaining : Lexer → ℕ
remaining s = length s.source.input - s.end

pub length-rest : (s : Lexer) → length (rest s) ≡ remaining s
length-rest s = length-drop s.end s.source.input

-- One turn inside a token: `s'` is `s` moved on over some of the bytes `l`, by no more runes than
-- bytes, on the same line.
pub record Moves (s s' : Lexer) (l : Bytes) : Type 0 where
  pub same_source : s'.source ≡ s.source
  pub same_start : s'.start ≡ s.start
  pub same_start_runes : s'.start_runes ≡ s.start_runes
  pub same_line : s'.line ≡ s.line
  pub same_line_start : s'.line_start_runes ≡ s.line_start_runes
  pub end_lt : s.end < s'.end
  pub end_le : s'.end ≤ s.end + length l
  pub end_runes_le : s.end_runes ≤ s'.end_runes
  pub runes_le : s'.end_runes + s.end ≤ s.end_runes + s'.end

pub Moves-falls :
    {s s' : Lexer} {l : Bytes} → Moves s s' l → length l ≡ remaining s → remaining s' < remaining s
Moves-falls {s} {s'} m h =
    let e = ap (λ (src : Source). length src.input) m.same_source in
    omega (arith, m.end_lt, m.end_le)
