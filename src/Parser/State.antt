-- ===== src/Parser/State.antt =====
-- parser/parser.go: the parser's state and its one token of lookahead.
use gqlparser.Ast.Source.{Position}
use gqlparser.Base.{
  Bool, true, false, ◌&&◌, Bytes, codes, bytes_eq, [], ◌∷◌, ◌++◌, Option, none, some, if◌then◌else◌,
}
use gqlparser.Gqlerror.{Error, error_locf}
use gqlparser.Lexer.Read.{read_token}
use gqlparser.Lexer.State.{Lexer}
use gqlparser.Lexer.Token.{Kind, Token, invalid, name, kind_eq, kind_string}

-- The messages of the parser, by their format string.
pub data Complaint : Type 0 where
  -- "Expected %s, found %s" of a keyword and a token
  expected_keyword : Bytes → Token → Complaint
  -- "Expected %s, found %s" of two kinds
  expected_kind : Kind → Kind → Complaint
  -- "Unexpected %s"
  unexpected : Token → Complaint
  -- "expected at least one definition, found %s"
  expected_definition : Kind → Complaint

-- What `p.err` holds: an error of the lexer, or one that the parser reports at a token.
pub data Fault : Type 0 where
  lexical : Error → Fault
  reported : Token → Complaint → Fault

module _ (quote : Bytes → Bytes) where
  -- `Token.String`
  unfoldable pub token_string : Token → Bytes
  unfolding kind_string bytes_eq
  token_string t =
      if bytes_eq t.value [] then kind_string t.kind else kind_string t.kind ++ b' ' ∷ quote t.value

  unfoldable pub complaint_text : Complaint → Bytes
  unfolding token_string kind_string
  complaint_text (expected_keyword word t) =
      codes "Expected " ++ (quote word ++ (codes ", found " ++ token_string t))
  complaint_text (expected_kind k found) =
      codes "Expected " ++ (kind_string k ++ (codes ", found " ++ kind_string found))
  complaint_text (unexpected t) = codes "Unexpected " ++ token_string t
  complaint_text (expected_definition k) =
      codes "expected at least one definition, found " ++ kind_string k

  -- The error that the caller sees; `quote` is `strconv.Quote`.
  unfoldable pub fault_error : Fault → Error
  unfolding complaint_text error_locf
  fault_error (lexical e) = e
  fault_error (reported t c) = error_locf t.pos.src.name t.pos.line t.pos.column (complaint_text c)

pub record Parser : Type 0 where
  pub lexer : Lexer
  pub err : Option Fault
  pub peeked : Bool
  pub peek_token : Token
  pub peek_error : Option Error
  pub prev : Token

-- The zero `Token`; its source is nil in Go and is not read.
abbrev pub zero_token : Token
zero_token = record {
  kind = invalid;
  value = [];
  pos = record {
    start = 0;
    end = 0;
    line = 0;
    column = 0;
    src = record { name = []; input = []; built_in = false };
  };
}

abbrev pub new_parser : Lexer → Parser
new_parser l = record {
  lexer = l;
  err = none;
  peeked = false;
  peek_token = zero_token;
  peek_error = none;
  prev = zero_token;
}

-- A parsing function: `none` is for fuel that ran out, all else is in the state.
abbrev pub M {ℓ} : Type ℓ → Type ℓ
M A = Parser → Option (A × Parser)

infixl 5 ◌>>=◌ ◌>>◌
abbrev pub ◌>>=◌ {ℓ κ} : {A : Type ℓ} {B : Type κ} → M A → (A → M B) → M B
◌>>=◌ m f p = elim (m p) [ none ↦ none | some (a, q) ↦ f a q ]

abbrev pub ◌>>◌ {ℓ κ} : {A : Type ℓ} {B : Type κ} → M A → M B → M B
m >> k = m >>= λ _. k

abbrev pub return {ℓ} : {A : Type ℓ} → A → M A
return a p = some (a, p)

abbrev pub fault_of : Option Error → Option Fault
fault_of none = none
fault_of (some e) = some (lexical e)

-- The state with the next token read ahead.
abbrev pub read_ahead : Bool → Parser → Parser
read_ahead true p = p
read_ahead false p =
    let r = read_token p.lexer in
    record p { lexer = r.lexer; peeked = true; peek_token = r.token; peek_error = r.err }

-- `peek`, by what `p.err` is
unfoldable pub peek_on : Option Fault → Parser → Token × Parser
peek_on (some e) p = (p.prev, p)
peek_on none p = let q = read_ahead p.peeked p in (q.peek_token, q)

unfoldable pub peek : M Token
unfolding peek_on
peek p = some (peek_on p.err p)

-- `error`: the first error stays
unfoldable pub report_on : Option Fault → Token → Complaint → Parser → Parser
report_on (some e) tok c p = p
report_on none tok c p = record p { err = some (reported tok c) }

unfoldable pub report : Token → Complaint → M (Unit {0})
unfolding report_on
report tok c p = some (tt, report_on p.err tok c p)

-- the token read ahead, or a new one, becomes `p.prev`
unfoldable pub take_token : Bool → Parser → Parser
take_token true p = record p { peeked = false; prev = p.peek_token; err = fault_of p.peek_error }
take_token false p =
    let r = read_token p.lexer in record p { lexer = r.lexer; prev = r.token; err = fault_of r.err }

unfoldable pub next_on : Option Fault → Parser → Token × Parser
unfolding take_token
next_on (some e) p = (p.prev, p)
next_on none p = let q = take_token p.peeked p in (q.prev, q)

-- `next`
unfoldable pub next : M Token
unfolding next_on
next p = some (next_on p.err p)

-- `peekPos`
unfoldable pub peek_pos : M (Option Position)
unfolding peek_on
peek_pos p = elim p.err [
  | some e ↦ some (none, p)
  | none ↦ some (some (peek_on none p).0.pos, (peek_on none p).1)
]

-- `expectKeyword`
unfoldable pub expect_keyword : Bytes → M Token
unfolding peek report next kind_eq bytes_eq
expect_keyword word = do
  tok ← peek
  if kind_eq tok.kind name && bytes_eq tok.value word
      then next
      else (do report tok (expected_keyword word tok); return tok)

-- `expect`
unfoldable pub expect : Kind → M Token
unfolding peek report next kind_eq
expect kind = do
  tok ← peek
  if kind_eq tok.kind kind then next else (do report tok (expected_kind kind tok.kind); return tok)

-- `skip`, where there is no error
unfoldable pub skip_token : Kind → M Bool
unfolding peek next kind_eq
skip_token kind = do
  tok ← peek
  if kind_eq tok.kind kind then (do next; return true) else return false

unfoldable pub skip_on : Option Fault → Kind → M Bool
unfolding skip_token
skip_on (some e) kind = return false
skip_on none kind = skip_token kind

unfoldable pub skip : Kind → M Bool
unfolding skip_on
skip kind p = skip_on p.err kind p

-- `unexpectedToken` and `unexpectedError`
unfoldable pub unexpected_token : Token → M (Unit {0})
unfolding report
unexpected_token tok = report tok (unexpected tok)

unfoldable pub unexpected_error : M (Unit {0})
unfolding unexpected_token peek
unexpected_error = peek >>= unexpected_token
