-- ===== src/Lexer/Token.antt =====
-- lexer/token.go: the kinds of token with their two printed names, and the tokens.
use gqlparser.Ast.Source.{Position}
use gqlparser.Base.{ℕ, Bool, Bytes, codes, ◌==◌}

-- `Type`
pub data Kind : Type 0 where
  invalid eof bang dollar amp paren_l paren_r spread colon equals at : Kind
  bracket_l bracket_r brace_l brace_r pipe name int float string block_string comment : Kind

-- The value of the constant: `iota`.
unfoldable pub number : Kind → ℕ
number invalid = 0
number eof = 1
number bang = 2
number dollar = 3
number amp = 4
number paren_l = 5
number paren_r = 6
number spread = 7
number colon = 8
number equals = 9
number at = 10
number bracket_l = 11
number bracket_r = 12
number brace_l = 13
number brace_r = 14
number pipe = 15
number name = 16
number int = 17
number float = 18
number string = 19
number block_string = 20
number comment = 21

-- Go compares kinds by their numbers.
unfoldable pub kind_eq : Kind → Kind → Bool
unfolding number
kind_eq a b = number a == number b

-- `Type.Name`
unfoldable pub kind_name : Kind → Bytes
kind_name invalid = codes "Invalid"
kind_name eof = codes "EOF"
kind_name bang = codes "Bang"
kind_name dollar = codes "Dollar"
kind_name amp = codes "Amp"
kind_name paren_l = codes "ParenL"
kind_name paren_r = codes "ParenR"
kind_name spread = codes "Spread"
kind_name colon = codes "Colon"
kind_name equals = codes "Equals"
kind_name at = codes "At"
kind_name bracket_l = codes "BracketL"
kind_name bracket_r = codes "BracketR"
kind_name brace_l = codes "BraceL"
kind_name brace_r = codes "BraceR"
kind_name pipe = codes "Pipe"
kind_name name = codes "Name"
kind_name int = codes "Int"
kind_name float = codes "Float"
kind_name string = codes "String"
kind_name block_string = codes "BlockString"
kind_name comment = codes "Comment"

-- `Type.String`
unfoldable pub kind_string : Kind → Bytes
kind_string invalid = codes "<Invalid>"
kind_string eof = codes "<EOF>"
kind_string bang = codes "!"
kind_string dollar = codes "$"
kind_string amp = codes "&"
kind_string paren_l = codes "("
kind_string paren_r = codes ")"
kind_string spread = codes "..."
kind_string colon = codes ":"
kind_string equals = codes "="
kind_string at = codes "@"
kind_string bracket_l = codes "["
kind_string bracket_r = codes "]"
kind_string brace_l = codes "{"
kind_string brace_r = codes "}"
kind_string pipe = codes "|"
kind_string name = codes "Name"
kind_string int = codes "Int"
kind_string float = codes "Float"
kind_string string = codes "String"
kind_string block_string = codes "BlockString"
kind_string comment = codes "Comment"

pub record Token : Type 0 where
  pub kind : Kind
  pub value : Bytes
  pub pos : Position
