-- ===== src/Samples/Lexing.antt =====
-- Runs of the lexer.
use Prim.Native.String.{String}
use gqlparser.Ast.Source.{Source}
use gqlparser.Base.{ℕ, zero, suc, Bytes, codes, List, [], ◌∷◌, ◌≡◌, refl, false}
use gqlparser.Lexer.Read.{read_token}
use gqlparser.Lexer.State.{Lexer, new_lexer}
use gqlparser.Lexer.Token.{int, float, string, block_string, Kind, name, eof}

abbrev pub source_of : Bytes → Source
source_of input = record { name = []; input = input; built_in = false }

abbrev Shown : Type 0
Shown = Kind × Bytes × ℕ × ℕ × ℕ × ℕ

-- The first `n` tokens: kind, value, start, end, line, column.
tokens : ℕ → Lexer → List Shown
tokens zero s = []
tokens (suc n) s =
    let r = read_token s in
    let p = r.token.pos in
    (r.token.kind, r.token.value, p.start, p.end, p.line, p.column) ∷ tokens n r.lexer

lex : ℕ → String → List Shown
unfolding tokens read_token new_lexer
lex n text = tokens n (new_lexer (source_of (codes text)))

records_line_and_column :
    lex 2 "\n \r\n \r  foo\n" ≡ (name, codes "foo", 8, 11, 4, 3) ∷ (eof, [], 12, 12, 5, 1) ∷ []
unfolding lex
records_line_and_column = refl

strings_and_numbers :
    lex 4 "# c\n  \"esc \\n \\u0041\" -1.5e3 \"\"\"\n    Hello\n      x\n\"\"\" 12"
    ≡ (string, codes "esc \n A", 6, 21, 2, 4)
      ∷ (float, codes "-1.5e3", 22, 28, 2, 19)
      ∷ (block_string, codes "Hello\n  x", 29, 54, 2, 29)
      ∷ (int, codes "12", 55, 57, 2, 52)
      ∷ []
unfolding lex
strings_and_numbers = refl
