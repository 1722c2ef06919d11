-- ===== src/Parser/Many.antt =====
-- parser/parser.go: `many` and `some`. The callback appends to a list in every use, so it returns an
-- item here and the loop the list.
use gqlparser.Base.{ℕ, zero, suc, Bool, true, false, not, ◌&&◌, List, [], ◌∷◌, Option, none, some}
use gqlparser.Lexer.Token.{Kind, kind_eq}
use gqlparser.Parser.State.{
  Fault, M, ◌>>=◌, ◌>>◌, return, peek, next, skip, report, expected_definition,
}

-- `p.err == nil`
abbrev pub no_error : Option Fault → Bool
no_error none = true
no_error (some e) = false

module _ {A : Type 0} (end : Kind) (callback : M A) where
  -- `for p.peek().Kind != end && p.err == nil { cb() }`, on fuel
  unfoldable pub items : ℕ → M (List A)
  items zero p = none
  items (suc f) p =
      let turn = (callback >>= λ a. items f >>= λ rest. return (a ∷ rest)) in
      (peek >>= λ tok q. elim (not (kind_eq tok.kind end) && no_error q.err) [
        | true ↦ turn q
        | false ↦ some ([], q)
      ])
        p

module _ {A : Type 0} (f : ℕ) (start end : Kind) (callback : M A) where
  unfoldable pub many_items : Bool → M (List A)
  unfolding items
  many_items false = return []
  many_items true = items end callback f >>= λ found. next >> return found

  -- `many`
  unfoldable pub many : M (List A)
  unfolding items many_items
  many = skip start >>= many_items

  unfoldable pub some_close : List A → M (List A)
  some_close [] = peek >>= λ tok. report tok (expected_definition tok.kind) >> return []
  some_close (a ∷ found) = next >> return (a ∷ found)

  unfoldable pub some_items : Bool → M (List A)
  unfolding items some_close
  some_items false = return []
  some_items true = items end callback f >>= some_close

  -- `some`
  unfoldable pub at_least_one : M (List A)
  unfolding items some_close some_items
  at_least_one = skip start >>= some_items
