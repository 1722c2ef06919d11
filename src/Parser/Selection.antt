-- ===== src/Parser/Selection.antt =====
-- parser/query.go: selection sets, fields and fragments in them.
use gqlparser.Ast.Document.{
  Selection, SelectionSet, field, fragment_spread, inline_fragment, no_selections, select,
}
use gqlparser.Base.{
  ℕ, zero, suc, false, not, ◌&&◌, Bytes, codes, bytes_eq, List, [], ◌∷◌, none, if◌then◌else◌,
}
use gqlparser.Lexer.Token.{spread, colon, brace_l, brace_r, name, kind_eq}
use gqlparser.Parser.Many.{at_least_one}
use gqlparser.Parser.State.{
  M, ◌>>=◌, ◌>>◌, return, peek, peek_pos, next, skip, expect, report, expected_kind,
  unexpected_error,
}
use gqlparser.Parser.Value.{parse_name, parse_arguments, parse_directives}

abbrev pub selection_set : List Selection → SelectionSet
selection_set [] = no_selections
selection_set (s ∷ ss) = select s (selection_set ss)

abbrev pub on : Bytes
on = codes "on"

-- `parseFragmentName`
unfoldable pub parse_fragment_name : M Bytes
unfolding peek unexpected_error parse_name bytes_eq
parse_fragment_name = do
  tok ← peek
  if bytes_eq tok.value on then (do unexpected_error; return []) else parse_name

module _ (f : ℕ) (parse_selection : M Selection) where
  -- `parseOptionalSelectionSet`
  unfoldable pub parse_optional_selection_set : M SelectionSet
  unfolding at_least_one
  parse_optional_selection_set = do
    selections ← at_least_one f brace_l brace_r parse_selection
    return (selection_set selections)

  -- `parseRequiredSelectionSet`
  unfoldable pub parse_required_selection_set : M SelectionSet
  unfolding peek kind_eq report at_least_one
  parse_required_selection_set = do
    tok ← peek
    if not (kind_eq tok.kind brace_l)
        then (do report tok (expected_kind brace_l tok.kind); return no_selections)
        else (do
          selections ← at_least_one f brace_l brace_r parse_selection
          return (selection_set selections))

  -- `parseField`
  unfoldable pub parse_field : M Selection
  unfolding peek_pos parse_name skip parse_arguments parse_directives peek kind_eq
      parse_optional_selection_set
  parse_field = do
    pos ← peek_pos
    alias ← parse_name
    aliased ← skip colon
    n ← if aliased then parse_name else return alias
    arguments ← parse_arguments f false
    directives ← parse_directives f false
    tok ← peek
    selections ←
        if kind_eq tok.kind brace_l then parse_optional_selection_set else return no_selections
    return (field alias n arguments directives selections pos)

  -- the end of `parseFragment`, for `... on Name` and for a bare selection set
  unfoldable pub parse_inline_fragment : M Selection
  unfolding peek_pos peek next bytes_eq parse_name parse_directives parse_required_selection_set
  parse_inline_fragment = do
    pos ← peek_pos
    tok ← peek
    condition ← if bytes_eq tok.value on then (do next; parse_name) else return []
    directives ← parse_directives f false
    selections ← parse_required_selection_set
    return (inline_fragment condition directives selections pos)

  unfoldable pub parse_fragment_spread : M Selection
  unfolding peek_pos parse_fragment_name parse_directives
  parse_fragment_spread = do
    pos ← peek_pos
    n ← parse_fragment_name
    directives ← parse_directives f false
    return (fragment_spread n directives pos)

  -- `parseFragment`
  unfoldable pub parse_fragment : M Selection
  unfolding expect peek kind_eq bytes_eq parse_fragment_spread parse_inline_fragment
  parse_fragment = do
    expect spread
    tok ← peek
    if kind_eq tok.kind name && not (bytes_eq tok.value on)
        then parse_fragment_spread
        else parse_inline_fragment

-- `parseSelection`, on fuel
unfoldable pub parse_selection : ℕ → M Selection
unfolding peek kind_eq parse_fragment parse_field
parse_selection zero p = none
parse_selection (suc f) p =
    let self = parse_selection f in
    (peek >>= λ tok. if kind_eq tok.kind spread then parse_fragment f self else parse_field f self)
      p
