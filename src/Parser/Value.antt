-- ===== src/Parser/Value.antt =====
-- parser/query.go: names, literal values, arguments, directives and references to types. Functions
-- that the source makes recursive take fuel.
use gqlparser.Ast.Source.{Position}
use gqlparser.Ast.Document.{Argument, Directive}
use gqlparser.Ast.TypeRef.{TypeRef, named, list}
use gqlparser.Ast.Value.{
  ValueKind, Value, Children, nil_value, value, no_children, child, variable, int_value,
  float_value, string_value, block_value, boolean_value, null_value, enum_value, list_value,
  object_value,
}
use gqlparser.Base.{
  ◌&&◌, ℕ, zero, suc, Bool, true, false, ◌||◌, Bytes, codes, bytes_eq, List, [], ◌∷◌, Option, none,
  some, if◌then◌else◌,
}
use gqlparser.Lexer.Token.{
  Kind, Token, bang, dollar, paren_l, paren_r, colon, at, bracket_l, bracket_r, brace_l, brace_r,
  name, int, float, string, block_string, kind_eq,
}
use gqlparser.Parser.Many.{many, no_error}
use gqlparser.Parser.State.{
  M, ◌>>=◌, ◌>>◌, return, peek, peek_pos, next, skip, expect, unexpected_error,
}

-- `parseName`
unfoldable pub parse_name : M Bytes
unfolding expect
parse_name = do token ← expect name; return token.value

-- `parseVariable`
unfoldable pub parse_variable : M Bytes
unfolding expect parse_name
parse_variable = expect dollar >> parse_name

-- the kind of a name that stands for a value
unfoldable pub name_kind : Bytes → ValueKind
unfolding bytes_eq
name_kind s =
    if bytes_eq s (codes "true") || bytes_eq s (codes "false")
    then boolean_value
    else if bytes_eq s (codes "null")
    then null_value
    else enum_value

-- A list's elements have no name and no position.
abbrev pub list_children : List Value → Children
list_children [] = no_children
list_children (v ∷ vs) = child [] v none (list_children vs)

abbrev pub object_children : List (Bytes × Value × Option Position) → Children
object_children [] = no_children
object_children ((n, v, p) ∷ fields) = child n v p (object_children fields)

module _ (f : ℕ) (is_const : Bool) (parse_value_literal : M Value) where
  -- `parseList`
  unfoldable pub parse_list : M Value
  unfolding many peek_pos
  parse_list = do
    pos ← peek_pos
    values ← many f bracket_l bracket_r parse_value_literal
    return (value list_value [] (list_children values) pos)

  -- `parseObjectField`
  unfoldable pub parse_object_field : M (Bytes × Value × Option Position)
  unfolding parse_name expect peek_pos
  parse_object_field = do
    pos ← peek_pos
    n ← parse_name
    expect colon
    v ← parse_value_literal
    return (n, v, pos)

  -- `parseObject`
  unfoldable pub parse_object : M Value
  unfolding many peek_pos parse_object_field
  parse_object = do
    pos ← peek_pos
    fields ← many f brace_l brace_r parse_object_field
    return (value object_value [] (object_children fields) pos)

  -- the end of `parseValueLiteral`
  unfoldable pub scalar : ValueKind → Token → M Value
  scalar kind token = next >> return (value kind token.value no_children (some token.pos))

  unfoldable pub no_value : M Value
  unfolding unexpected_error
  no_value = unexpected_error >> return nil_value

  unfoldable pub parse_variable_value : Token → M Value
  unfolding parse_variable
  parse_variable_value token = do
    raw ← parse_variable
    return (value variable raw no_children (some token.pos))

  -- the switch of `parseValueLiteral` on the kind of the token
  unfoldable pub value_cases : Kind → Token → M Value
  unfolding scalar no_value parse_variable_value parse_list parse_object parse_variable name_kind
      next unexpected_error
  value_cases bracket_l token = parse_list
  value_cases brace_l token = parse_object
  value_cases dollar token = if is_const then no_value else parse_variable_value token
  value_cases int token = scalar int_value token
  value_cases float token = scalar float_value token
  value_cases string token = scalar string_value token
  value_cases block_string token = scalar block_value token
  value_cases name token = scalar (name_kind token.value) token
  value_cases _ token = no_value

-- `parseValueLiteral`
unfoldable pub parse_value_literal : Bool → ℕ → M Value
unfolding value_cases peek
parse_value_literal is_const zero p = none
parse_value_literal is_const (suc f) p =
    let self = parse_value_literal is_const f in
    (peek >>= λ token. value_cases f is_const self token.kind token) p

module _ (f : ℕ) (is_const : Bool) where
  -- `parseArgument`
  unfoldable pub parse_argument : M Argument
  unfolding parse_name expect peek_pos parse_value_literal
  parse_argument = do
    pos ← peek_pos
    n ← parse_name
    expect colon
    v ← parse_value_literal is_const f
    return (record { name = n; value = v; position = pos })

  -- `parseArguments`
  unfoldable pub parse_arguments : M (List Argument)
  unfolding many parse_argument
  parse_arguments = many f paren_l paren_r parse_argument

  -- `parseDirective`
  unfoldable pub parse_directive : M Directive
  unfolding expect peek_pos parse_name parse_arguments
  parse_directive = do
    expect at
    pos ← peek_pos
    n ← parse_name
    args ← parse_arguments
    return (record { name = n; arguments = args; position = pos })

  -- the loop of `parseDirectives`
  unfoldable pub directives_loop : ℕ → M (List Directive)
  directives_loop zero p = none
  directives_loop (suc n) p =
      let turn = (parse_directive >>= λ d. directives_loop n >>= λ ds. return (d ∷ ds)) in
      (peek >>= λ tok q. elim (kind_eq tok.kind at && no_error q.err) [
        | true ↦ turn q
        | false ↦ some ([], q)
      ])
        p

  -- `parseDirectives`
  unfoldable pub parse_directives : M (List Directive)
  unfolding directives_loop peek kind_eq parse_directive
  parse_directives = directives_loop f

-- the end of `parseTypeReference`: the position is then that behind the `!`
unfoldable pub with_bang : (Bool → Option Position → TypeRef) → Option Position → M TypeRef
unfolding skip peek_pos
with_bang make pos = do
  non_null ← skip bang
  if non_null then (do pos' ← peek_pos; return (make true pos')) else return (make false pos)

-- `parseTypeReference`
unfoldable pub parse_type_reference : ℕ → M TypeRef
unfolding with_bang skip peek_pos expect parse_name
parse_type_reference zero p = none
parse_type_reference (suc f) p =
    let self = parse_type_reference f in
    (skip bracket_l >>= λ is_list.
    if is_list
    then (do pos ← peek_pos; elem ← self; expect bracket_r; with_bang (list elem) pos)
    else (do pos ← peek_pos; n ← parse_name; with_bang (named n) pos))
      p
