-- ===== src/Lib.antt =====
-- Verification of gqlparser, a lexer, parser and validator of GraphQL documents.
--
-- The lexer (lexer/) turns a source into tokens, one call of ReadToken at a time; the parser
-- (parser/) reads tokens with one token of lookahead and builds the trees of ast/; errors are values
-- of gqlerror/ with a place in the source.
--
-- Base: shared names and lemmas; Base.Repeat is a loop over a falling measure, Base.Utf8 Go's
--   decoding and encoding of runes. Text is a list of bytes as Go's strings are.
-- Ast: ast/. TypeRef is Type, Value Value and ChildValueList, Document the syntax trees of queries,
--   Definition those of schemas, Lookup the functions ForName of collections.go. Named, Subtype
--   and Merged hold theorems.
-- Gqlerror: gqlerror/error.go.
-- Lexer: lexer/. State is the struct Lexer with makeToken, makeValueToken and makeError; Scan is
--   ws, readComment, readName, acceptByte and acceptDigits; Number readNumber; Str readString and
--   unhex; Block readBlockString and blockstring.go; Read ReadToken. A loop is a step function
--   under Base.Repeat, which takes the measure that bounds it: the bytes left of the input.
--   Lexer.Bounds, Progress and Hex hold theorems, Indent and BlockText those on block strings;
--   BlockSpec says what the value of a block string is by relations.
-- Parser: parser/. State is parser.go but for many and some, which are in Many; Value, Selection
--   and Query are query.go. A parsing function takes the parser's state and returns a result with
--   the state behind it, or `none` where its fuel has run out. The first error is kept in the state
--   and later steps leave it there, as in the source. Parser.Fuel holds theorems.
--   Parser.Schema is schema.go in the same style: Fields, Types, Extensions, and Document with
--   ParseSchema and ParseSchemas; Parser.Schema.Ends holds theorems.
-- Validator: validator/. Validator.Schema is schema.go: State is the struct Schema of
--   ast/document.go and what a check returns, Check, Covariant and Implements are the checks, Build
--   is ValidateSchemaDocument, Load is LoadSchema, and Sound holds theorems. The maps of a schema are
--   lists; the orders in which Go ranges over them are parameters, of which the theorems ask only
--   that they are permutations. A pointer to a definition is its name, and `none` is the nil pointer;
--   reading through it is the result `crash`. A message is a value that keeps its arguments.
--   ErrorPosf panics on a nil position, which no node of a parsed document has; this is not followed.
--   The checks also set the field Definition of each directive, which no check reads: it is left out.
--   Validator.Walk is walk.go: Event is what observers are called with, each node with what the walk
--   writes into it, Value, Selection and Document are the functions of Walker, and Ends, Quiet and
--   Covers hold theorems. Validator.Rules are the rules of validator/rules/ as functions from an event
--   to errors, with the variables that their observers share as a state (Unique, Known, Variables,
--   Fields, Possible); Distinct, Operations, Lone, Overlap, Spread, Clean and
--   Arguments hold theorems.
-- Samples: runs of the lexer, the parser, the walk and the checks, and the theorems at concrete
--   inputs.
--
-- Fuel: parse_query gives the parser fuel of twice the length of the input and two. A call of a
-- recursive function is on less fuel than the call it stands in and a loop spends one for each turn.
-- Parser.Fuel compares the fuel with a weight of the state: twice the bytes left and one, and one
-- more where a token is read ahead; 0 on an error. The walk enters as many fragments one inside the
-- other as the document has, since it enters none twice.
--
-- Go's int is taken to be unbounded: it counts bytes of an input that fits into memory. strconv.Quote
-- is a parameter where messages are rendered.
--
-- Not modelled: the merging of overlapping fields, fragment cycles, positions of variables, and
-- fields and values of the right type (validator/rules/), the registration of rules
-- (validator/validator.go), the coercion of variables (validator/vars.go), the wording of messages of
-- the validator and its suggestions, the formatter (formatter/), argument maps and the conversion of
-- literals to Go values (ast/argmap.go, ast/value.go: Value.Value), the reflective dumper
-- (ast/dumper.go) and JSON decoding of paths (ast/path.go). What a walk writes into the trees is kept
-- in its events only, so that a second walk over the same tree begins afresh, and that
-- VariablesInAllowedPosition writes into the schema is not followed.
pub mod Ast
pub mod Base
pub mod Gqlerror
pub mod Lexer
pub mod Parser
pub mod Validator
mod Samples
