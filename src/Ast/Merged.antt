-- ===== src/Ast/Merged.antt =====
-- What ast/document.go: `Merge` does to the lookups of ast/collections.go.
use gqlparser.Ast.Definition.{DirectiveDefinition, Definition, SchemaDocument, merge}
use gqlparser.Ast.Lookup.{first_named, definition_for_name, directive_definition_for_name}
use gqlparser.Base.{
  Bytes, bytes_eq, Bool-cases, ◌≡◌, refl, List, [], ◌∷◌, ◌++◌, Option, none, some, inl, inr,
}

-- The first result, or else the second.
abbrev pub or_else : {A : Type 0} → Option A → Option A → Option A
or_else none b = b
or_else (some a) b = some a

pub first_named-append :
    {A : Type 0} (key : A → Bytes) (name : Bytes) (l l' : List A)
    → first_named key name (l ++ l') ≡ or_else (first_named key name l) (first_named key name l')
unfolding first_named
first_named-append key name [] l' = refl
first_named-append key name (it ∷ l) l' = elim (Bool-cases (bytes_eq (key it) name)) [
  | inl h ↦ simp (h)
  | inr h ↦ simp (h, first_named-append key name l l')
]

-- In two merged schema documents a definition or a directive is found by its name where the first
-- document has it, and otherwise where the second does: the first document's definition wins.
pub for_name-merge :
    (d other : SchemaDocument) (name : Bytes)
    → (definition_for_name name (merge d other).definitions
        ≡ or_else
            (definition_for_name name d.definitions)
            (definition_for_name name other.definitions))
      × (directive_definition_for_name name (merge d other).directives
          ≡ or_else
              (directive_definition_for_name name d.directives)
              (directive_definition_for_name name other.directives))
unfolding merge definition_for_name directive_definition_for_name
for_name-merge d other name = (
  first_named-append (λ (x : Definition). x.name) name d.definitions other.definitions,
  first_named-append (λ (x : DirectiveDefinition). x.name) name d.directives other.directives,
)
