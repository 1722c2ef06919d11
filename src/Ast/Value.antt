-- ===== src/Ast/Value.antt =====
-- ast/value.go: literal values. `nil_value` is the nil pointer, which the parser returns after an
-- error. The fields that validation fills in are left out.
use gqlparser.Ast.Source.{Position}
use gqlparser.Base.{Bytes, codes, bytes_eq, [], ◌∷◌, ◌++◌, Option, if◌then◌else◌}

pub data ValueKind : Type 0 where
  variable int_value float_value string_value block_value boolean_value : ValueKind
  null_value enum_value list_value object_value : ValueKind

mutual
  -- kind, raw text, children and position
  pub data Value : Type 0 where
    nil_value : Value
    value : ValueKind → Bytes → Children → Option Position → Value

  -- `ChildValueList`: name, value and position of each
  pub data Children : Type 0 where
    no_children : Children
    child : Bytes → Value → Option Position → Children → Children

-- `ChildValueList.ForName`; a missing name is the nil pointer.
unfoldable pub child_for_name : Bytes → Children → Value
unfolding bytes_eq
child_for_name name no_children = nil_value
child_for_name name (child n v _ rest) = if bytes_eq n name then v else child_for_name name rest

module _ (quote : Bytes → Bytes) where
  -- `Value.String`; `quote` is `strconv.Quote`, whose choice of escapes rests on Unicode tables.
  unfoldable mutual
    pub value_string : Value → Bytes
    value_string nil_value = codes "<nil>"
    value_string (value variable raw _ _) = b'$' ∷ raw
    value_string (value string_value raw _ _) = quote raw
    value_string (value block_value raw _ _) = quote raw
    value_string (value list_value _ children _) = b'[' ∷ (items_string children ++ b']' ∷ [])
    value_string (value object_value _ children _) = b'{' ∷ (fields_string children ++ b'}' ∷ [])
    value_string (value _ raw _ _) = raw

    -- `strings.Join` of the children's values by commas
    pub items_string : Children → Bytes
    items_string no_children = []
    items_string (child _ v _ no_children) = value_string v
    items_string (child _ v _ (child n w p rest)) =
        value_string v ++ b',' ∷ items_string (child n w p rest)

    pub fields_string : Children → Bytes
    fields_string no_children = []
    fields_string (child n v _ no_children) = n ++ b':' ∷ value_string v
    fields_string (child n v _ (child m w p rest)) =
        n ++ b':' ∷ (value_string v ++ b',' ∷ fields_string (child m w p rest))
