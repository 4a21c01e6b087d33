-- ===== src/Users/Documents.antt =====
-- A user document (the class User, its proxy, and UserQuery.resolveFields of src/db/User.ts): the
-- fields that a projection selects, the tracking of what was written, and the UPDATE that a save
-- issues. A row is a map from fields; columnName tells the fields that have a column. Hashing a
-- password is a parameter.
use uam_backend.Prelude.{
  Text, ℕ, List, Bool, Option, if◌then◌else◌, lookup, [], ◌∷◌, text_eq, text, is_space, starts_with,
  some, ◌||◌, insert, none,
}
use uam_backend.Session.{contains}
use uam_backend.Filter.Columns.{column_name, is_jsonb, field_to_column}

pub data FieldValue : Type 0 where
  undefined : FieldValue
  null : FieldValue
  string : Text → FieldValue
  number : ℕ → FieldValue
  array : List Text → FieldValue

abbrev pub Fields : Type 0
Fields = List (Text × FieldValue)

pub record Document : Type 0 where
  pub values : Fields
  pub modified : List Text

abbrev pub keys : List (Text × Text) → List Text
keys [] = []
keys ((k, v) ∷ m) = k ∷ keys m

-- ALL_FIELDS
abbrev pub all_fields : List Text
all_fields = keys field_to_column

-- SENSITIVE_FIELDS
unfoldable pub is_sensitive : Text → Bool
is_sensitive field =
    text_eq field (text "password")
    || text_eq field (text "refreshTokens")
    || text_eq field (text "activeAccessJtis")

abbrev pub jsonb_fields : List Text
jsonb_fields = text "refreshTokens" ∷ text "activeAccessJtis" ∷ text "migrationHistory" ∷ []

abbrev push_word : Text → List Text → List Text
push_word [] ws = ws
push_word (c ∷ cs) ws = (c ∷ cs) ∷ ws

unfoldable pub word_and_rest : Text → Text × List Text
word_and_rest [] = ([], [])
word_and_rest (c ∷ cs) =
    let (w, ws) = word_and_rest cs in if is_space c then ([], push_word w ws) else (c ∷ w, ws)

-- trim().split(/\s+/).filter(Boolean)
unfoldable pub words : Text → List Text
words spec = let (w, ws) = word_and_rest spec in push_word w ws

-- Set.add
unfoldable pub add_field : Text → List Text → List Text
add_field f [] = f ∷ []
add_field f (g ∷ fs) = let rest = add_field f fs in if text_eq g f then g ∷ fs else g ∷ rest

unfoldable pub default_fields : List Text → List Text
default_fields [] = []
default_fields (f ∷ fs) = let rest = default_fields fs in if is_sensitive f then rest else f ∷ rest

-- The tokens that do not start with a plus.
unfoldable pub inclusion : List Text → List Text
inclusion [] = []
inclusion (t ∷ ts) = let rest = inclusion ts in if starts_with (text "+") t then rest else t ∷ rest

unfoldable pub add_all : List Text → List Text → List Text
add_all [] fs = fs
add_all (t ∷ ts) fs = add_all ts (add_field t fs)

-- The tokens without their plus; a token that has none does not occur where this is used.
abbrev pub additive : List Text → List Text
additive [] = []
additive ([] ∷ ts) = additive ts
additive ((c ∷ cs) ∷ ts) = cs ∷ additive ts

abbrev pub choose_fields : List Text → List Text → List Text
choose_fields [] tokens = add_all (additive tokens) (default_fields all_fields)
choose_fields (t ∷ ts) tokens = add_all (t ∷ ts) (text "id" ∷ [])

unfoldable pub resolve_fields : Option Text → List Text
resolve_fields none = default_fields all_fields
resolve_fields (some []) = default_fields all_fields
resolve_fields (some (c ∷ cs)) =
    let tokens = words (c ∷ cs) in choose_fields (inclusion tokens) tokens

unfoldable pub selected : List Text → Fields → Fields
selected fields [] = []
selected fields ((f, v) ∷ row) =
    let rest = selected fields row in if contains f fields then (f, v) ∷ rest else rest

-- The document of the selected columns of a row.
unfoldable pub load : List Text → Fields → Document
load fields row = record { values = selected fields row; modified = [] }

-- The proxy's `set`; a name with an underscore in front is a property of the object itself.
unfoldable pub set_field : Text → FieldValue → Document → Document
set_field prop value d =
    if starts_with (text "_") prop
    then d
    else record { values = insert prop value d.values; modified = add_field prop d.modified }

unfoldable pub value_of : Fields → Text → FieldValue
value_of values field = elim (lookup field values) [ none ↦ undefined | some v ↦ v ]

abbrev jsonb_value : FieldValue → FieldValue
jsonb_value undefined = array []
jsonb_value null = array []
jsonb_value v = v

abbrev nullable : FieldValue → FieldValue
nullable undefined = null
nullable v = v

abbrev password_value : (Text → Text) → FieldValue → FieldValue
password_value hash undefined = null
password_value hash (string (c ∷ cs)) = string (hash (c ∷ cs))
password_value hash v = v

-- What a save writes to a field's column.
unfoldable pub column_value : (Text → Text) → Text → FieldValue → FieldValue
column_value hash field raw =
    if is_jsonb field
    then jsonb_value raw
    else if text_eq field (text "password")
    then password_value hash raw
    else nullable raw

unfoldable pub is_generated : Text → Bool
is_generated f =
    text_eq f (text "id") || text_eq f (text "createdAt") || text_eq f (text "updatedAt")

unfoldable pub loaded_jsonb : Fields → List Text → List Text
loaded_jsonb values [] = []
loaded_jsonb values (f ∷ fs) =
    let rest = loaded_jsonb values fs in elim (lookup f values) [ none ↦ rest | some v ↦ f ∷ rest ]

unfoldable pub not_generated : List Text → List Text
not_generated [] = []
not_generated (f ∷ fs) = let rest = not_generated fs in if is_generated f then rest else f ∷ rest

unfoldable pub fields_to_write : Document → List Text
fields_to_write d = not_generated (add_all (loaded_jsonb d.values jsonb_fields) d.modified)

-- The assignments of the UPDATE; `none` where a field has no column, which throws.
unfoldable pub write_all : (Text → Text) → List Text → Fields → Fields → Option Fields
write_all hash [] values row = some row
write_all hash (f ∷ fs) values row = elim (column_name f) [
  | none ↦ none
  | some col ↦ write_all hash fs values (insert f (column_value hash f (value_of values f)) row)
]

-- The row after the UPDATE, which the document then holds; `updated_at` is set by the database.
unfoldable pub update : (Text → Text) → Document → Fields → Option (Fields × Document)
update hash d row = elim (write_all hash (fields_to_write d) d.values row) [
  | none ↦ none
  | some row' ↦ some (row', record { values = row'; modified = [] })
]
