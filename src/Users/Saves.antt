-- ===== src/Users/Saves.antt =====
-- What a save writes over a row that others may have written since it was loaded.
use uam_backend.Prelude.{
  Text, Option, lookup, List, ◌≡◌, All, none, Bool, if◌then◌else◌, ◌&&◌, arith, some, ◌∷◌, text_eq,
  false, ◌∙◌, ◌||◌, text_eq_iff, [], true, lookup-insert, Option-cases, text, ap, refl,
}
use uam_backend.Session.{contains}
use uam_backend.Filter.Columns.{is_jsonb}
use uam_backend.Users.Documents.{
  Fields, set_field, loaded_jsonb, jsonb_fields, value_of, update, Document, FieldValue, selected,
  fields_to_write, load, column_value, is_generated, add_all,
}
use uam_backend.Users.Writes.{
  IsPlain, HasColumn, contains-add_field, All-add_field, contains-not_generated, write_all-lookup,
  All-not_generated, contains-add_all, All-add_all, loaded_jsonb-HasColumn, jsonb_fields-HasColumn,
}

-- The assignments that a handler makes to a document, in order.
abbrev pub assign : Fields → Document → Document
assign [] d = d
assign ((f, v) ∷ ws) d = assign ws (set_field f v d)

-- The value last assigned to a field.
abbrev pub assigned : Text → Fields → Option FieldValue
assigned f [] = none
assigned f ((g, v) ∷ ws) = elim (assigned f ws) [
  | some w ↦ some w
  | none ↦ if text_eq g f then some v else none
]

abbrev pub value_or : Option FieldValue → Option FieldValue → Option FieldValue
value_or (some v) o = some v
value_or none o = o

abbrev has_value : Option FieldValue → Bool
has_value none = false
has_value (some v) = true

assign-values :
    (f : Text) (ws : Fields) (d : Document)
    → All (λ w. IsPlain w.0) ws
    → lookup f (assign ws d).values ≡ value_or (assigned f ws) (lookup f d.values)
unfolding set_field
assign-values f [] d h = refl
assign-values f ((g, v) ∷ ws) d h =
    assign-values f ws (set_field g v d) h.1
    ∙ ground (arith, h.0.0, lookup-insert g f v d.values, Option-cases (assigned f ws))

assign-modified :
    (f : Text) (ws : Fields) (d : Document)
    → All (λ w. IsPlain w.0) ws
    → contains f (assign ws d).modified ≡ (has_value (assigned f ws) || contains f d.modified)
unfolding set_field
assign-modified f [] d h = refl
assign-modified f ((g, v) ∷ ws) d h =
    assign-modified f ws (set_field g v d) h.1
    ∙ ground (arith, h.0.0, contains-add_field f g d.modified, Option-cases (assigned f ws))

assign-HasColumn :
    (ws : Fields) (d : Document)
    → All (λ w. IsPlain w.0) ws
    → All HasColumn d.modified
    → All HasColumn (assign ws d).modified
unfolding set_field
assign-HasColumn [] d h k = k
assign-HasColumn ((g, v) ∷ ws) d h k =
    assign-HasColumn ws (set_field g v d) h.1
      (rw (h.0.0, set_field) (All-add_field HasColumn g d.modified h.0.1 k))

lookup-selected :
    (f : Text) (fs : List Text) (row : Fields)
    → lookup f (selected fs row) ≡ (if contains f fs then lookup f row else none)
unfolding lookup selected
lookup-selected f fs [] = ground arith
lookup-selected f fs ((g, v) ∷ row) = ground (arith, text_eq_iff g f, lookup-selected f fs row)

contains-loaded_jsonb :
    (f : Text) (values : Fields) (fs : List Text)
    → contains f (loaded_jsonb values fs) ≡ (contains f fs && has_value (lookup f values))
unfolding contains loaded_jsonb
contains-loaded_jsonb f values [] = refl
contains-loaded_jsonb f values (g ∷ fs) =
    ground
      (arith, text_eq_iff g f, contains-loaded_jsonb f values fs, Option-cases (lookup g values))

contains-jsonb_fields : (f : Text) → contains f jsonb_fields ≡ is_jsonb f
unfolding contains is_jsonb
contains-jsonb_fields f = ground (
  arith,
  text_eq_iff (text "refreshTokens") f,
  text_eq_iff f (text "refreshTokens"),
  text_eq_iff (text "activeAccessJtis") f,
  text_eq_iff f (text "activeAccessJtis"),
  text_eq_iff (text "migrationHistory") f,
  text_eq_iff f (text "migrationHistory"),
)

-- What a column holds after a save: what was assigned, else an array column as it was loaded, else
-- what the table has.
abbrev pub saved :
    (Text → Text)
    → Text
    → Option FieldValue
    → Option FieldValue
    → Option FieldValue
    → Option FieldValue
saved hash f (some v) loaded current = some (column_value hash f v)
saved hash f none (some v) current = some (column_value hash f v)
saved hash f none none current = current

saved-if :
    (hash : Text → Text) (f : Text) (current values : Fields) (written : List Text)
    (a l : Option FieldValue) (c : Bool)
    → lookup f values ≡ value_or a (if c then l else none)
    → contains f written ≡ (has_value a || (is_jsonb f && has_value (lookup f values)))
    → (if contains f written
        then some (column_value hash f (value_of values f))
        else lookup f current)
      ≡ saved hash f a (if c && is_jsonb f then l else none) (lookup f current)
unfolding value_of
saved-if hash f current values written a l c e w = ground (arith, Option-cases a, Option-cases l)

module _ (fs : List Text) (ws loaded : Fields) (plain : All (λ w. IsPlain w.0) ws) where
  held :
      (f : Text)
      → lookup f (assign ws (load fs loaded)).values
        ≡ value_or (assigned f ws) (if contains f fs then lookup f loaded else none)
  unfolding load
  held f =
      assign-values f ws (load fs loaded) plain
      ∙ ap (value_or (assigned f ws)) (lookup-selected f fs loaded)

  contains-fields_to_write :
      (f : Text)
      → is_generated f ≡ false
      → contains f (fields_to_write (assign ws (load fs loaded))) ≡ (
          has_value (assigned f ws)
          || (is_jsonb f && has_value (lookup f (assign ws (load fs loaded)).values)))
  unfolding fields_to_write load contains
  contains-fields_to_write f g =
      let d = assign ws (load fs loaded) in
      ground (
        arith,
        contains-not_generated f (add_all (loaded_jsonb d.values jsonb_fields) d.modified),
        contains-add_all f (loaded_jsonb d.values jsonb_fields) d.modified,
        contains-loaded_jsonb f d.values jsonb_fields,
        contains-jsonb_fields f,
        assign-modified f ws (load fs loaded) plain,
      )

-- A document that was loaded with some columns of a row, and then assigned fields that have a
-- column, saves over whatever the row has become: every column but the identifier and the two
-- timestamps then holds what was last assigned to it; or, if nothing was and it is an array column
-- that was loaded, what it held at the load; or else what the table has by now. What is written takes
-- its column's form: a password is stored as its hash.
pub update-load :
    (hash : Text → Text) (fs : List Text) (ws loaded current : Fields)
    → All (λ w. IsPlain w.0) ws
    → (row : Fields) × (d : Document) × (update hash (assign ws (load fs loaded)) current
        ≡ some (row, d))
      × ((f : Text)
          → is_generated f ≡ false
          → lookup f row
            ≡ saved hash f
                (assigned f ws)
                (if contains f fs && is_jsonb f then lookup f loaded else none)
                (lookup f current))
unfolding update fields_to_write load
update-load hash fs ws loaded current h =
    let d0 = load fs loaded in
    let d = assign ws d0 in
    let jsonb = loaded_jsonb d.values jsonb_fields in
    let (row, e, at) = write_all-lookup hash (fields_to_write d) d.values current (
      All-not_generated HasColumn _ (
        All-add_all HasColumn jsonb d.modified
          (loaded_jsonb-HasColumn d.values jsonb_fields jsonb_fields-HasColumn)
          (assign-HasColumn ws d0 h tt))) in
    (
      row,
      record { values = row; modified = [] },
      rw (e, update) refl,
      λ f g.
          at f
          ∙ saved-if hash f current d.values (fields_to_write d) (assigned f ws) (lookup f loaded)
              (contains f fs) (held fs ws loaded h f) (contains-fields_to_write fs ws loaded h f g),
    )
