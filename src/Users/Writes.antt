-- ===== src/Users/Writes.antt =====
-- The lists of fields that a save writes, and the assignments of its UPDATE.
use uam_backend.Prelude.{
  none, some, Text, starts_with, ◌≡◌, text_eq, text, List, some, lookup, false, ◌||◌, ◌&&◌, All,
  not, if◌then◌else◌, ◌∷◌, arith, ◌∙◌, Bool, Option, [], text_eq_iff, true, refl, insert,
  lookup-insert,
}
use uam_backend.Session.{contains}
use uam_backend.Filter.Columns.{column_name, field_to_column}
use uam_backend.Users.Documents.{
  add_field, add_all, not_generated, loaded_jsonb, write_all, Fields, jsonb_fields, is_generated,
  column_value, FieldValue, value_of,
}

-- The fields of a list have columns, and none is a property of the object.
abbrev pub IsPlain : Text → Type 0
IsPlain f = (starts_with (text "_") f ≡ false) × ((col : Text) × (column_name f ≡ some col))

pub contains-add_field :
    (f g : Text) (fs : List Text) → contains f (add_field g fs) ≡ (text_eq g f || contains f fs)
unfolding contains add_field
contains-add_field f g [] = refl
contains-add_field f g (h ∷ fs) =
    ground (arith, text_eq_iff h g, text_eq_iff g f, text_eq_iff h f, contains-add_field f g fs)

pub contains-add_all :
    (f : Text) (ts fs : List Text) → contains f (add_all ts fs) ≡ (contains f ts || contains f fs)
unfolding contains add_all
contains-add_all f [] fs = refl
contains-add_all f (t ∷ ts) fs =
    contains-add_all f ts (add_field t fs) ∙ ground (arith, contains-add_field f t fs)

pub contains-not_generated :
    (f : Text) (fs : List Text)
    → contains f (not_generated fs) ≡ (contains f fs && not (is_generated f))
unfolding contains not_generated
contains-not_generated f [] = refl
contains-not_generated f (g ∷ fs) = ground (arith, text_eq_iff g f, contains-not_generated f fs)

pub All-add_field :
    (P : Text → Type 0) (f : Text) (fs : List Text) → P f → All P fs → All P (add_field f fs)
unfolding add_field
All-add_field P f [] p h = (p, tt)
All-add_field P f (g ∷ fs) p h = if-All (text_eq g f) (All-add_field P f fs p h.1)
  where
    if-All : (b : Bool) → All P (add_field f fs) → All P (if b then g ∷ fs else g ∷ add_field f fs)
    if-All true k = h
    if-All false k = (h.0, k)

pub All-add_all :
    (P : Text → Type 0) (ts fs : List Text) → All P ts → All P fs → All P (add_all ts fs)
unfolding add_all
All-add_all P [] fs h k = k
All-add_all P (t ∷ ts) fs h k = All-add_all P ts (add_field t fs) h.1 (All-add_field P t fs h.0 k)

pub All-not_generated : (P : Text → Type 0) (fs : List Text) → All P fs → All P (not_generated fs)
unfolding not_generated
All-not_generated P [] h = tt
All-not_generated P (f ∷ fs) h = if-All (is_generated f) (All-not_generated P fs h.1)
  where
    if-All :
        (b : Bool)
        → All P (not_generated fs)
        → All P (if b then not_generated fs else f ∷ not_generated fs)
    if-All true k = k
    if-All false k = (h.0, k)

abbrev pub HasColumn : Text → Type 0
HasColumn f = (col : Text) × (column_name f ≡ some col)

pub loaded_jsonb-HasColumn :
    (values : Fields) (fs : List Text) → All HasColumn fs → All HasColumn (loaded_jsonb values fs)
unfolding loaded_jsonb
loaded_jsonb-HasColumn values [] h = tt
loaded_jsonb-HasColumn values (f ∷ fs) h =
    elim-All (lookup f values) (loaded_jsonb-HasColumn values fs h.1)
  where
    elim-All :
        (o : Option FieldValue)
        → All HasColumn (loaded_jsonb values fs)
        → All HasColumn
            (elim o [ none ↦ loaded_jsonb values fs | some v ↦ f ∷ loaded_jsonb values fs ])
    elim-All none k = k
    elim-All (some v) k = (h.0, k)

pub jsonb_fields-HasColumn : All HasColumn jsonb_fields
unfolding column_name text_eq lookup field_to_column
jsonb_fields-HasColumn = ((_, refl), ((_, refl), ((_, refl), tt)))

pub write_all-lookup :
    (hash : Text → Text) (fs : List Text) (values row : Fields)
    → All HasColumn fs
    → (row' : Fields) × (write_all hash fs values row ≡ some row')
      × ((f : Text)
          → lookup f row' ≡ (
              if contains f fs
              then some (column_value hash f (value_of values f))
              else lookup f row))
unfolding write_all contains
write_all-lookup hash [] values row h = (row, refl, λ f. refl)
write_all-lookup hash (g ∷ fs) values row h =
    let v = column_value hash g (value_of values g) in
    let (row', e, at) = write_all-lookup hash fs values (insert g v row) h.1 in
    (
      row',
      rw (h.0.1, write_all) e,
      λ f. at f ∙ ground (arith, text_eq_iff g f, lookup-insert g f v row),
    )
