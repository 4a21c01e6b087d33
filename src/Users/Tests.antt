-- ===== src/Users/Tests.antt =====
-- The theorems on user documents and on the cursor at concrete inputs. Identifiers stand in the
-- order of their first letters here.
use uam_backend.Prelude.{
  Text, Bool, List, ◌∷◌, starts_with, text, true, lookup, false, [], text_eq, ltb, some, ◌≡◌, refl,
  if◌then◌else◌, ◌&&◌, none, ℕ, arith, is_space,
}
use uam_backend.Users.Cursor.{user_cursor, rows_after}
use uam_backend.Users.Paging.{IsStrictOrder, user_cursor_complete}
use uam_backend.Users.Documents.{
  Fields, resolve_fields, words, null, string, word_and_rest, array, is_sensitive, Document, update,
  load, is_generated, inclusion, add_all, add_field, default_fields,
}
use uam_backend.Filter.Columns.{column_name, field_to_column, is_jsonb}
use uam_backend.Session.{contains}
use uam_backend.Users.Projection.{names_field, resolve_fields-is_sensitive}
use uam_backend.Users.Saves.{assign, saved, assigned, update-load}

abbrev letter : Text → ℕ
letter [] = 0
letter (c ∷ cs) = c

abbrev less : Text → Text → Bool
less s t = ltb (letter s) (letter t)

less-IsStrictOrder : IsStrictOrder less
less-IsStrictOrder = record {
  trans = λ a b c h k. ground arith;
  asym = λ a b h. ground arith;
  irrefl = λ a. ground arith;
}

abbrev rows : List (Text × Bool)
rows = (text "a", true) ∷ (text "b", false) ∷ (text "c", true) ∷ []

user_cursor_complete_example :
    user_cursor less 4 (λ b. b) rows ≡ some (rows_after less (λ b. b) none rows)
user_cursor_complete_example =
    user_cursor_complete less less-IsStrictOrder 4 (λ b. b) rows
      ((refl, (refl, tt)), ((refl, tt), (tt, tt))) (omega arith)

abbrev hash : Text → Text
hash t = b'h' ∷ t

-- The bio is written while another session is ended.
abbrev loaded : Fields
loaded = (text "bio", null) ∷ (text "refreshTokens", array (text "r1" ∷ [])) ∷ []

abbrev current : Fields
current = (text "bio", null) ∷ (text "refreshTokens", array []) ∷ []

abbrev writes : Fields
writes = (text "bio", string (text "hello")) ∷ []

update-load_example :
    let fs = resolve_fields (some (text "+refreshTokens")) in
    (row : Fields) × (d : Document) × (update hash (assign writes (load fs loaded)) current
      ≡ some (row, d))
    × ((f : Text)
        → is_generated f ≡ false
        → lookup f row
          ≡ saved hash f
              (assigned f writes)
              (if contains f fs && is_jsonb f then lookup f loaded else none)
              (lookup f current))
unfolding starts_with column_name lookup text_eq field_to_column
update-load_example =
    update-load hash (resolve_fields (some (text "+refreshTokens"))) writes loaded current
      ((refl, (_, refl)), tt)

resolve_fields-is_sensitive_example :
    (spec : Text) × (some (text "+bio +password") ≡ some spec)
    × (names_field spec (text "password") ≡ true)
unfolding resolve_fields words word_and_rest contains is_sensitive text_eq inclusion is_space
    starts_with add_all add_field default_fields field_to_column
resolve_fields-is_sensitive_example =
    resolve_fields-is_sensitive (some (text "+bio +password")) (text "password") refl refl
