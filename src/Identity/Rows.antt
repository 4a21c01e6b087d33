-- ===== src/Identity/Rows.antt =====
-- What the table's operations do to a look-up, and the keys of different kinds, which never meet.
use uam_backend.Prelude.{
  Text, lookup, Bool, List, Option, ◌++◌, Absent, Distinct, ◌≡◌, some, if◌then◌else◌, ◌||◌, ◌∷◌,
  none, arith, text_eq_iff, false, [], lookup-Absent, insert, refl, true,
}
use uam_backend.Identity.Table.{
  IndexEntry, delete_where, update_one, IndexTable, IndexUpdate, clear_fields, write_fields,
  is_empty, blank_entry, UpdateResult,
}
use uam_backend.Session.{contains}
use uam_backend.Identity.Service.{upsert}

abbrev pub spared : (Text → IndexEntry → Bool) → Text → Option IndexEntry → Option IndexEntry
spared p k none = none
spared p k (some e) = if p k e then none else some e

Absent-delete_where :
    (k : Text) (p : Text → IndexEntry → Bool) (t : IndexTable)
    → Absent k t
    → Absent k (delete_where p t)
unfolding delete_where
Absent-delete_where k p [] a = tt
Absent-delete_where k p ((j, e) ∷ t) a = ground (arith, Absent-delete_where k p t a.1)

pub Distinct-delete_where :
    (p : Text → IndexEntry → Bool) (t : IndexTable) → Distinct t → Distinct (delete_where p t)
unfolding delete_where
Distinct-delete_where p [] d = tt
Distinct-delete_where p ((j, e) ∷ t) d =
    ground (arith, Absent-delete_where j p t d.0, Distinct-delete_where p t d.1)

pub lookup-delete_where :
    (p : Text → IndexEntry → Bool) (k : Text) (t : IndexTable)
    → Distinct t
    → lookup k (delete_where p t) ≡ spared p k (lookup k t)
unfolding lookup delete_where
lookup-delete_where p k [] d = refl
lookup-delete_where p k ((j, e) ∷ t) d =
    ground (arith, text_eq_iff j k, lookup-delete_where p k t d.1, lookup-Absent k t)

pub contains-append :
    (k : Text) (xs ys : List Text) → contains k (xs ++ ys) ≡ (contains k xs || contains k ys)
unfolding contains
contains-append k [] ys = refl
contains-append k (x ∷ xs) ys = ground (arith, contains-append k xs ys)

module _ (key : Text) (u : IndexUpdate) (e0 : IndexEntry)
    (writes : (e : IndexEntry) → clear_fields u.unset_keys (write_fields u.set_doc e) ≡ e0) where
  update_found :
      (t : IndexTable) (found : Option IndexEntry)
      → lookup key t ≡ found
      → is_empty key ≡ false
      → is_empty e0.user_id ≡ false
      → (r : UpdateResult) × (update_one key u true t ≡ some (insert key e0 t, r))
  unfolding update_one
  update_found t (some e) f k i = (
    record { matched_count = 1; modified_count = 1; upserted_count = 0 },
    rw (f, update_one) (rw (writes e) refl),
  )
  update_found t none f k i = (
    record { matched_count = 0; modified_count = 0; upserted_count = 1 },
    rw (f, update_one) (rw (writes blank_entry) (rw (k, i) refl)),
  )

  -- An upsert whose fields do not depend on the row before it.
  pub upsert_written :
      (t : IndexTable)
      → is_empty key ≡ false
      → is_empty e0.user_id ≡ false
      → upsert (some (key, u)) (some t) ≡ some (insert key e0 t)
  unfolding upsert
  upsert_written t k i = let (r, e) = update_found t (lookup key t) refl k i in rw (e, upsert) refl
