-- ===== src/Cache/Table.antt =====
-- A Redis server that is an association list, on which the cache's theorems can be tried.
-- A value, with the millisecond at which it expires, if it does.
use uam_backend.Prelude.{
  List, ℕ, Text, Option, lookup, ◌<◌, ◌+◌, insert, some, if◌then◌else◌, ◌*◌, none, ltb, ◌≡◌, ◌≤◌,
  delete, arith, ap, lookup-insert_self, lookup-insert_ne, lookup-delete_self, lookup-delete_ne,
}
use uam_backend.Cache.{RedisStore}

abbrev pub Table : Type 0
Table = List (Text × (Text × Option ℕ))

abbrev live_value : ℕ → Option (Text × Option ℕ) → Option Text
live_value now none = none
live_value now (some (v, none)) = some v
live_value now (some (v, some expires)) = if ltb now expires then some v else none

pub get_live :
    (s : Table) (t now : ℕ) (k : Text) (ttl : ℕ) (v : Text)
    → now < t + ttl * 1_000
    → live_value now (lookup k (insert k (v, some (t + ttl * 1_000)) s)) ≡ some v
get_live s t now k ttl v h = ground (arith, lookup-insert_self k (v, some (t + ttl * 1_000)) s)

pub get_expired :
    (s : Table) (t now : ℕ) (k : Text) (ttl : ℕ) (v : Text)
    → t + ttl * 1_000 ≤ now
    → live_value now (lookup k (insert k (v, some (t + ttl * 1_000)) s)) ≡ none
get_expired s t now k ttl v h = ground (arith, lookup-insert_self k (v, some (t + ttl * 1_000)) s)

abbrev pub table : RedisStore
table = record {
  State = Table;
  get = λ s now k. live_value now (lookup k s);
  set = λ s k v. insert k (v, none) s;
  setex = λ s t k ttl v. insert k (v, some (t + ttl * 1_000)) s;
  del = λ s k. delete k s;
  get-set_self = λ s now k v. ap (live_value now) (lookup-insert_self k (v, none) s);
  get-set_ne = λ s now k j v n. ap (live_value now) (lookup-insert_ne k j (v, none) s n);
  get-setex_live = get_live;
  get-setex_expired = get_expired;
  get-setex_ne = λ s t now k j ttl v n.
      ap (live_value now) (lookup-insert_ne k j (v, some (t + ttl * 1_000)) s n);
  get-del_self = λ s now k. ap (live_value now) (lookup-delete_self k s);
  get-del_ne = λ s now k j n. ap (live_value now) (lookup-delete_ne k j s n);
}
