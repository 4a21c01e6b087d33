-- ===== src/Prelude/Maps.antt =====
-- Texts as lists of code points, and maps with such keys as association lists.
use Prim.Native.Char.{code}
use Prim.Native.Nat.{ℕ}
use Prim.Native.String.{String}
use mathlib.Core.Path.{◌≡◌, refl}
use mathlib.Core.Logic.{◌↔◌, ◌≢◌}
use mathlib.Core.Bool.{Bool, true, false, ◌&&◌}
use mathlib.Core.Option.{Option, none, some}
use mathlib.Core.List.{List, [], ◌∷◌}
use native.Mathlib.Omega.{arith}
use uam_backend.Prelude.Tests.{◌==◌, if◌then◌else◌}

abbrev pub Text : Type 0
Text = List ℕ

abbrev pub text : String → Text
text String.[] = []
text (String.◌∷◌ c s) = code c ∷ text s

unfoldable pub text_eq : Text → Text → Bool
text_eq [] [] = true
text_eq (a ∷ s) (b ∷ t) = a == b && text_eq s t
text_eq _ _ = false

pub text_eq_iff : (s t : Text) → (text_eq s t ≡ true) ↔ (s ≡ t)
unfolding text_eq
text_eq_iff [] [] = (λ e. refl, λ e. refl)
text_eq_iff [] (b ∷ t) = (λ e. cc, λ e. cc)
text_eq_iff (a ∷ s) [] = (λ e. cc, λ e. cc)
text_eq_iff (a ∷ s) (b ∷ t) = ground (arith, text_eq_iff s t)

pub text_eq_refl : (s : Text) → text_eq s s ≡ true
text_eq_refl s = (text_eq_iff s s).1 refl

module _ {ℓ} {V : Type ℓ} where
  unfoldable pub lookup : Text → List (Text × V) → Option V
  lookup k [] = none
  lookup k ((j, v) ∷ m) = if text_eq j k then some v else lookup k m

  unfoldable pub insert : Text → V → List (Text × V) → List (Text × V)
  insert k v [] = (k, v) ∷ []
  insert k v ((j, w) ∷ m) = if text_eq j k then (k, v) ∷ m else (j, w) ∷ insert k v m

  -- All entries of the key are dropped.
  unfoldable pub delete : Text → List (Text × V) → List (Text × V)
  delete k [] = []
  delete k ((j, w) ∷ m) = let rest = delete k m in if text_eq j k then rest else (j, w) ∷ rest

  -- The entries whose value passes the test.
  unfoldable pub retain : (V → Bool) → List (Text × V) → List (Text × V)
  retain p [] = []
  retain p ((j, w) ∷ m) = let rest = retain p m in if p w then (j, w) ∷ rest else rest

  pub lookup-insert :
      (k j : Text) (v : V) (m : List (Text × V))
      → lookup j (insert k v m) ≡ (if text_eq k j then some v else lookup j m)
  unfolding lookup insert
  lookup-insert k j v [] = refl
  lookup-insert k j v ((i, w) ∷ m) =
      ground (arith, text_eq_iff k j, text_eq_iff i k, text_eq_iff i j, lookup-insert k j v m)

  pub lookup-delete :
      (k j : Text) (m : List (Text × V))
      → lookup j (delete k m) ≡ (if text_eq k j then none else lookup j m)
  unfolding lookup delete
  lookup-delete k j [] = ground arith
  lookup-delete k j ((i, w) ∷ m) =
      ground (arith, text_eq_iff k j, text_eq_iff i k, text_eq_iff i j, lookup-delete k j m)

  pub lookup-insert_self :
      (k : Text) (v : V) (m : List (Text × V)) → lookup k (insert k v m) ≡ some v
  lookup-insert_self k v m = ground (arith, lookup-insert k k v m, text_eq_refl k)

  pub lookup-insert_ne :
      (k j : Text) (v : V) (m : List (Text × V)) → k ≢ j → lookup j (insert k v m) ≡ lookup j m
  lookup-insert_ne k j v m d = ground (arith, lookup-insert k j v m, text_eq_iff k j)

  pub lookup-delete_self : (k : Text) (m : List (Text × V)) → lookup k (delete k m) ≡ none
  lookup-delete_self k m = ground (arith, lookup-delete k k m, text_eq_refl k)

  pub lookup-delete_ne :
      (k j : Text) (m : List (Text × V)) → k ≢ j → lookup j (delete k m) ≡ lookup j m
  lookup-delete_ne k j m d = ground (arith, lookup-delete k j m, text_eq_iff k j)

  -- No key stands twice.
  abbrev pub Absent : Text → List (Text × V) → Type 0
  Absent k [] = Unit
  Absent k ((j, w) ∷ m) = (j ≢ k) × Absent k m

  abbrev pub Distinct : List (Text × V) → Type 0
  Distinct [] = Unit
  Distinct ((j, w) ∷ m) = Absent j m × Distinct m

  pub lookup-Absent : (k : Text) (m : List (Text × V)) → Absent k m → lookup k m ≡ none
  unfolding lookup
  lookup-Absent k [] a = refl
  lookup-Absent k ((j, w) ∷ m) a = ground (arith, text_eq_iff j k, lookup-Absent k m a.1)

  Absent-retain :
      (k : Text) (p : V → Bool) (m : List (Text × V)) → Absent k m → Absent k (retain p m)
  unfolding retain
  Absent-retain k p [] a = tt
  Absent-retain k p ((j, w) ∷ m) a = ground (arith, Absent-retain k p m a.1)

  pub Distinct-retain : (p : V → Bool) (m : List (Text × V)) → Distinct m → Distinct (retain p m)
  unfolding retain
  Distinct-retain p [] d = tt
  Distinct-retain p ((j, w) ∷ m) d =
      ground (arith, Absent-retain j p m d.0, Distinct-retain p m d.1)

  -- What a look-up finds after a sweep.
  abbrev pub keep_if : (V → Bool) → Option V → Option V
  keep_if p none = none
  keep_if p (some v) = if p v then some v else none

  pub lookup-retain :
      (p : V → Bool) (k : Text) (m : List (Text × V))
      → Distinct m
      → lookup k (retain p m) ≡ keep_if p (lookup k m)
  unfolding lookup retain
  lookup-retain p k [] d = refl
  lookup-retain p k ((j, w) ∷ m) d =
      ground (arith, text_eq_iff j k, lookup-retain p k m d.1, lookup-Absent k m)

  Absent-insert :
      (i k : Text) (v : V) (m : List (Text × V)) → k ≢ i → Absent i m → Absent i (insert k v m)
  unfolding insert
  Absent-insert i k v [] d a = (d, tt)
  Absent-insert i k v ((j, w) ∷ m) d a = ground (arith, Absent-insert i k v m d a.1)

  pub Distinct-insert :
      (k : Text) (v : V) (m : List (Text × V)) → Distinct m → Distinct (insert k v m)
  unfolding insert
  Distinct-insert k v [] d = (tt, tt)
  Distinct-insert k v ((j, w) ∷ m) d =
      ground (arith, text_eq_iff j k, Distinct-insert k v m d.1, Absent-insert j k v m)

  Absent-delete : (i k : Text) (m : List (Text × V)) → Absent i m → Absent i (delete k m)
  unfolding delete
  Absent-delete i k [] a = tt
  Absent-delete i k ((j, w) ∷ m) a = ground (arith, Absent-delete i k m a.1)

  pub Distinct-delete : (k : Text) (m : List (Text × V)) → Distinct m → Distinct (delete k m)
  unfolding delete
  Distinct-delete k [] d = tt
  Distinct-delete k ((j, w) ∷ m) d =
      ground (arith, Absent-delete j k m d.0, Distinct-delete k m d.1)
