-- ===== src/Filter/Counting.antt =====
-- Which placeholders SQL holds, and how that goes through the ways of putting clauses together.
-- The placeholders of the SQL are the numbers from `a + 1` to `b`, each once and in order.
use mathlib.Core.Path.{subst}
use uam_backend.Prelude.{ℕ, List, Text, ◌≡◌, ◌++◌, [], ◌∷◌, sym, text, refl, ◌+◌}
use uam_backend.Filter.Clauses.{join, Sql, all_parens, number}
use uam_backend.Filter.{parens, negated, or_clause, and_clauses, raw, dollar}

unfoldable pub Counts : ℕ → Sql → ℕ → Type 0
Counts a [] b = a ≡ b
Counts a (dollar i ∷ s) b = (i ≡ a + 1) × Counts (a + 1) s b
Counts a (raw t ∷ s) b = Counts a s b
Counts a (number n ∷ s) b = Counts a s b

abbrev pub AllCount : ℕ → List Sql → ℕ → Type 0
AllCount a [] b = a ≡ b
AllCount a (s ∷ ss) b = (c : ℕ) × Counts a s c × AllCount c ss b

pub Counts-append : (a b c : ℕ) (s t : Sql) → Counts a s b → Counts b t c → Counts a (s ++ t) c
unfolding Counts
Counts-append a b c [] t h k = subst (λ n. Counts n t c) (sym h) k
Counts-append a b c (dollar i ∷ s) t h k = (h.0, Counts-append (a + 1) b c s t h.1 k)
Counts-append a b c (raw x ∷ s) t h k = Counts-append a b c s t h k
Counts-append a b c (number n ∷ s) t h k = Counts-append a b c s t h k

pub Counts-join :
    (a b : ℕ) (separator : Text) (ss : List Sql) → AllCount a ss b → Counts a (join separator ss) b
unfolding Counts join
Counts-join a b separator [] h = h
Counts-join a b separator (s ∷ []) (c, h, e) = subst (λ n. Counts a s n) e h
Counts-join a b separator (s ∷ t ∷ rest) (c, h, k) =
    Counts-append a c b s (raw separator ∷ join separator (t ∷ rest)) h
      (Counts-join c b separator (t ∷ rest) k)

pub AllCount-append :
    (a b c : ℕ) (ss ts : List Sql) → AllCount a ss b → AllCount b ts c → AllCount a (ss ++ ts) c
AllCount-append a b c [] ts h k = subst (λ n. AllCount n ts c) (sym h) k
AllCount-append a b c (s ∷ ss) ts (d, h, h') k = (d, h, AllCount-append d b c ss ts h' k)

pub Counts-parens : (a b : ℕ) (s : Sql) → Counts a s b → Counts a (parens s) b
unfolding Counts
Counts-parens a b s h = Counts-append a b b s (raw (text ")") ∷ []) h refl

pub Counts-negated : (a b : ℕ) (s : Sql) → Counts a s b → Counts a (negated s) b
unfolding Counts
Counts-negated a b s h = Counts-append a b b s (raw (text ")") ∷ []) h refl

AllCount-parens : (a b : ℕ) (ss : List Sql) → AllCount a ss b → AllCount a (all_parens ss) b
AllCount-parens a b [] h = h
AllCount-parens a b (s ∷ ss) (c, h, k) = (c, Counts-parens a c s h, AllCount-parens c b ss k)

pub AllCount-or_clause : (a b : ℕ) (ss : List Sql) → AllCount a ss b → AllCount a (or_clause ss) b
AllCount-or_clause a b [] h = h
AllCount-or_clause a b (s ∷ ss) h = (
  b,
  Counts-parens a b (join (text " OR ") (all_parens (s ∷ ss)))
      (Counts-join a b (text " OR ") (all_parens (s ∷ ss)) (AllCount-parens a b (s ∷ ss) h)),
  refl,
)

pub AllCount-and_clauses :
    (a b : ℕ) (ss : List Sql) → AllCount a ss b → AllCount a (and_clauses ss) b
unfolding Counts
AllCount-and_clauses a b [] h = h
AllCount-and_clauses a b ([] ∷ ss) (c, h, k) =
    subst (λ n. AllCount n (and_clauses ss) b) (sym h) (AllCount-and_clauses c b ss k)
AllCount-and_clauses a b ((p ∷ s) ∷ ss) (c, h, k) =
    (c, Counts-parens a c (p ∷ s) h, AllCount-and_clauses c b ss k)
