-- ===== src/Filter/Clauses.antt =====
-- The SQL that src/db/filter.ts writes: pieces, and how clauses are put together.
-- Text; a number that stands in the text; the placeholder `$i`.
use uam_backend.Prelude.{Text, List, text, ℕ, Bool, ◌∷◌, ◌++◌, if◌then◌else◌, []}

pub data Piece : Type 0 where
  raw : Text → Piece
  number : ℕ → Piece
  dollar : ℕ → Piece

abbrev pub Sql : Type 0
Sql = List Piece

unfoldable pub join : Text → List Sql → Sql
join separator [] = []
join separator (s ∷ []) = s
join separator (s ∷ t ∷ rest) = s ++ raw separator ∷ join separator (t ∷ rest)

abbrev pub is_null : Text → Bool → Sql
is_null col wanted =
    raw (text "(") ∷ raw col ∷ raw (if wanted then text " IS NULL)" else text " IS NOT NULL)") ∷ []

abbrev pub array_size : Text → Text → ℕ → Sql
array_size sign col n =
    raw (text "(jsonb_array_length(") ∷ raw col ∷ raw sign ∷ number n ∷ raw (text ")") ∷ []

abbrev pub negated : Sql → Sql
negated s = raw (text "(NOT ") ∷ s ++ raw (text ")") ∷ []

abbrev pub parens : Sql → Sql
parens s = raw (text "(") ∷ s ++ raw (text ")") ∷ []

abbrev pub and_sql : List Sql → Sql
and_sql clauses = join (text " AND ") clauses

abbrev pub all_parens : List Sql → List Sql
all_parens [] = []
all_parens (s ∷ ss) = parens s ∷ all_parens ss

-- The clause of $or, if it has a filter at all.
abbrev pub or_clause : List Sql → List Sql
or_clause [] = []
or_clause (s ∷ ss) = parens (join (text " OR ") (all_parens (s ∷ ss))) ∷ []

-- The clauses of $and, which leaves out what compiled to nothing.
abbrev pub and_clauses : List Sql → List Sql
and_clauses [] = []
and_clauses ([] ∷ ss) = and_clauses ss
and_clauses ((p ∷ s) ∷ ss) = parens (p ∷ s) ∷ and_clauses ss
