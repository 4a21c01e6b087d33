-- ===== src/Filter.antt =====
-- The compiler of filters to SQL (src/db/filter.ts, src/db/columns.ts). SQL is a list of pieces, so that
-- a placeholder is not mixed up with text. A scalar is any value of the type `V`.
pub mod Clauses
pub mod Columns
pub mod Counting
pub mod Placeholders
pub mod Tests
use uam_backend.Prelude.{
  Text, List, ℕ, Option, text, Bool, ◌∷◌, if◌then◌else◌, some, ◌++◌, length, [], none, ◌+◌, false,
  not,
}
use uam_backend.Filter.Columns.{column_name, is_jsonb}
use uam_backend.Filter.Clauses.{
  Sql, raw, array_size, parens, or_clause, and_sql, dollar, negated, and_clauses, is_null,
}

-- A parameter: a scalar, an array, the JSON of an array, the source of a pattern.
pub data Param (V : Type 0) : Type 0 where
  value : V → Param V
  values : List V → Param V
  json_of : List V → Param V
  pattern : Text → Param V

pub data Plain (V : Type 0) : Type 0 where
  scalar : V → Plain V
  array : List V → Plain V

pub data Comparison : Type 0 where
  gt gte lt lte ne : Comparison

-- An operator object, its operators in order. `not_size` is $not of an object with a numeric $size;
-- the other operands of $not are plain values or operator objects.
pub data Operators (V : Type 0) : Type 0 where
  no_more : Operators V
  not_size : ℕ → Operators V → Operators V
  not_plain : Plain V → Operators V → Operators V
  not_operators : Operators V → Operators V → Operators V
  compare : Comparison → V → Operators V → Operators V
  ne_null : Operators V → Operators V
  exists : Bool → Operators V → Operators V
  is_in : List V → Operators V → Operators V
  not_in : List V → Operators V → Operators V
  regex : (source : Text) (insensitive : Bool) → Operators V → Operators V
  size : ℕ → Operators V → Operators V
  unsupported : Text → Operators V → Operators V

pub data Value (V : Type 0) : Type 0 where
  plain : Plain V → Value V
  operators : Operators V → Value V

-- A filter's entries in order: a field; $or; $and.
mutual
  pub data Filter (V : Type 0) : Type 0 where
    no_entries : Filter V
    field : Text → Value V → Filter V → Filter V
    any_of : Filters V → Filter V → Filter V
    all_of : Filters V → Filter V → Filter V

  pub data Filters (V : Type 0) : Type 0 where
    no_filters : Filters V
    filter : Filter V → Filters V → Filters V

abbrev pub and_then : {A B : Type 0} → Option A → (A → Option B) → Option B
and_then none k = none
and_then (some a) k = k a

abbrev pub symbol : Comparison → Text
symbol gt = text " > "
symbol gte = text " >= "
symbol lt = text " < "
symbol lte = text " <= "
symbol ne = text " IS DISTINCT FROM "

module _ {V : Type 0} where
  -- `(${col}<before>$i<after>)`, with `i` the parameter that is pushed.
  abbrev pub push : Text → Text → Text → Param V → List (Param V) → Sql × List (Param V)
  push before after col p ps = (
    raw (text "(") ∷ raw col ∷ raw before ∷ dollar (length ps + 1) ∷ raw (after ++ text ")") ∷ [],
    ps ++ p ∷ [],
  )

  unfoldable pub build_plain : Text → Text → Plain V → List (Param V) → Sql × List (Param V)
  build_plain name col (array vs) ps =
      if is_jsonb name
      then push (text " @> ") (text "::jsonb") col (json_of vs) ps
      else push (text " = ") [] col (values vs) ps
  build_plain name col (scalar v) ps =
      if is_jsonb name
      then push (text " @> to_jsonb(") (text "::text)") col (value v) ps
      else push (text " = ") [] col (value v) ps

  -- A clause with no placeholder.
  abbrev pub fixed : Sql → List (Param V) → Sql × List (Param V)
  fixed s ps = (s, ps)

  unfoldable pub build_in : Text → List V → List (Param V) → Sql × List (Param V)
  build_in col [] ps = fixed (raw (text "(FALSE)") ∷ []) ps
  build_in col (v ∷ vs) ps = push (text " = ANY(") (text ")") col (values (v ∷ vs)) ps

  unfoldable pub build_not_in : Text → List V → List (Param V) → Sql × List (Param V)
  build_not_in col [] ps = fixed (raw (text "(TRUE)") ∷ []) ps
  build_not_in col (v ∷ vs) ps = (
    raw (text "(NOT (")
        ∷ raw col
        ∷ raw (text " = ANY(")
        ∷ dollar (length ps + 1)
        ∷ raw (text ")))")
        ∷ [],
    ps ++ values (v ∷ vs) ∷ [],
  )

  unfoldable pub build_regex : Text → Text → Bool → List (Param V) → Sql × List (Param V)
  build_regex col source insensitive ps =
      push (if insensitive then text " ~* " else text " ~ ") [] col (pattern source) ps

  -- One clause, and then those of the remaining operators.
  abbrev pub before :
      Sql × List (Param V)
      → (List (Param V) → Option (List Sql × List (Param V)))
      → Option (List Sql × List (Param V))
  before (s, ps) rest = and_then (rest ps) (λ (ss, ps'). some (s ∷ ss, ps'))

  -- The clauses of an operator object; `none` is the exception "Unsupported operator".
  unfoldable pub build_operators :
      Text → Text → Operators V → List (Param V) → Option (List Sql × List (Param V))
  unfolding build_plain build_in build_not_in build_regex
  build_operators name col no_more ps = some ([], ps)
  build_operators name col (not_size n rest) ps =
      before (fixed (array_size (text ") <> ") col n) ps) (λ qs. build_operators name col rest qs)
  build_operators name col (not_plain p rest) ps =
      let (s, qs) = build_plain name col p ps in
      before (negated s, qs) (λ qs'. build_operators name col rest qs')
  build_operators name col (not_operators inner rest) ps =
      and_then (build_operators name col inner ps) (λ (ss, qs).
        before (negated (parens (and_sql ss)), qs) (λ qs'. build_operators name col rest qs'))
  build_operators name col (compare c v rest) ps =
      before (push (symbol c) [] col (value v) ps) (λ qs. build_operators name col rest qs)
  build_operators name col (ne_null rest) ps =
      before (fixed (is_null col false) ps) (λ qs. build_operators name col rest qs)
  build_operators name col (exists wanted rest) ps =
      before (fixed (is_null col (not wanted)) ps) (λ qs. build_operators name col rest qs)
  build_operators name col (is_in vs rest) ps =
      before (build_in col vs ps) (λ qs. build_operators name col rest qs)
  build_operators name col (not_in vs rest) ps =
      before (build_not_in col vs ps) (λ qs. build_operators name col rest qs)
  build_operators name col (regex source insensitive rest) ps =
      before (build_regex col source insensitive ps) (λ qs. build_operators name col rest qs)
  build_operators name col (size n rest) ps =
      before (fixed (array_size (text ") = ") col n) ps) (λ qs. build_operators name col rest qs)
  build_operators name col (unsupported op rest) ps = none

  unfoldable pub build_value :
      Text → Text → Value V → List (Param V) → Option (Sql × List (Param V))
  unfolding build_plain
  build_value name col (plain p) ps = some (build_plain name col p ps)
  build_value name col (operators ops) ps =
      and_then (build_operators name col ops ps) (λ (ss, qs). some (parens (and_sql ss), qs))

  unfoldable pub build_expr : Text → Value V → List (Param V) → Option (Sql × List (Param V))
  build_expr name v ps = and_then (column_name name) (λ col. build_value name col v ps)

  unfoldable mutual
    pub build_entries : Filter V → List (Param V) → Option (List Sql × List (Param V))
    build_entries no_entries ps = some ([], ps)
    build_entries (field name v rest) ps =
        and_then (build_expr name v ps) (λ c. before c (λ qs. build_entries rest qs))
    build_entries (any_of subs rest) ps =
        and_then (build_subs subs ps) (λ (ss, qs).
          and_then (build_entries rest qs) (λ (cs, qs'). some (or_clause ss ++ cs, qs')))
    build_entries (all_of subs rest) ps = and_then (build_subs subs ps) (λ (ss, qs).
        and_then (build_entries rest qs) (λ (cs, qs'). some (and_clauses ss ++ cs, qs')))

    pub build_subs : Filters V → List (Param V) → Option (List Sql × List (Param V))
    build_subs no_filters ps = some ([], ps)
    build_subs (filter f rest) ps =
        and_then (build_entries f ps)
          (λ (cs, qs). before (and_sql cs, qs) (λ qs'. build_subs rest qs'))

  unfoldable pub build_where : Filter V → List (Param V) → Option (Sql × List (Param V))
  build_where f ps = and_then (build_entries f ps) (λ (cs, qs). some (and_sql cs, qs))
