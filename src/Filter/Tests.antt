-- ===== src/Filter/Tests.antt =====
-- A filter compiled: a field, and one of two others.
use uam_backend.Prelude.{List, ℕ, text, ◌∷◌, [], lookup, text_eq, refl}
use uam_backend.Filter.{
  Filter, build_where, Param, build_entries, field, value, build_subs, build_expr, plain,
  build_value, scalar, build_plain, any_of, build_operators, filter, no_entries, operators, compare,
  gt, no_more, no_filters,
}
use uam_backend.Filter.Clauses.{Sql, join, raw, dollar}
use uam_backend.Filter.Columns.{field_to_column, column_name, is_jsonb}
use uam_backend.Filter.Counting.{Counts}
use uam_backend.Filter.Placeholders.{Extends, build_where-Counts}

abbrev sample : Filter ℕ
sample = field (text "email") (plain (scalar 7)) (
    any_of
      (filter (field (text "provider") (plain (scalar 8)) no_entries) (
        filter (field (text "tokenVersion") (operators (compare gt 9 no_more)) no_entries)
          no_filters))
      no_entries)

abbrev sample_params : List (Param ℕ)
sample_params = value 7 ∷ value 8 ∷ value 9 ∷ []

abbrev sample_sql : Sql
sample_sql =
    raw (text "(")
    ∷ raw (text "email")
    ∷ raw (text " = ")
    ∷ dollar 1
    ∷ raw (text ")")
    ∷ raw (text " AND ")
    ∷ raw (text "(")
    ∷ raw (text "(")
    ∷ raw (text "(")
    ∷ raw (text "provider")
    ∷ raw (text " = ")
    ∷ dollar 2
    ∷ raw (text ")")
    ∷ raw (text ")")
    ∷ raw (text " OR ")
    ∷ raw (text "(")
    ∷ raw (text "(")
    ∷ raw (text "(")
    ∷ raw (text "token_version")
    ∷ raw (text " > ")
    ∷ dollar 3
    ∷ raw (text ")")
    ∷ raw (text ")")
    ∷ raw (text ")")
    ∷ raw (text ")")
    ∷ []

build_where-Counts_example : Counts 0 sample_sql 3 × Extends [] sample_params
unfolding build_where build_entries build_subs build_expr build_value build_plain build_operators
    column_name field_to_column is_jsonb join lookup text_eq
build_where-Counts_example = build_where-Counts sample [] sample_params sample_sql refl
