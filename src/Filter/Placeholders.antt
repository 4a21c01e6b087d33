-- ===== src/Filter/Placeholders.antt =====
-- A compiled filter holds exactly the placeholders of its own parameters.
use mathlib.Core.List.{append_assoc, append-nil}
use mathlib.Core.Path.{subst}
use uam_backend.Prelude.{
  List, Option, Text, ◌≡◌, [], ◌++◌, length, Bool, ◌∷◌, sym, ◌+◌, some, if◌then◌else◌, arith, none,
  true, refl, length-append, false, text,
}
use uam_backend.Filter.{
  build_plain, build_in, build_not_in, build_regex, build_operators, build_value, build_expr,
  build_entries, build_where, Param, build_subs, Filter, Sql, Plain, Operators, Value, field,
  and_then, values, pattern, negated, parens, column_name, array, not_size, plain, any_of, is_jsonb,
  and_sql, before, or_clause, not_plain, operators, json_of, not_operators, scalar, compare, all_of,
  value, and_clauses, ne_null, Filters, exists, is_in, filter, not_in, no_entries, regex,
  no_filters, size, unsupported, no_more,
}
use uam_backend.Filter.Counting.{
  Counts, AllCount, AllCount-append, Counts-negated, Counts-parens, Counts-join, AllCount-or_clause,
  AllCount-and_clauses,
}

module _ {V : Type 0} where
  -- Parameters are only added, at the end.
  abbrev pub Extends : List (Param V) → List (Param V) → Type 0
  Extends ps qs = (new : List (Param V)) × (qs ≡ ps ++ new)

  Extends-refl : (ps : List (Param V)) → Extends ps ps
  Extends-refl ps = ([], sym (append-nil ps))

  Extends-trans : (ps qs rs : List (Param V)) → Extends ps qs → Extends qs rs → Extends ps rs
  Extends-trans ps qs rs (n, e) (m, f) = (n ++ m, rw (f, e) (append_assoc ps n m))

  -- What compiled after the parameters `ps` numbers its own parameters.
  abbrev IsNumbered : List (Param V) → Sql × List (Param V) → Type 0
  IsNumbered ps (s, qs) = Counts (length ps) s (length qs) × Extends ps qs

  abbrev AreNumbered : List (Param V) → Option (List Sql × List (Param V)) → Type 0
  AreNumbered ps none = Unit
  AreNumbered ps (some (ss, qs)) = AllCount (length ps) ss (length qs) × Extends ps qs

  abbrev IsNumberedIf : List (Param V) → Option (Sql × List (Param V)) → Type 0
  IsNumberedIf ps none = Unit
  IsNumberedIf ps (some c) = IsNumbered ps c

  length-push : (ps : List (Param V)) (p : Param V) → length ps + 1 ≡ length (ps ++ p ∷ [])
  length-push ps p = omega (arith, length-append ps (p ∷ []))

  cons-AreNumbered :
      (ps : List (Param V)) (c : Sql × List (Param V)) (o : Option (List Sql × List (Param V)))
      → IsNumbered ps c
      → AreNumbered c.1 o
      → AreNumbered ps (and_then o (λ (ss, qs). some (c.0 ∷ ss, qs)))
  cons-AreNumbered ps c none h k = tt
  cons-AreNumbered ps (s, qs) (some (ss, rs)) (h, x) (k, y) =
      ((length qs, h, k), Extends-trans ps qs rs x y)

  -- What is appended after the clauses `ss`, which some step has numbered.
  append-AreNumbered :
      (ps qs : List (Param V)) (ss : List Sql) (o : Option (List Sql × List (Param V)))
      → AllCount (length ps) ss (length qs)
      → Extends ps qs
      → AreNumbered qs o
      → AreNumbered ps (and_then o (λ (cs, rs). some (ss ++ cs, rs)))
  append-AreNumbered ps qs ss none h x k = tt
  append-AreNumbered ps qs ss (some (cs, rs)) h x (k, y) =
      (AllCount-append (length ps) (length qs) (length rs) ss cs h k, Extends-trans ps qs rs x y)

  then-AreNumbered :
      (ps : List (Param V)) (o : Option (List Sql × List (Param V)))
      (k : List Sql × List (Param V) → Option (List Sql × List (Param V)))
      → AreNumbered ps o
      → ((x : List Sql × List (Param V)) → AreNumbered ps (some x) → AreNumbered ps (k x))
      → AreNumbered ps (and_then o k)
  then-AreNumbered ps none k h f = tt
  then-AreNumbered ps (some x) k h f = f x h

  if-IsNumbered :
      (ps : List (Param V)) (b : Bool) (c d : Sql × List (Param V))
      → IsNumbered ps c
      → IsNumbered ps d
      → IsNumbered ps (if b then c else d)
  if-IsNumbered ps true c d h k = h
  if-IsNumbered ps false c d h k = k

  build_plain-IsNumbered :
      (name col : Text) (p : Plain V) (ps : List (Param V))
      → IsNumbered ps (build_plain name col p ps)
  unfolding build_plain Counts
  build_plain-IsNumbered name col (array vs) ps =
      if-IsNumbered ps (is_jsonb name) _ _
        ((refl, length-push ps (json_of vs)), (json_of vs ∷ [], refl))
        ((refl, length-push ps (values vs)), (values vs ∷ [], refl))
  build_plain-IsNumbered name col (scalar v) ps =
      if-IsNumbered ps (is_jsonb name) _ _ ((refl, length-push ps (value v)), (value v ∷ [], refl))
        ((refl, length-push ps (value v)), (value v ∷ [], refl))

  build_in-IsNumbered :
      (col : Text) (vs : List V) (ps : List (Param V)) → IsNumbered ps (build_in col vs ps)
  unfolding build_in Counts
  build_in-IsNumbered col [] ps = (refl, Extends-refl ps)
  build_in-IsNumbered col (v ∷ vs) ps =
      ((refl, length-push ps (values (v ∷ vs))), (values (v ∷ vs) ∷ [], refl))

  build_not_in-IsNumbered :
      (col : Text) (vs : List V) (ps : List (Param V)) → IsNumbered ps (build_not_in col vs ps)
  unfolding build_not_in Counts
  build_not_in-IsNumbered col [] ps = (refl, Extends-refl ps)
  build_not_in-IsNumbered col (v ∷ vs) ps =
      ((refl, length-push ps (values (v ∷ vs))), (values (v ∷ vs) ∷ [], refl))

  build_regex-IsNumbered :
      (col source : Text) (insensitive : Bool) (ps : List (Param V))
      → IsNumbered ps (build_regex col source insensitive ps)
  unfolding build_regex Counts
  build_regex-IsNumbered col source insensitive ps =
      ((refl, length-push ps (pattern source)), (pattern source ∷ [], refl))

  negated-IsNumbered :
      (ps : List (Param V)) (c : Sql × List (Param V))
      → IsNumbered ps c
      → IsNumbered ps (negated c.0, c.1)
  negated-IsNumbered ps (s, qs) (h, x) = (Counts-negated (length ps) (length qs) s h, x)

  and_sql-IsNumbered :
      (ps qs : List (Param V)) (ss : List Sql)
      → AreNumbered ps (some (ss, qs))
      → IsNumbered ps (and_sql ss, qs)
  and_sql-IsNumbered ps qs ss (h, x) = (Counts-join (length ps) (length qs) (text " AND ") ss h, x)

  parens-IsNumbered :
      (ps qs : List (Param V)) (s : Sql) → IsNumbered ps (s, qs) → IsNumbered ps (parens s, qs)
  parens-IsNumbered ps qs s (h, x) = (Counts-parens (length ps) (length qs) s h, x)

  build_operators-AreNumbered :
      (name col : Text) (ops : Operators V) (ps : List (Param V))
      → AreNumbered ps (build_operators name col ops ps)
  unfolding build_operators Counts
  build_operators-AreNumbered name col no_more ps = (refl, Extends-refl ps)
  build_operators-AreNumbered name col (not_size n rest) ps =
      cons-AreNumbered ps _ _ (refl, Extends-refl ps) (build_operators-AreNumbered name col rest ps)
  build_operators-AreNumbered name col (not_plain p rest) ps =
      let c = build_plain name col p ps in
      cons-AreNumbered ps _ _ (negated-IsNumbered ps c (build_plain-IsNumbered name col p ps))
        (build_operators-AreNumbered name col rest c.1)
  build_operators-AreNumbered name col (not_operators inner rest) ps =
      then-AreNumbered ps (build_operators name col inner ps) _
        (build_operators-AreNumbered name col inner ps)
        (λ (ss, qs) h.
          cons-AreNumbered ps _ _
            (negated-IsNumbered ps (parens (and_sql ss), qs)
              (parens-IsNumbered ps qs (and_sql ss) (and_sql-IsNumbered ps qs ss h)))
            (build_operators-AreNumbered name col rest qs))
  build_operators-AreNumbered name col (compare c v rest) ps =
      cons-AreNumbered ps _ _ ((refl, length-push ps (value v)), (value v ∷ [], refl))
        (build_operators-AreNumbered name col rest (ps ++ value v ∷ []))
  build_operators-AreNumbered name col (ne_null rest) ps =
      cons-AreNumbered ps _ _ (refl, Extends-refl ps) (build_operators-AreNumbered name col rest ps)
  build_operators-AreNumbered name col (exists wanted rest) ps =
      cons-AreNumbered ps _ _ (refl, Extends-refl ps) (build_operators-AreNumbered name col rest ps)
  build_operators-AreNumbered name col (is_in vs rest) ps =
      cons-AreNumbered ps _ _ (build_in-IsNumbered col vs ps)
        (build_operators-AreNumbered name col rest (build_in col vs ps).1)
  build_operators-AreNumbered name col (not_in vs rest) ps =
      cons-AreNumbered ps _ _ (build_not_in-IsNumbered col vs ps)
        (build_operators-AreNumbered name col rest (build_not_in col vs ps).1)
  build_operators-AreNumbered name col (regex source insensitive rest) ps =
      cons-AreNumbered ps _ _ (build_regex-IsNumbered col source insensitive ps)
        (build_operators-AreNumbered name col rest (build_regex col source insensitive ps).1)
  build_operators-AreNumbered name col (size n rest) ps =
      cons-AreNumbered ps _ _ (refl, Extends-refl ps) (build_operators-AreNumbered name col rest ps)
  build_operators-AreNumbered name col (unsupported op rest) ps = tt

  sql-IsNumberedIf :
      (ps : List (Param V)) (o : Option (List Sql × List (Param V)))
      → AreNumbered ps o
      → IsNumberedIf ps (and_then o (λ (cs, qs). some (and_sql cs, qs)))
  sql-IsNumberedIf ps none h = tt
  sql-IsNumberedIf ps (some (cs, qs)) h = and_sql-IsNumbered ps qs cs h

  parens-IsNumberedIf :
      (ps : List (Param V)) (o : Option (List Sql × List (Param V)))
      → AreNumbered ps o
      → IsNumberedIf ps (and_then o (λ (cs, qs). some (parens (and_sql cs), qs)))
  parens-IsNumberedIf ps none h = tt
  parens-IsNumberedIf ps (some (cs, qs)) h =
      parens-IsNumbered ps qs (and_sql cs) (and_sql-IsNumbered ps qs cs h)

  build_value-IsNumberedIf :
      (name col : Text) (v : Value V) (ps : List (Param V))
      → IsNumberedIf ps (build_value name col v ps)
  unfolding build_value
  build_value-IsNumberedIf name col (plain p) ps = build_plain-IsNumbered name col p ps
  build_value-IsNumberedIf name col (operators ops) ps =
      parens-IsNumberedIf ps (build_operators name col ops ps)
        (build_operators-AreNumbered name col ops ps)

  column-IsNumberedIf :
      (o : Option Text) (name : Text) (v : Value V) (ps : List (Param V))
      → IsNumberedIf ps (and_then o (λ col. build_value name col v ps))
  column-IsNumberedIf none name v ps = tt
  column-IsNumberedIf (some col) name v ps = build_value-IsNumberedIf name col v ps

  build_expr-IsNumberedIf :
      (name : Text) (v : Value V) (ps : List (Param V)) → IsNumberedIf ps (build_expr name v ps)
  unfolding build_expr
  build_expr-IsNumberedIf name v ps = column-IsNumberedIf (column_name name) name v ps

  first-AreNumbered :
      (ps : List (Param V)) (o : Option (Sql × List (Param V)))
      (rest : List (Param V) → Option (List Sql × List (Param V)))
      → IsNumberedIf ps o
      → ((qs : List (Param V)) → AreNumbered qs (rest qs))
      → AreNumbered ps (and_then o (λ c. before c rest))
  first-AreNumbered ps none rest h f = tt
  first-AreNumbered ps (some c) rest h f = cons-AreNumbered ps c (rest c.1) h (f c.1)

  mutual
    unfolding build_entries build_subs

    build_entries-AreNumbered :
        (f : Filter V) (ps : List (Param V)) → AreNumbered ps (build_entries f ps)
    build_entries-AreNumbered no_entries ps = (refl, Extends-refl ps)
    build_entries-AreNumbered (field name v rest) ps =
        first-AreNumbered ps (build_expr name v ps) _ (build_expr-IsNumberedIf name v ps)
          (λ qs. build_entries-AreNumbered rest qs)
    build_entries-AreNumbered (any_of subs rest) ps =
        then-AreNumbered ps (build_subs subs ps) _ (build_subs-AreNumbered subs ps) (λ (ss, qs) h.
          append-AreNumbered ps qs (or_clause ss) (build_entries rest qs)
            (AllCount-or_clause (length ps) (length qs) ss h.0) h.1
            (build_entries-AreNumbered rest qs))
    build_entries-AreNumbered (all_of subs rest) ps =
        then-AreNumbered ps (build_subs subs ps) _ (build_subs-AreNumbered subs ps) (λ (ss, qs) h.
          append-AreNumbered ps qs (and_clauses ss) (build_entries rest qs)
            (AllCount-and_clauses (length ps) (length qs) ss h.0) h.1
            (build_entries-AreNumbered rest qs))

    build_subs-AreNumbered :
        (fs : Filters V) (ps : List (Param V)) → AreNumbered ps (build_subs fs ps)
    build_subs-AreNumbered no_filters ps = (refl, Extends-refl ps)
    build_subs-AreNumbered (filter f rest) ps =
        then-AreNumbered ps (build_entries f ps) _ (build_entries-AreNumbered f ps) (λ (cs, qs) h.
          cons-AreNumbered ps (and_sql cs, qs) _ (and_sql-IsNumbered ps qs cs h)
            (build_subs-AreNumbered rest qs))

  -- If a filter compiles, after parameters that are already there, then its own are added at the end,
  -- and the placeholders of its SQL are the numbers of its own parameters, each once and in order,
  -- however filters and operators are nested.
  pub build_where-Counts :
      (f : Filter V) (ps qs : List (Param V)) (s : Sql)
      → build_where f ps ≡ some (s, qs)
      → Counts (length ps) s (length qs) × Extends ps qs
  unfolding build_where
  build_where-Counts f ps qs s e =
      subst (λ o. IsNumberedIf ps o) e
        (sql-IsNumberedIf ps (build_entries f ps) (build_entries-AreNumbered f ps))
