-- ===== src/Contracts/QueryShape.antt =====
-- The bounds on the shape of a query: crates/fleet-contracts/src/query.rs, `shape`.
use rusty_fleet.Prelude.{
  ℕ, suc, ◌+◌, ◌≤◌, ◌<◌, ◌≡◌, ◌||◌, some, [], arith, ltb, ◌==◌, u64_max, saturating_add, ok, str_eq,
  not,
}
use rusty_fleet.Contracts.Query.{
  QueryExpression, QueryExpressions, predicate, and, or, negated, nil, cons, shape, shape_terms,
  max, FleetQuery, validate_query, query_failures, expression_failures, validate_into,
}
use rusty_fleet.Contracts.Violation.{append_nil_inv, finish_iff, violation_if, require_nonempty}

-- The number of nodes of an expression and of a list of terms, and the number of its levels.
mutual
  pub nodes : QueryExpression → ℕ
  nodes (predicate _ _ _ _) = 1
  nodes (and es) = suc (nodes_of_terms es)
  nodes (or es) = suc (nodes_of_terms es)
  nodes (negated e) = suc (nodes e)

  pub nodes_of_terms : QueryExpressions → ℕ
  nodes_of_terms nil = 0
  nodes_of_terms (cons e es) = nodes e + nodes_of_terms es

mutual
  pub levels : QueryExpression → ℕ
  levels (predicate _ _ _ _) = 1
  levels (and es) = suc (levels_of_terms es)
  levels (or es) = suc (levels_of_terms es)
  levels (negated e) = suc (levels e)

  pub levels_of_terms : QueryExpressions → ℕ
  levels_of_terms nil = 0
  levels_of_terms (cons e es) = max (levels e) (levels_of_terms es)

nodes_step :
    (a n m k r : ℕ)
    → (r < u64_max → saturating_add a n + k ≤ r)
    → (n < u64_max → m ≤ n)
    → r < u64_max
    → a + (m + k) ≤ r
unfolding saturating_add
nodes_step a n m k r rest one h = ground arith

levels_step :
    (d x l a k r : ℕ)
    → (x < u64_max → saturating_add d 1 + l ≤ x + 1)
    → (r < u64_max → (d + k ≤ r) × (max a x ≤ r))
    → d ≤ a
    → 1 ≤ l
    → r < u64_max
    → (d + max l k ≤ r) × (a ≤ r)
unfolding saturating_add
levels_step d x l a k r one rest h positive room = ground arith

-- Below saturation, `shape` counts no fewer nodes than there are.
mutual
  unfolding shape shape_terms nodes nodes_of_terms saturating_add

  nodes_counted : (e : QueryExpression) (d : ℕ) → (shape e d).0 < u64_max → nodes e ≤ (shape e d).0
  nodes_counted (predicate _ _ _ _) d h = omega arith
  nodes_counted (and es) d h = omega (arith, terms_counted es d (1, d) h)
  nodes_counted (or es) d h = omega (arith, terms_counted es d (1, d) h)
  nodes_counted (negated e) d h = ground (arith, nodes_counted e (saturating_add d 1))

  terms_counted :
      (es : QueryExpressions) (d : ℕ) (acc : ℕ × ℕ)
      → (shape_terms es d acc).0 < u64_max
      → acc.0 + nodes_of_terms es ≤ (shape_terms es d acc).0
  terms_counted nil d acc h = omega arith
  terms_counted (cons e es) d acc h =
      let x = shape e (saturating_add d 1) in
      nodes_step acc.0 x.0 (nodes e) (nodes_of_terms es) _
        (terms_counted es d (saturating_add acc.0 x.0, max acc.1 x.1))
        (nodes_counted e (saturating_add d 1)) h

levels_positive : (e : QueryExpression) → 1 ≤ levels e
unfolding levels
levels_positive (predicate _ _ _ _) = omega arith
levels_positive (and es) = omega arith
levels_positive (or es) = omega arith
levels_positive (negated e) = omega arith

-- Below saturation, `shape` finds no fewer levels than there are.
mutual
  unfolding shape shape_terms levels levels_of_terms saturating_add

  levels_counted :
      (e : QueryExpression) (d : ℕ) → (shape e d).1 < u64_max → d + levels e ≤ (shape e d).1 + 1
  levels_counted (predicate _ _ _ _) d h = omega arith
  levels_counted (and es) d h =
      let (below, _) = term_levels_counted es d (1, d) (omega arith) h in omega (arith, below)
  levels_counted (or es) d h =
      let (below, _) = term_levels_counted es d (1, d) (omega arith) h in omega (arith, below)
  levels_counted (negated e) d h =
      ground (arith, levels_counted e (saturating_add d 1), levels_positive e)

  term_levels_counted :
      (es : QueryExpressions) (d : ℕ) (acc : ℕ × ℕ)
      → d ≤ acc.1
      → (shape_terms es d acc).1 < u64_max
      → (d + levels_of_terms es ≤ (shape_terms es d acc).1) × (acc.1 ≤ (shape_terms es d acc).1)
  term_levels_counted nil d acc above h = (omega arith, omega arith)
  term_levels_counted (cons e es) d acc above h =
      let x = shape e (saturating_add d 1) in
      levels_step d x.1 (levels e) acc.1 (levels_of_terms es) _
        (levels_counted e (saturating_add d 1))
        (term_levels_counted es d (saturating_add acc.0 x.0, max acc.1 x.1) (ground arith)) above
        (levels_positive e) h

shape_within :
    (e : QueryExpression)
    → expression_failures (some e) ≡ []
    → ((shape e 1).0 ≤ 256) × ((shape e 1).1 ≤ 16)
unfolding expression_failures
shape_within e h =
    let (_, within) = append_nil_inv (validate_into e "expression") _ h in ground arith

-- A query that satisfies its contract has at most 256 nodes and 16 levels, although the counters of
-- `shape` saturate.
pub validated_query_is_small :
    (q : FleetQuery) (e : QueryExpression)
    → validate_query q ≡ ok tt
    → q.expression ≡ some e
    → (nodes e ≤ 256) × (levels e ≤ 16)
unfolding validate_query query_failures
validated_query_is_small q e h s =
    let wrong =
      violation_if (not (str_eq q.schema "rusty.fleet.query.v1")) "wrong_schema" "schema"
        "expected rusty.fleet.query.v1" in
    let unnamed = require_nonempty q.query_id "query_id" in
    let window =
      violation_if (q.limit == 0 || ltb 10000 q.limit) "invalid_window" "limit"
        "query limit must be between 1 and 10000" in
    let (_, a) = append_nil_inv wrong _ (finish_iff (query_failures q) h) in
    let (_, b) = append_nil_inv unnamed _ a in
    let (_, c) = append_nil_inv window _ b in
    let (inside, _) = append_nil_inv (expression_failures q.expression) _ c in
    let (few, flat) = shape_within e (rw s at inside) in
    (omega (arith, nodes_counted e 1), omega (arith, levels_counted e 1))
