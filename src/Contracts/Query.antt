-- ===== src/Contracts/Query.antt =====
-- crates/fleet-contracts/src/query.rs: the query expressions of the fleet and their bounds.
use Prim.Native.String.{String, len, ◌++◌ as concat}
use rusty_fleet.Prelude.{
  ℕ, suc, Bool, true, false, ◌&&◌, ◌||◌, Option, none, some, List, [], ◌∷◌, ◌++◌, ltb, leb, ◌==◌,
  if◌then◌else◌, is_some, is_none, is_some_and, ℤ, saturating_add, length, all, str_eq, is_blank,
  decimal, not,
}
use rusty_fleet.Contracts.Violation.{
  Validation, ContractViolation, violation_if, require_nonempty, finish,
}

pub data QueryField : Type 0 where
  device_id display_name model tag freshness battery_percent : QueryField
  foreground_app kiosk_state capability condition_family condition_state : QueryField

pub data Comparison : Type 0 where
  equals not_equals contains less_than less_than_or_equal : Comparison
  greater_than greater_than_or_equal exists : Comparison

pub data QueryValue : Type 0 where
  text : String → QueryValue
  integer : ℤ → QueryValue
  boolean : Bool → QueryValue
  text_list : List String → QueryValue

mutual
  pub data QueryExpression : Type 0 where
    predicate : QueryField → Comparison → Option QueryValue → Option String → QueryExpression
    and : QueryExpressions → QueryExpression
    or : QueryExpressions → QueryExpression
    negated : QueryExpression → QueryExpression

  -- `Vec<QueryExpression>`.
  pub data QueryExpressions : Type 0 where
    nil : QueryExpressions
    cons : QueryExpression → QueryExpressions → QueryExpressions

pub data SortDirection : Type 0 where
  ascending descending : SortDirection

pub record SortKey : Type 0 where
  pub field : QueryField
  pub direction : SortDirection
  pub qualifier : Option String

pub record FleetQuery : Type 0 where
  pub schema : String
  pub query_id : String
  pub expression : Option QueryExpression
  pub sort : List SortKey
  pub offset : ℕ
  pub limit : ℕ

abbrev pub is_exists : Comparison → Bool
is_exists Comparison.exists = true
is_exists _ = false

abbrev is_tag : QueryField → Bool
is_tag QueryField.tag = true
is_tag _ = false

abbrev is_qualified : QueryField → Bool
is_qualified QueryField.tag = true
is_qualified QueryField.capability = true
is_qualified _ = false

unfoldable pub query_value_is_bounded : QueryValue → Bool
query_value_is_bounded (QueryValue.text value) = leb (len value) 1024
query_value_is_bounded (QueryValue.integer _) = true
query_value_is_bounded (QueryValue.boolean _) = true
query_value_is_bounded (QueryValue.text_list values) =
    leb (length values) 10000 && all (λ value. leb (len value) 1024) values

abbrev is_integer : Option QueryValue → Bool
is_integer (some (QueryValue.integer _)) = true
is_integer _ = false

abbrev is_boolean : Option QueryValue → Bool
is_boolean (some (QueryValue.boolean _)) = true
is_boolean _ = false

abbrev is_text : Option QueryValue → Bool
is_text (some (QueryValue.text _)) = true
is_text (some (QueryValue.text_list _)) = true
is_text _ = false

abbrev is_order : Comparison → Bool
is_order Comparison.contains = false
is_order Comparison.exists = false
is_order _ = true

abbrev is_equality : Comparison → Bool
is_equality Comparison.equals = true
is_equality Comparison.not_equals = true
is_equality _ = false

abbrev is_text_test : Comparison → Bool
is_text_test Comparison.equals = true
is_text_test Comparison.not_equals = true
is_text_test Comparison.contains = true
is_text_test _ = false

-- The `match` on the field, for a comparison other than `exists`.
abbrev value_fits_field : QueryField → Comparison → Option QueryValue → Bool
value_fits_field QueryField.battery_percent comparison value =
    is_integer value && is_order comparison
value_fits_field QueryField.capability comparison value = is_boolean value && is_equality comparison
value_fits_field _ comparison value = is_text value && is_text_test comparison

unfoldable pub predicate_value_is_compatible : QueryField → Comparison → Option QueryValue → Bool
predicate_value_is_compatible field comparison value =
    if is_exists comparison then is_none value else value_fits_field field comparison value

unfoldable pub predicate_failures :
    String → QueryField → Comparison → Option QueryValue → Option String → List ContractViolation
predicate_failures path field comparison value qualifier =
    violation_if (is_exists comparison && is_some value) "unexpected_query_value" path
      "exists predicates must not carry a value"
    ++ (violation_if (not (is_exists comparison) && is_none value) "missing_query_value" path
          "non-exists predicates require a value"
        ++ (violation_if (is_some_and qualifier is_blank) "empty_qualifier" path
              "query qualifier must not be empty"
            ++ (violation_if (is_qualified field && is_none qualifier) "missing_qualifier" path
                  "tag and capability predicates require a qualifier"
                ++ (violation_if (not (is_qualified field) && is_some qualifier)
                      "unexpected_qualifier" path "this query field does not accept a qualifier"
                    ++ (violation_if (not (predicate_value_is_compatible field comparison value))
                          "incompatible_query_value" path
                          "query value type or comparison is incompatible with the field"
                        ++ violation_if (is_some_and value (λ v. not (query_value_is_bounded v)))
                            "query_value_too_large" path
                            "query text is limited to 1024 characters and lists to 10000 values")))))

abbrev pub count_terms : QueryExpressions → ℕ
count_terms nil = 0
count_terms (cons e es) = suc (count_terms es)

unfoldable mutual
  pub validate_into : QueryExpression → String → List ContractViolation
  validate_into (predicate field comparison value qualifier) path =
      predicate_failures path field comparison value qualifier
  validate_into (and es) path =
      violation_if (ltb (count_terms es) 2) "insufficient_query_terms" path
        "and/or expressions require at least two terms"
      ++ validate_terms es path 0
  validate_into (or es) path =
      violation_if (ltb (count_terms es) 2) "insufficient_query_terms" path
        "and/or expressions require at least two terms"
      ++ validate_terms es path 0
  validate_into (negated e) path = validate_into e (concat path ".expression")

  -- The loop over the terms of an and/or.
  pub validate_terms : QueryExpressions → String → ℕ → List ContractViolation
  validate_terms nil path index = []
  validate_terms (cons e es) path index =
      validate_into e (concat path (concat ".expressions[" (concat (decimal index) "]")))
      ++ validate_terms es path (suc index)

abbrev pub max : ℕ → ℕ → ℕ
max a b = if ltb a b then b else a

unfoldable mutual
  -- The number of nodes and the deepest level, counted with saturation.
  pub shape : QueryExpression → ℕ → ℕ × ℕ
  shape (predicate _ _ _ _) depth = (1, depth)
  shape (and es) depth = shape_terms es depth (1, depth)
  shape (or es) depth = shape_terms es depth (1, depth)
  shape (negated e) depth =
      let (nodes, maximum_depth) = shape e (saturating_add depth 1) in
      (saturating_add nodes 1, maximum_depth)

  -- The fold over the terms of an and/or, with its accumulator.
  pub shape_terms : QueryExpressions → ℕ → ℕ × ℕ → ℕ × ℕ
  shape_terms nil depth acc = acc
  shape_terms (cons e es) depth acc =
      let (nodes, maximum_depth) = shape e (saturating_add depth 1) in
      shape_terms es depth (saturating_add acc.0 nodes, max acc.1 maximum_depth)

unfoldable pub expression_failures : Option QueryExpression → List ContractViolation
expression_failures none = []
expression_failures (some e) =
    validate_into e "expression"
    ++ violation_if (ltb 256 (shape e 1).0 || ltb 16 (shape e 1).1) "query_shape_exceeded"
        "expression" "queries support at most 256 nodes and 16 levels"

-- The loop over the sort keys.
unfoldable pub sort_failures : ℕ → List SortKey → List ContractViolation
sort_failures index [] = []
sort_failures index (key ∷ rest) =
    let path = concat "sort[" (concat (decimal index) "].qualifier") in
    violation_if (is_some_and key.qualifier is_blank) "empty_qualifier" path
      "sort qualifier must not be empty"
    ++ (violation_if (is_tag key.field && is_none key.qualifier) "missing_qualifier" path
          "tag sorting requires a qualifier"
        ++ (violation_if (not (is_tag key.field) && is_some key.qualifier) "unexpected_qualifier"
              path "only tag sorting accepts a qualifier"
            ++ sort_failures (suc index) rest))

unfoldable pub query_failures : FleetQuery → List ContractViolation
query_failures q =
    violation_if (not (str_eq q.schema "rusty.fleet.query.v1")) "wrong_schema" "schema"
      "expected rusty.fleet.query.v1"
    ++ (require_nonempty q.query_id "query_id"
        ++ (violation_if (q.limit == 0 || ltb 10000 q.limit) "invalid_window" "limit"
              "query limit must be between 1 and 10000"
            ++ (expression_failures q.expression
                ++ (violation_if (ltb 8 (length q.sort)) "too_many_sort_keys" "sort"
                      "queries support at most eight sort keys"
                    ++ sort_failures 0 q.sort))))

unfoldable pub validate_query : FleetQuery → Validation
validate_query q = finish (query_failures q)
