-- ===== src/Hub/Query.antt =====
-- crates/fleet-hub/src/lib.rs: `evaluate`, `compare_rows` and `list`: which rows a query selects, in
-- which order, and which window of them it returns.
use Prim.Native.String.{String, compare as compare_text}
use text.Mathlib.Text.{find?}
use rusty_fleet.Prelude.{
  ℕ, Ordering, Bool, true, false, ◌&&◌, ◌||◌, Option, some, map, if◌then◌else◌, bool_eq, is_some,
  is_some_and, ℤ, pos, compare_ℤ, any, str_eq, is_empty, not,
}
use rusty_fleet.BTreeMap
use mathlib.Core.Option
use rusty_fleet.BTreeMap.{BTreeMap, values, keys, collect_set}
use rusty_fleet.Order.{text_ord, is_eq, is_lt, is_gt}
use rusty_fleet.Contracts.Condition.{ConditionFamily, ConditionState, family_ord}
use rusty_fleet.Contracts.Capability.{CapabilityState, is_ready, get_capability}
use rusty_fleet.Contracts.Query.{
  QueryExpression, QueryExpressions, QueryField, Comparison, QueryValue, predicate, and, or,
  negated, nil, cons, is_exists,
}
use rusty_fleet.Contracts.Projection.{DeviceRowProjection, ProjectionFreshness}
use rusty_fleet.Hub.Rows.{row}

-- `condition_values`: the name of each family in the row.
family_text : ConditionFamily → String
family_text ConditionFamily.identity = "identity"
family_text ConditionFamily.freshness = "freshness"
family_text ConditionFamily.power = "power"
family_text ConditionFamily.application = "application"
family_text ConditionFamily.control = "control"
family_text ConditionFamily.privileged = "privileged"
family_text ConditionFamily.media = "media"
family_text ConditionFamily.work = "work"
family_text ConditionFamily.alert = "alert"

condition_state_text : ConditionState → String
condition_state_text ConditionState.current = "current"
condition_state_text ConditionState.in_progress = "in_progress"
condition_state_text ConditionState.busy = "busy"
condition_state_text ConditionState.stale = "stale"
condition_state_text ConditionState.unknown = "unknown"
condition_state_text ConditionState.unsupported = "unsupported"
condition_state_text ConditionState.disabled = "disabled"
condition_state_text ConditionState.unauthorized = "unauthorized"
condition_state_text ConditionState.disconnected = "disconnected"
condition_state_text ConditionState.unavailable = "unavailable"
condition_state_text ConditionState.degraded = "degraded"
condition_state_text ConditionState.failed = "failed"
condition_state_text ConditionState.critical = "critical"
condition_state_text ConditionState.restricted = "restricted"

unfoldable pub freshness_text : ProjectionFreshness → String
freshness_text ProjectionFreshness.fresh = "fresh"
freshness_text ProjectionFreshness.stale = "stale"
freshness_text ProjectionFreshness.offline = "offline"
freshness_text ProjectionFreshness.unknown = "unknown"

unfoldable pub freshness_rank : ProjectionFreshness → ℕ
freshness_rank ProjectionFreshness.fresh = 0
freshness_rank ProjectionFreshness.stale = 1
freshness_rank ProjectionFreshness.offline = 2
freshness_rank ProjectionFreshness.unknown = 3

unfoldable pub compare_ordering : Ordering → Comparison → Bool → Bool
compare_ordering ordering Comparison.equals contains = is_eq ordering
compare_ordering ordering Comparison.not_equals contains = not (is_eq ordering)
compare_ordering ordering Comparison.contains contains = contains
compare_ordering ordering Comparison.less_than contains = is_lt ordering
compare_ordering ordering Comparison.less_than_or_equal contains = not (is_gt ordering)
compare_ordering ordering Comparison.greater_than contains = is_gt ordering
compare_ordering ordering Comparison.greater_than_or_equal contains = not (is_lt ordering)
compare_ordering ordering Comparison.exists contains = true

abbrev is_equals : Comparison → Bool
is_equals Comparison.equals = true
is_equals _ = false

abbrev is_not_equals : Comparison → Bool
is_not_equals Comparison.not_equals = true
is_not_equals _ = false

abbrev bool_matches : Bool → Comparison → Option QueryValue → Bool
bool_matches actual comparison (some (QueryValue.boolean expected)) =
    is_equals comparison && bool_eq actual expected
    || is_not_equals comparison && not (bool_eq actual expected)
bool_matches actual comparison _ = false

unfoldable pub compare_bool : Bool → Comparison → Option QueryValue → Bool
compare_bool actual comparison value = bool_matches actual comparison value

abbrev integer_matches : Option ℤ → Comparison → Option QueryValue → Bool
integer_matches (some actual) comparison (some (QueryValue.integer expected)) =
    compare_ordering (compare_ℤ actual expected) comparison false
integer_matches _ comparison _ = false

unfoldable pub compare_optional_integer : Option ℤ → Comparison → Option QueryValue → Bool
compare_optional_integer actual comparison value =
    if is_exists comparison then is_some actual else integer_matches actual comparison value

-- `to_lowercase` is Unicode's table, a parameter of everything that compares texts for a query.
module _ (to_lowercase : String → String) where
  abbrev text_matches : String → Comparison → Option QueryValue → Bool
  text_matches actual comparison (some (QueryValue.text expected)) =
      compare_ordering (compare_text actual (to_lowercase expected)) comparison
        (is_some (find? actual (to_lowercase expected)))
  text_matches actual comparison (some (QueryValue.text_list expected)) =
      let equal = any (λ item. str_eq actual (to_lowercase item)) expected in
      is_equals comparison && equal || is_not_equals comparison && not equal
  text_matches actual comparison _ = false

  unfoldable pub compare_text_value : String → Comparison → Option QueryValue → Bool
  compare_text_value actual comparison value =
      if is_exists comparison
      then not (is_empty actual)
      else text_matches (to_lowercase actual) comparison value

  module _ {V : Type 0} where
    capability_matches : Comparison → Option QueryValue → CapabilityState V → Bool
    capability_matches comparison value capability =
        if is_exists comparison then true else compare_bool (is_ready capability) comparison value

    -- `evaluate_predicate`, with the qualifier's lookup written as the chain of `Option`s that it is.
    unfoldable pub evaluate_predicate :
        QueryField → Comparison → Option QueryValue → Option String → DeviceRowProjection V → Bool
    unfolding family_text condition_state_text capability_matches
    evaluate_predicate QueryField.device_id comparison value qualifier row =
        compare_text_value row.identity.device_id comparison value
    evaluate_predicate QueryField.display_name comparison value qualifier row =
        compare_text_value row.identity.display_name comparison value
    evaluate_predicate QueryField.model comparison value qualifier row =
        compare_text_value row.identity.model comparison value
    evaluate_predicate QueryField.tag comparison value qualifier row = is_some_and qualifier (λ key.
        is_some_and (BTreeMap.get key row.identity.tags)
          (λ actual. compare_text_value actual comparison value))
    evaluate_predicate QueryField.freshness comparison value qualifier row =
        compare_text_value (freshness_text row.freshness) comparison value
    evaluate_predicate QueryField.battery_percent comparison value qualifier row =
        compare_optional_integer (Option.map pos row.battery_percent) comparison value
    evaluate_predicate QueryField.foreground_app comparison value qualifier row =
        is_some_and row.foreground_app (λ actual. compare_text_value actual comparison value)
    evaluate_predicate QueryField.kiosk_state comparison value qualifier row =
        compare_text_value row.kiosk_state comparison value
    evaluate_predicate QueryField.capability comparison value qualifier row =
        is_some_and qualifier (λ capability_id.
          is_some_and (get_capability row.capabilities capability_id)
            (capability_matches comparison value))
    evaluate_predicate QueryField.condition_family comparison value qualifier row =
        any (λ family. compare_text_value (family_text family) comparison value)
          (keys row.conditions)
    evaluate_predicate QueryField.condition_state comparison value qualifier row =
        any (λ state. compare_text_value state comparison value)
          (keys (collect_set (map (λ c. condition_state_text c.state) (values row.conditions))))

    unfoldable mutual
      pub evaluate : QueryExpression → DeviceRowProjection V → Bool
      evaluate (predicate field comparison value qualifier) row =
          evaluate_predicate field comparison value qualifier row
      evaluate (and es) row = evaluate_all es row
      evaluate (or es) row = evaluate_any es row
      evaluate (negated e) row = not (evaluate e row)

      pub evaluate_all : QueryExpressions → DeviceRowProjection V → Bool
      evaluate_all nil row = true
      evaluate_all (cons e es) row = evaluate e row && evaluate_all es row

      pub evaluate_any : QueryExpressions → DeviceRowProjection V → Bool
      evaluate_any nil row = false
      evaluate_any (cons e es) row = evaluate e row || evaluate_any es row
