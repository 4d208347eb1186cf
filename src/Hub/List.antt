-- ===== src/Hub/List.antt =====
-- crates/fleet-hub/src/lib.rs: `compare_rows`, `list`, `summary` and `watch`.
use Prim.Native.String.{String, compare as compare_text, then as then_with, ◌++◌ as concat}
use Prim.Native.Nat.{compare as compare_nat}
use rusty_fleet.Prelude.{
  ℕ, ◌+◌, ◌-◌, min, Ordering, Bool, true, false, ◌||◌, Option, none, some, List, [], ◌∷◌, map, ltb,
  if◌then◌else◌, ℤ, saturating_add, length, take, drop, any, filter, Result, ok, err,
}
use rusty_fleet.BTreeMap
use rusty_fleet.BTreeMap.{BTreeMap, values, keys}
use rusty_fleet.Order.{text_ord, reverse, is_gt, compare_option}
use rusty_fleet.Contracts.Violation.{ContractViolation, Validation}
use rusty_fleet.Contracts.Condition.{StatusCondition, ConditionState, is_stale_at}
use rusty_fleet.Contracts.Query.{
  FleetQuery, QueryExpression, QueryField, SortKey, SortDirection, validate_query,
}
use rusty_fleet.Contracts.Projection.{
  DeviceRowProjection, ProjectionFreshness, FleetQueryResult, FleetSummaryProjection,
}
use rusty_fleet.Hub.State.{FleetHub, HubError, WatchEvent}
use rusty_fleet.Hub.Rows.{row, is_offline}
use rusty_fleet.Hub.Query.{evaluate, freshness_rank}

-- Insertion keeps equal elements in their order, as the stable `sort_by` does.
module _ {ℓ} {A : Type ℓ} (cmp : A → A → Ordering) where
  unfoldable pub insert_sorted : A → List A → List A
  insert_sorted x [] = x ∷ []
  insert_sorted x (y ∷ ys) =
      let rest = insert_sorted x ys in if is_gt (cmp x y) then y ∷ rest else x ∷ y ∷ ys

  unfoldable pub sort_by : List A → List A
  unfolding insert_sorted
  sort_by [] = []
  sort_by (x ∷ xs) = insert_sorted x (sort_by xs)

-- `failures.into_iter().map(|failure| failure.code).collect().join(",")`.
unfoldable pub joined_codes : List ContractViolation → String
joined_codes [] = ""
joined_codes (f ∷ []) = f.code
joined_codes (f ∷ g ∷ fs) = concat f.code (concat "," (joined_codes (g ∷ fs)))

abbrev pub directed : SortDirection → Ordering → Ordering
directed SortDirection.ascending ordering = ordering
directed SortDirection.descending ordering = reverse ordering

abbrev is_alarming : ConditionState → Bool
is_alarming ConditionState.degraded = true
is_alarming ConditionState.failed = true
is_alarming ConditionState.critical = true
is_alarming _ = false

abbrev pub is_fresh : ProjectionFreshness → Bool
is_fresh ProjectionFreshness.fresh = true
is_fresh _ = false

abbrev pub is_stale : ProjectionFreshness → Bool
is_stale ProjectionFreshness.stale = true
is_stale _ = false

module _ {V : Type 0} where
  abbrev compare_tag : Option String → DeviceRowProjection V → DeviceRowProjection V → Ordering
  compare_tag none left right = Ordering.eq
  compare_tag (some qualifier) left right =
      compare_option compare_text (BTreeMap.get qualifier left.identity.tags)
        (BTreeMap.get qualifier right.identity.tags)

  -- The `match` on the field of a sort key.
  unfoldable pub compare_field :
      QueryField → Option String → DeviceRowProjection V → DeviceRowProjection V → Ordering
  compare_field QueryField.device_id qualifier left right =
      compare_text left.identity.device_id right.identity.device_id
  compare_field QueryField.display_name qualifier left right =
      compare_text left.identity.display_name right.identity.display_name
  compare_field QueryField.model qualifier left right =
      compare_text left.identity.model right.identity.model
  compare_field QueryField.freshness qualifier left right =
      compare_nat (freshness_rank left.freshness) (freshness_rank right.freshness)
  compare_field QueryField.battery_percent qualifier left right =
      compare_option compare_nat left.battery_percent right.battery_percent
  compare_field QueryField.foreground_app qualifier left right =
      compare_option compare_text left.foreground_app right.foreground_app
  compare_field QueryField.kiosk_state qualifier left right =
      compare_text left.kiosk_state right.kiosk_state
  compare_field QueryField.tag qualifier left right = compare_tag qualifier left right
  compare_field QueryField.capability qualifier left right = Ordering.eq
  compare_field QueryField.condition_family qualifier left right = Ordering.eq
  compare_field QueryField.condition_state qualifier left right = Ordering.eq

  -- The loop over the sort keys; the tie is broken by name and then by device.
  unfoldable pub compare_by :
      List SortKey → DeviceRowProjection V → DeviceRowProjection V → Ordering
  compare_by [] left right =
      then_with (compare_text left.identity.display_name right.identity.display_name)
        (compare_text left.identity.device_id right.identity.device_id)
  compare_by (key ∷ sort) left right =
      then_with (directed key.direction (compare_field key.field key.qualifier left right))
        (compare_by sort left right)

  unfoldable pub compare_rows :
      FleetQuery → DeviceRowProjection V → DeviceRowProjection V → Ordering
  compare_rows query left right = compare_by query.sort left right

  -- The conditions that `inspect` and `summary` call for attention.
  unfoldable pub needs_attention : ℤ → StatusCondition V → Bool
  needs_attention now_ms c = is_stale_at c now_ms || is_alarming c.state

  unfoldable pub count_if : (DeviceRowProjection V → Bool) → List (DeviceRowProjection V) → ℕ
  count_if p rows = length (filter p rows)

  unfoldable pub sum_work : List (DeviceRowProjection V) → ℕ
  sum_work [] = 0
  sum_work (r ∷ rows) = r.active_work_count + sum_work rows

abbrev pub selects :
    {V : Type 0} (to_lowercase : String → String)
    → Option QueryExpression
    → DeviceRowProjection V
    → Bool
selects to_lowercase none r = true
selects to_lowercase (some expression) r = evaluate to_lowercase expression r

abbrev answer_if_valid :
    {V : Type 0} → Validation → FleetQueryResult V → Result (FleetQueryResult V) HubError
answer_if_valid (ok _) result = ok result
answer_if_valid (err failures) result =
    err (record { code = "invalid_query"; message = joined_codes failures })

module _ {V S : Type 0} where
  unfoldable pub all_rows : FleetHub V S → ℤ → List (DeviceRowProjection V)
  all_rows hub now_ms = map (λ r. row hub r now_ms) (values hub.devices)

  unfoldable pub summary : FleetHub V S → ℤ → FleetSummaryProjection
  summary hub now_ms =
      let rows = all_rows hub now_ms in
      record {
        schema = "rusty.fleet.summary.v1";
        as_of_ms = now_ms;
        total = length rows;
        fresh = count_if (λ r. is_fresh r.freshness) rows;
        stale = count_if (λ r. is_stale r.freshness) rows;
        offline = count_if (λ r. is_offline r.freshness) rows;
        attention = count_if (λ r. any (needs_attention now_ms) (values r.conditions)) rows;
        active_work = sum_work rows;
      }

  unfoldable pub watch : FleetHub V S → ℕ → ℕ → List WatchEvent
  watch hub after_sequence limit =
      take (min limit hub.policy.event_limit)
        (filter (λ event. ltb after_sequence event.event_sequence) hub.events)

  module _ (to_lowercase : String → String) where
    -- All the rows that the query selects, in its order.
    unfoldable pub sorted_rows : FleetHub V S → FleetQuery → ℤ → List (DeviceRowProjection V)
    sorted_rows hub query now_ms =
        sort_by (compare_rows query)
          (filter (selects to_lowercase query.expression) (all_rows hub now_ms))

    unfoldable pub query_window : FleetHub V S → FleetQuery → ℤ → FleetQueryResult V
    query_window hub query now_ms =
        let rows = sorted_rows hub query now_ms in
        let total_count = length rows in
        let offset = min query.offset total_count in
        let end = min (saturating_add offset query.limit) total_count in
        let window = take (end - offset) (drop offset rows) in
        record {
          schema = "rusty.fleet.query_result.v1";
          query = query;
          result_revision = hub.result_revision;
          as_of_ms = now_ms;
          total_count = total_count;
          window_offset = offset;
          window_count = length window;
          rows = window;
        }

    unfoldable pub list : FleetHub V S → FleetQuery → ℤ → Result (FleetQueryResult V) HubError
    list hub query now_ms = answer_if_valid (validate_query query) (query_window hub query now_ms)
