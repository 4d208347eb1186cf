-- ===== src/Contracts/Projection.antt =====
-- crates/fleet-contracts/src/projection.rs: the rows, inspectors, details, summaries and query
-- results that the Hub answers with.
use Prim.Native.String.{String}
use rusty_fleet.Prelude.{
  ℕ, ◌+◌, Bool, ◌||◌, Option, List, ◌++◌, ltb, ◌==◌, ℤ, saturating_add, length, str_eq, not,
}
use rusty_fleet.BTreeMap.{BTreeMap}
use rusty_fleet.Contracts.Violation.{Validation, violation_if, finish, failures_of}
use rusty_fleet.Contracts.Condition.{StatusCondition, ConditionFamily}
use rusty_fleet.Contracts.Capability.{CapabilitySnapshot}
use rusty_fleet.Contracts.Identity.{DeviceIdentity, ApplicationObservation, PowerObservation}
use rusty_fleet.Contracts.Query.{FleetQuery, validate_query}

pub data ProjectionFreshness : Type 0 where
  fresh stale offline unknown : ProjectionFreshness

pub record DeviceRowProjection (V : Type 0) : Type 0 where
  pub schema : String
  pub identity : DeviceIdentity V
  pub source_epoch : String
  pub accepted_revision : ℕ
  pub accepted_at_ms : ℤ
  pub age_ms : ℤ
  pub freshness : ProjectionFreshness
  pub battery_percent : Option ℕ
  pub charging : Option Bool
  pub foreground_app : Option String
  pub agent : Option ApplicationObservation
  pub power : Option PowerObservation
  pub application : Option ApplicationObservation
  pub kiosk_state : String
  pub route : String
  pub conditions : BTreeMap ConditionFamily (StatusCondition V)
  pub capabilities : CapabilitySnapshot V
  pub stream_count : ℕ
  pub active_work_count : ℕ
  pub extensions : BTreeMap String V

pub record FleetSummaryProjection : Type 0 where
  pub schema : String
  pub as_of_ms : ℤ
  pub total : ℕ
  pub fresh : ℕ
  pub stale : ℕ
  pub offline : ℕ
  pub attention : ℕ
  pub active_work : ℕ

-- `usize` sums of these counts stay far below 2 ^ 64, so the additions are exact.
unfoldable pub validate_summary : FleetSummaryProjection → Validation
validate_summary s = finish (
    violation_if (not (str_eq s.schema "rusty.fleet.summary.v1")) "wrong_schema" "schema"
      "expected rusty.fleet.summary.v1"
    ++ violation_if (ltb s.total (s.fresh + s.stale + s.offline) || ltb s.total s.attention)
        "invalid_summary_counts" "total" "summary category counts are inconsistent with the total")

pub record FleetQueryResult (V : Type 0) : Type 0 where
  pub schema : String
  pub query : FleetQuery
  pub result_revision : ℕ
  pub as_of_ms : ℤ
  pub total_count : ℕ
  pub window_offset : ℕ
  pub window_count : ℕ
  pub rows : List (DeviceRowProjection V)

module _ {V : Type 0} where
  unfoldable pub validate_query_result : FleetQueryResult V → Validation
  validate_query_result r = finish (
      violation_if (not (str_eq r.schema "rusty.fleet.query_result.v1")) "wrong_schema" "schema"
        "expected rusty.fleet.query_result.v1"
      ++ (violation_if (r.result_revision == 0) "invalid_revision" "result_revision"
            "result revision must be greater than zero"
          ++ (violation_if
                (not (r.window_count == length r.rows)
                  || ltb r.total_count (saturating_add r.window_offset r.window_count))
                "invalid_window" "rows" "query result window metadata does not match returned rows"
              ++ failures_of (validate_query r.query))))
