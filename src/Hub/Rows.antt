-- ===== src/Hub/Rows.antt =====
-- crates/fleet-hub/src/lib.rs: `row`, the projection of a device's record at a point in time.
use Prim.Native.String.{String}
use rusty_fleet.Prelude.{
  ℕ, Bool, true, false, ◌&&◌, ◌||◌, Option, none, some, List, [], ◌∷◌, ltb, ◌==◌, if◌then◌else◌,
  is_none_or, ℤ, pos, ltb_ℤ, max_ℤ, saturating_sub, length, any, filter, find, str_eq, not,
}
use rusty_fleet.BTreeMap
use rusty_fleet.BTreeMap.{BTreeMap, values}
use rusty_fleet.Contracts.Command.{CommandLifecycle}
use rusty_fleet.Contracts.Condition.{
  StatusCondition, ConditionFamily, ConditionState, is_stale_at, family_ord,
}
use rusty_fleet.Contracts.Identity.{DeviceObservation, KioskState}
use rusty_fleet.Contracts.Kiosk.{KioskShowControlsOperation}
use rusty_fleet.Contracts.Projection.{DeviceRowProjection, ProjectionFreshness}
use rusty_fleet.Hub.State.{FleetHub, DeviceRecord, HubPolicy}

-- `is_kiosk_terminal` of crates/fleet-hub/src/kiosk.rs.
unfoldable pub is_kiosk_terminal : CommandLifecycle → Bool
is_kiosk_terminal CommandLifecycle.rejected = true
is_kiosk_terminal CommandLifecycle.applied = true
is_kiosk_terminal CommandLifecycle.failed = true
is_kiosk_terminal CommandLifecycle.expired = true
is_kiosk_terminal CommandLifecycle.cancelled = true
is_kiosk_terminal _ = false

abbrev is_active_on : String → KioskShowControlsOperation → Bool
is_active_on device_id operation =
    not (is_kiosk_terminal operation.lifecycle)
    && any (λ t. str_eq t.device_id device_id && not (is_kiosk_terminal t.lifecycle))
        operation.targets

-- `kiosk_text`.
unfoldable pub kiosk_text : KioskState → String
kiosk_text KioskState.active = "active"
kiosk_text KioskState.inactive = "inactive"
kiosk_text KioskState.mismatch = "mismatch"
kiosk_text KioskState.unknown = "unknown"

abbrev pub is_offline : ProjectionFreshness → Bool
is_offline ProjectionFreshness.offline = true
is_offline _ = false

abbrev is_freshness : ConditionFamily → Bool
is_freshness ConditionFamily.freshness = true
is_freshness _ = false

-- The states that staleness does not hide.
abbrev pub is_severe : ConditionState → Bool
is_severe ConditionState.failed = true
is_severe ConditionState.critical = true
is_severe ConditionState.restricted = true
is_severe _ = false

-- `age_ms` of a row, and its freshness under the policy.
unfoldable pub row_age : ℤ → ℤ → ℤ
row_age accepted_at_ms now_ms = max_ℤ (saturating_sub now_ms accepted_at_ms) (pos 0)

unfoldable pub freshness_of : HubPolicy → ℤ → ProjectionFreshness
freshness_of policy age =
    if ltb_ℤ policy.offline_after_ms age
    then ProjectionFreshness.offline
    else if ltb_ℤ policy.stale_after_ms age
    then ProjectionFreshness.stale
    else ProjectionFreshness.fresh

module _ {V : Type 0} where
  -- A condition as it is shown: stale once its deadline has passed, unless its state is severe.
  unfoldable pub projected : ℤ → StatusCondition V → StatusCondition V
  projected now_ms c =
      if is_stale_at c now_ms && not (is_severe c.state)
      then record c { state = ConditionState.stale }
      else c

  -- The pairs (accepted_revision, received_time_ms), compared lexicographically.
  abbrev pub is_newer : StatusCondition V → StatusCondition V → Bool
  is_newer c prior =
      ltb prior.accepted_revision c.accepted_revision
      || (c.accepted_revision == prior.accepted_revision
          && ltb_ℤ prior.received_time_ms c.received_time_ms)

  unfoldable pub should_replace : StatusCondition V → Option (StatusCondition V) → Bool
  should_replace c prior = is_none_or prior (is_newer c)

  -- One round of the loop of `newest_conditions`, and the loop.
  unfoldable pub add_newest :
      StatusCondition V
      → BTreeMap ConditionFamily (StatusCondition V)
      → BTreeMap ConditionFamily (StatusCondition V)
  add_newest c newest =
      if should_replace c (BTreeMap.get c.family newest)
      then BTreeMap.insert c.family c newest
      else newest

  unfoldable pub newest_from :
      ℤ
      → List (StatusCondition V)
      → BTreeMap ConditionFamily (StatusCondition V)
      → BTreeMap ConditionFamily (StatusCondition V)
  newest_from now_ms [] newest = newest
  newest_from now_ms (c ∷ cs) newest =
      newest_from now_ms cs (add_newest (projected now_ms c) newest)

  unfoldable pub newest_conditions :
      List (StatusCondition V) → ℤ → BTreeMap ConditionFamily (StatusCondition V)
  unfolding newest_from
  newest_conditions conditions now_ms = newest_from now_ms conditions []

  abbrev reason_or_unknown : Option (StatusCondition V) → String
  reason_or_unknown none = "unknown"
  reason_or_unknown (some c) = c.reason

module _ {V S : Type 0} where
  unfoldable pub route_text : DeviceObservation V S → ProjectionFreshness → String
  route_text o freshness =
      if is_offline freshness
      then "offline"
      else reason_or_unknown (find (λ c. is_freshness c.family) o.conditions)

  -- `active_kiosk_operation_count` of crates/fleet-hub/src/kiosk.rs.
  unfoldable pub active_kiosk_operation_count : FleetHub V S → String → ℕ
  active_kiosk_operation_count hub device_id =
      length (filter (is_active_on device_id) (values hub.kiosk_operations))

  unfoldable pub row : FleetHub V S → DeviceRecord V S → ℤ → DeviceRowProjection V
  row hub r now_ms =
      let o = r.observation in
      let age = row_age r.accepted_at_ms now_ms in
      let freshness = freshness_of hub.policy age in
      record {
        schema = "rusty.fleet.device_row.v1";
        identity = o.identity;
        source_epoch = o.source_epoch;
        accepted_revision = r.accepted_revision;
        accepted_at_ms = r.accepted_at_ms;
        age_ms = age;
        freshness = freshness;
        battery_percent = o.battery_percent;
        charging = o.charging;
        foreground_app = o.foreground_app;
        agent = o.agent;
        power = o.power;
        application = o.application;
        kiosk_state = kiosk_text o.kiosk_state;
        route = route_text o freshness;
        conditions = newest_conditions o.conditions now_ms;
        capabilities = o.capabilities;
        stream_count = length o.streams;
        active_work_count = active_kiosk_operation_count hub o.identity.device_id;
        extensions = [];
      }
