-- ===== src/Tests/Data.antt =====
-- Test data: an enrolled headset, its first observations, and the Hubs that they lead to.
use rusty_fleet.Prelude.{
  Bool, true, false, none, some, [], ◌∷◌, if◌then◌else◌, pos, ◌-ℤ◌, saturating_sub, saturating_add,
  checked_add, keep_last, ok, err, is_blank, decimal,
}
use rusty_fleet.BTreeMap
use rusty_fleet.Contracts.Violation.{
  ValidateContract, Serialize, require_nonempty, finish, prefixed, each_indexed,
}
use rusty_fleet.Contracts.Condition.{
  StatusCondition, ConditionFamily, ConditionState, Sensitivity, validate_condition, is_stale_at,
  compare_family,
}
use rusty_fleet.Contracts.Capability.{
  validate_capability, validate_capabilities, capability_failures,
}
use rusty_fleet.Contracts.Identity.{
  DeviceIdentity, DeviceObservation, KioskState, validate_identity, validate_observation,
  observation_groups, agent_failures, power_failures, application_failures,
}
use rusty_fleet.Hub.State.{FleetHub, default_policy, new}
use rusty_fleet.Hub.Observe.{
  nonempty, detail_lines, record_event, rejection_reason, rejection, accepted_record,
  store_observation, decision_for, settle, invalid_decision, accept_validated, accept_observation,
}
use rusty_fleet.Contracts.Query.{
  FleetQuery, QueryField, Comparison, QueryValue, SortDirection, predicate, and, nil, cons,
  predicate_failures, validate_into, shape, expression_failures, sort_failures, query_failures,
  validate_query, query_value_is_bounded, predicate_value_is_compatible,
}
use rusty_fleet.BTreeMap.{collect_set}
use rusty_fleet.Contracts.Capability.{is_ready, get_capability}
use rusty_fleet.Contracts.ViewId.{is_valid_saved_view_id}
use rusty_fleet.Contracts.SavedView.{
  SavedView, SavedViewMutationRequest, view_groups, validate_view, request_groups, validate_request,
}
use rusty_fleet.Hub.SavedViews.{
  view_changed, store_view, store_if_changed, upsert_saved_view, delete_saved_view,
}
use rusty_fleet.Hub.List.{
  joined_codes, watch, list, query_window, sorted_rows, all_rows, compare_rows, compare_by,
  compare_field, sort_by, insert_sorted,
}
use rusty_fleet.Hub.Rows.{
  row, newest_conditions, newest_from, add_newest, projected, should_replace, route_text,
  active_kiosk_operation_count, row_age, freshness_of, kiosk_text,
}
use rusty_fleet.Hub.Query.{
  evaluate, evaluate_predicate, compare_text_value, freshness_text, freshness_rank, compare_bool,
  compare_ordering, compare_optional_integer,
}

-- The definitions that a run of the program computes with.
unfoldable pub program : Unit {0}
unfolding BTreeMap.get BTreeMap.insert BTreeMap.remove keep_last saturating_add checked_add ◌-ℤ◌
    saturating_sub is_blank decimal require_nonempty finish prefixed each_indexed validate_condition
    is_stale_at compare_family validate_capability validate_capabilities capability_failures
    validate_identity validate_observation observation_groups agent_failures power_failures
    application_failures new nonempty detail_lines record_event rejection_reason rejection
    accepted_record store_observation decision_for settle invalid_decision accept_validated
    accept_observation predicate_failures validate_into shape expression_failures sort_failures
    query_failures validate_query query_value_is_bounded predicate_value_is_compatible
    is_valid_saved_view_id view_groups validate_view request_groups validate_request collect_set
    view_changed store_view store_if_changed upsert_saved_view delete_saved_view joined_codes watch
    list query_window sorted_rows all_rows row compare_rows compare_by compare_field evaluate
    evaluate_predicate compare_text_value sort_by insert_sorted newest_conditions newest_from
    add_newest projected should_replace route_text active_kiosk_operation_count row_age freshness_of
    freshness_text freshness_rank kiosk_text compare_bool compare_ordering compare_optional_integer
    is_ready get_capability
program = tt

-- JSON values and stream descriptors are of no interest to these runs.
abbrev pub Json : Type 0
Json = Unit {0}

abbrev pub Stream : Type 0
Stream = Bool

-- A stream descriptor is valid if it is `true`.
instance abbrev pub stream_contract : ValidateContract Stream
stream_contract = record {
  validate = λ s.
      if s
      then ok tt
      else err (record { code = "invalid"; path = "stream"; message = "not a stream" } ∷ []);
}

-- Every observation takes 900 bytes.
instance abbrev pub json_encoder : Serialize (DeviceObservation Json Stream)
json_encoder = record { serialized_len = λ _. some 900 }

abbrev pub identity : DeviceIdentity Json
identity = record {
  device_id = "quest-1";
  identity_revision = 1;
  display_name = "Quest one";
  model = "Quest 3";
  hardware_class = "headset";
  tags = ("room", "lab") ∷ [];
  extensions = [];
}

abbrev pub power_low : StatusCondition Json
power_low = record {
  family = ConditionFamily.power;
  state = ConditionState.degraded;
  reason = "battery_low";
  message = "battery is low";
  source_time_ms = pos 90;
  received_time_ms = pos 100;
  accepted_revision = 1;
  fresh_until_ms = pos 5000;
  source = record { adapter_id = "agent"; owner = "rusty-quest"; authority_revision = 1 };
  sensitivity = Sensitivity.operator;
  extensions = [];
}

abbrev pub first : DeviceObservation Json Stream
first = record {
  schema = "rusty.fleet.device_observation.v1";
  identity = identity;
  source_epoch = "epoch-a";
  source_revision = 1;
  source_time_ms = pos 90;
  received_time_ms = pos 100;
  battery_percent = some 12;
  charging = some false;
  foreground_app = none;
  agent = none;
  power = none;
  application = none;
  kiosk_state = KioskState.inactive;
  conditions = power_low ∷ [];
  capabilities = record { capabilities = []; extensions = [] };
  streams = true ∷ [];
  extensions = [];
}

-- The next revision of the same source, and the first of a restarted one.
abbrev pub second : DeviceObservation Json Stream
second = record first { source_revision = 2; received_time_ms = pos 200 }

abbrev pub restarted : DeviceObservation Json Stream
restarted = record first { source_epoch = "epoch-b"; received_time_ms = pos 300 }

abbrev pub empty_hub : FleetHub Json Stream
empty_hub = record {
  policy = default_policy;
  devices = [];
  result_revision = 1;
  event_sequence = 0;
  events = [];
  saved_view_revision = 1;
  saved_views = [];
  kiosk_operations = [];
}

abbrev pub hub_one : FleetHub Json Stream
hub_one = (accept_observation empty_hub first (pos 110)).0

abbrev pub hub_two : FleetHub Json Stream
hub_two = (accept_observation hub_one restarted (pos 310)).0

-- A view of the rooms whose headsets are low on battery.
abbrev pub rooms_query : FleetQuery
rooms_query = record {
  schema = "rusty.fleet.query.v1";
  query_id = "rooms";
  expression = some (
      and (
        cons (predicate QueryField.tag Comparison.exists none (some "room")) (
          cons
            (predicate QueryField.battery_percent Comparison.less_than
              (some (QueryValue.integer (pos 50))) none)
            nil)));
  sort =
      record {
        field = QueryField.battery_percent;
        qualifier = none;
        direction = SortDirection.ascending;
      }
      ∷ [];
  offset = 0;
  limit = 10;
}

abbrev pub rooms : SavedView
rooms = record {
  schema = "rusty.fleet.saved_view.v1";
  view_id = "ops.rooms";
  name = "Rooms";
  query = rooms_query;
  columns = "name" ∷ "battery" ∷ [];
  density = "compact";
  grouping = none;
  restoration = record {
    selected_device_id = none;
    inspector_tab = none;
    scroll_anchor_device_id = none;
    focused_region = none;
    collapsed_groups = [];
  };
  schema_version = 1;
}

abbrev pub put_rooms : SavedViewMutationRequest
put_rooms = record {
  schema = "rusty.fleet.saved_view_mutation_request.v1";
  expected_revision = 1;
  view = rooms;
}

abbrev pub put_renamed : SavedViewMutationRequest
put_renamed = record {
  schema = "rusty.fleet.saved_view_mutation_request.v1";
  expected_revision = 1;
  view = record rooms { name = "All rooms" };
}

abbrev pub hub_with_rooms : FleetHub Json Stream
hub_with_rooms = record empty_hub {
  saved_view_revision = 2;
  saved_views = ("ops.rooms", rooms) ∷ [];
}
