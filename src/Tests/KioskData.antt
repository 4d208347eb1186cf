-- ===== src/Tests/KioskData.antt =====
-- Test data: a headset whose Kiosk is ready, and the Hubs that an operation on it leads through.
use Prim.Native.String.{String}
use rusty_fleet.Contracts.KioskEquality.{same_contract, same_preflight, same_receipt}
use rusty_fleet.Prelude.{
  ◌≡◌, refl, true, false, List, [], ◌∷◌, pos, ◌-ℤ◌, saturating_sub, length, Result, ok, err, is_ok,
  is_err, is_blank, decimal, byte_len,
}
use rusty_fleet.Contracts.Violation.{require_nonempty, finish, prefixed}
use rusty_fleet.BTreeMap
use rusty_fleet.BTreeMap.{collect_set}
use rusty_fleet.Contracts.Capability.{
  SupportState, EnablementState, AuthorizationState, ReachabilityState, FreshnessState,
  CapabilityState, get_capability,
}
use rusty_fleet.Contracts.Identity.{DeviceObservation}
use rusty_fleet.Contracts.Kiosk.{
  KioskShowControlsOperation, KioskShowControlsTargetLedger, KioskShowControlsTargetPreflight,
  KioskEffectiveReceipt, lifecycle_of_eligible, derived_lifecycle,
}
use rusty_fleet.Contracts.KioskOwner.{
  show_controls_v1, pinned_failures, validate_owner_contract, is_owner_request_id,
  is_lower_hex_sha256, receipt_groups, validate_effective_receipt,
}
use rusty_fleet.Contracts.KioskRequest.{
  OperationExecuteRequest, request_target_failures, validate_preview_request,
  validate_execute_request,
}
use rusty_fleet.Contracts.KioskPreview.{
  expected_reason_code, expected_eligibility, preflight_groups, validate_preflight,
  preview_target_failures, preview_groups, validate_preview,
}
use rusty_fleet.Contracts.KioskLedger.{
  lifecycle_failures, receipt_failures, state_failures, ledger_groups, validate_for_operation,
}
use rusty_fleet.Contracts.KioskOperation.{
  operation_target_failures, operation_groups, validate_kiosk_operation,
}
use rusty_fleet.Hub.Kiosk.Preview.{same_targets}
use rusty_fleet.Hub.State.{FleetHub, HubError}
use rusty_fleet.Hub.Observe.{accept_observation}
use rusty_fleet.Hub.Kiosk.Guards.{
  joined_failures, contract_error, validate_operation, target, change_first, target_mut,
  require_preview, require_monotonic_time, same_frozen_facts, kiosk_operation, store_operation,
}
use rusty_fleet.Hub.Kiosk.Preflight.{
  capability_facts, aged_reachability, aged_freshness, kiosk_preflight_facts, kiosk_preflight,
  require_target_current, require_targets_current, require_frozen_targets_current,
}
use rusty_fleet.Hub.Kiosk.Preview.{
  KioskShowControlsPreviewPlan, validate_preview_plan, collect_targets, plan_matches_operation,
  initial_ledger, planned_operation, freeze_targets, preview_new, preview_kiosk_show_controls,
}
use rusty_fleet.Hub.Kiosk.Confirm.{
  accepted_ledger, confirmed_ledger, confirm_kiosk_show_controls,
  confirm_kiosk_show_controls_request,
}
use rusty_fleet.Hub.Kiosk.Dispatch.{
  dispatched_ledger, dispatch_guards, dispatch_kiosk_show_controls,
}
use rusty_fleet.Hub.Kiosk.Attempt.{
  inflight_ledger, applied_ledger, finished_ledger, transition_inflight,
  mark_kiosk_show_controls_running, apply_kiosk_show_controls_receipt, finish_owner_attempt,
  fail_kiosk_show_controls, expire_kiosk_show_controls,
}
use rusty_fleet.Hub.Kiosk.Cancel.{
  cancelling_ledger, cancelled_ledger, request_kiosk_show_controls_cancellation,
  complete_kiosk_show_controls_cancellation,
}
use rusty_fleet.Tests.Data.{Json, Stream, empty_hub, first, program, stream_contract, json_encoder}

-- The definitions that the Kiosk calls compute with.
unfoldable pub kiosk_program : Unit {0}
unfolding BTreeMap.get BTreeMap.insert collect_set is_blank decimal require_nonempty finish prefixed
    ◌-ℤ◌ saturating_sub get_capability same_preflight same_contract same_receipt same_targets
    byte_len lifecycle_of_eligible derived_lifecycle show_controls_v1 pinned_failures
    validate_owner_contract is_owner_request_id is_lower_hex_sha256 receipt_groups
    validate_effective_receipt request_target_failures validate_preview_request
    validate_execute_request expected_reason_code expected_eligibility preflight_groups
    validate_preflight preview_target_failures preview_groups validate_preview lifecycle_failures
    receipt_failures state_failures ledger_groups validate_for_operation operation_target_failures
    operation_groups validate_kiosk_operation joined_failures contract_error validate_operation
    target change_first target_mut require_preview require_monotonic_time same_frozen_facts
    kiosk_operation store_operation capability_facts aged_reachability aged_freshness
    kiosk_preflight_facts kiosk_preflight require_target_current require_targets_current
    require_frozen_targets_current validate_preview_plan collect_targets plan_matches_operation
    initial_ledger planned_operation freeze_targets preview_new preview_kiosk_show_controls
    accepted_ledger confirmed_ledger confirm_kiosk_show_controls confirm_kiosk_show_controls_request
    dispatched_ledger dispatch_guards dispatch_kiosk_show_controls inflight_ledger applied_ledger
    finished_ledger transition_inflight mark_kiosk_show_controls_running
    apply_kiosk_show_controls_receipt finish_owner_attempt fail_kiosk_show_controls
    expire_kiosk_show_controls cancelling_ledger cancelled_ledger
    request_kiosk_show_controls_cancellation complete_kiosk_show_controls_cancellation
kiosk_program = tt

abbrev direct_operator : CapabilityState Json
direct_operator = record {
  capability_id = "rusty-kiosk.direct-operator";
  support = SupportState.supported;
  enablement = EnablementState.enabled;
  authorization = AuthorizationState.authorized;
  reachability = ReachabilityState.reachable;
  freshness = FreshnessState.current;
  evidence_revision = 3;
  observed_at_ms = pos 100;
  fresh_until_ms = pos 50000;
  owner = "rusty-kiosk";
  reason = "paired";
  extensions = [];
}

abbrev pub ready : DeviceObservation Json Stream
ready = record first {
  capabilities = record {
    capabilities = ("rusty-kiosk.direct-operator", direct_operator) ∷ [];
    extensions = [];
  };
}

abbrev pub ready_hub : FleetHub Json Stream
ready_hub = (accept_observation empty_hub ready (pos 110)).0

abbrev pub plan : KioskShowControlsPreviewPlan
plan = record {
  operation_id = "op-1";
  preview_id = "preview-1";
  request = record {
    schema = "rusty.fleet.operation_preview_request.v1";
    action_id = "kiosk.show-controls";
    targets = ("quest-1", 1) ∷ [];
  };
  created_at_ms = pos 200;
  expires_at_ms = pos 9000;
  max_parallelism = 2;
  max_attempts_per_target = 2;
}

abbrev pub hub_of_call :
    Result (FleetHub Json Stream × KioskShowControlsOperation) HubError → FleetHub Json Stream
hub_of_call (ok (hub, _)) = hub
hub_of_call (err _) = empty_hub

abbrev unknown_preflight : KioskShowControlsTargetPreflight
unknown_preflight = record {
  device_id = "";
  identity_revision = 0;
  capability_id = "";
  capability_evidence_revision = 0;
  capability_owner = "";
  support = SupportState.unknown;
  enablement = EnablementState.unknown;
  authorization = AuthorizationState.unknown;
  reachability = ReachabilityState.unknown;
  freshness = FreshnessState.unknown;
  observed_at_ms = pos 0;
  fresh_until_ms = pos 0;
  evaluated_at_ms = pos 0;
  eligible = false;
  reason_code = "";
  message = "";
}

abbrev first_ledger : List KioskShowControlsTargetLedger → KioskShowControlsTargetLedger
first_ledger [] = initial_ledger (pos 0) unknown_preflight
first_ledger (t ∷ _) = t

-- The operation of a call, and the ledger of its target.
abbrev pub operation_of :
    Result (FleetHub Json Stream × KioskShowControlsOperation) HubError → KioskShowControlsOperation
operation_of (ok (_, operation)) = operation
operation_of (err _) = planned_operation plan 0 []

abbrev pub ledger_of : KioskShowControlsOperation → KioskShowControlsTargetLedger
ledger_of operation = first_ledger operation.targets

abbrev pub Called : Type 0
Called = Result (FleetHub Json Stream × KioskShowControlsOperation) HubError

abbrev pub preview_call : Called
preview_call = preview_kiosk_show_controls ready_hub plan

abbrev pub request : OperationExecuteRequest
request = record {
  schema = "rusty.fleet.operation_execute_request.v1";
  operation_id = "op-1";
  preview_id = "preview-1";
}

abbrev pub previewed : FleetHub Json Stream
previewed = hub_of_call preview_call

abbrev pub confirm_call : Called
confirm_call = confirm_kiosk_show_controls_request previewed request (pos 300)

abbrev pub confirmed : FleetHub Json Stream
confirmed = hub_of_call confirm_call

abbrev pub dispatch_call : Called
dispatch_call = dispatch_kiosk_show_controls confirmed "op-1" "quest-1" "request-0001" (pos 400)

abbrev pub dispatched : FleetHub Json Stream
dispatched = hub_of_call dispatch_call

abbrev pub sha : String
sha = "0123456789abcdef0123456789abcdef0123456789abcdef0123456789abcdef"

abbrev pub receipt : KioskEffectiveReceipt
receipt = record {
  schema = "rusty.fleet.kiosk_effective_receipt.v1";
  receipt_id = "receipt-1";
  operation_id = "op-1";
  device_id = "quest-1";
  identity_revision = 1;
  owner_contract = show_controls_v1;
  owner_action_request_id = "request-0001";
  owner_result_transport_request_id = "transport-0001";
  owner_command = "show-controls";
  response_status = 200;
  response_content_sha256 = sha;
  response_signature = sha;
  response_auth_verified = true;
  owner_result_schema = "rusty.kiosk.cli_result.v1";
  owner_accepted = true;
  owner_completed = true;
  owner_recorded_at_ms = pos 450;
  controls_open = true;
  wrapped_at_ms = pos 460;
}

abbrev pub apply_call : Called
apply_call = apply_kiosk_show_controls_receipt dispatched receipt (pos 500)

abbrev pub applied : FleetHub Json Stream
applied = hub_of_call apply_call

one_operation : length previewed.kiosk_operations ≡ 1
unfolding program kiosk_program
one_operation = refl

run_completes : is_ok apply_call ≡ true
unfolding program kiosk_program
run_completes = refl

-- A second dispatch of the same request under a new identifier is refused while the first is in flight.
second_refused :
    is_err (dispatch_kiosk_show_controls dispatched "op-1" "quest-1" "request-0002" (pos 410))
    ≡ true
unfolding program kiosk_program
second_refused = refl

-- A dispatch at the very end of the preview passes the guard on its expiry; what refuses it is the
-- contract of the ledger, whose deadline must follow the dispatch.
abbrev error_code : Called → String
error_code (ok _) = ""
error_code (err failure) = failure.code

last_moment_refused :
    error_code (dispatch_kiosk_show_controls confirmed "op-1" "quest-1" "request-0001" (pos 9000))
    ≡ "kiosk_operation_invalid"
unfolding program kiosk_program
last_moment_refused = refl
