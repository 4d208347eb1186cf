-- ===== src/Tests/Kiosk.antt =====
-- The theorem on the lifecycle of a kiosk operation, at an operation with two targets.
use rusty_fleet.Prelude.{
  ◌≡◌, refl, true, false, ◌&&◌, none, some, [], ◌∷◌, ◌==◌, pos, length, any, all, not,
}
use rusty_fleet.Contracts.Capability.{
  SupportState, EnablementState, AuthorizationState, ReachabilityState, FreshnessState,
}
use rusty_fleet.Contracts.Command.{CommandLifecycle}
use rusty_fleet.Contracts.Lifecycle.{is_open}
use rusty_fleet.Contracts.Kiosk.{
  KioskOwnerContractBinding, KioskShowControlsTargetPreflight, KioskShowControlsTargetLedger,
  KioskShowControlsOperation, KioskRetryDisposition, KioskCancelDisposition, is_applied,
  derived_lifecycle,
}
use rusty_fleet.Contracts.KioskLifecycle.{eligible_targets, derived_lifecycle_exact}

abbrev owner : KioskOwnerContractBinding
owner = record {
  owner_repo_id = "rusty-kiosk";
  owner_contract_schema = "rusty.kiosk.owner_contract.v1";
  owner_contract_revision = "1";
  capability_id = "kiosk.show_controls";
  request_auth = "hmac";
  response_auth = "hmac";
  invoke_method = "POST";
  invoke_target = "/v1/actions";
  result_method = "GET";
  result_target = "/v1/results";
  result_request_id_parameter = "request_id";
  port = 8080;
  max_clock_skew_seconds = 30;
  command = "show_controls";
  command_value = none;
  owner_result_schema = "rusty.kiosk.result.v1";
}

abbrev preflight : KioskShowControlsTargetPreflight
preflight = record {
  device_id = "quest-1";
  identity_revision = 1;
  capability_id = "kiosk.show_controls";
  capability_evidence_revision = 1;
  capability_owner = "rusty-kiosk";
  support = SupportState.supported;
  enablement = EnablementState.enabled;
  authorization = AuthorizationState.authorized;
  reachability = ReachabilityState.reachable;
  freshness = FreshnessState.current;
  observed_at_ms = pos 100;
  fresh_until_ms = pos 900;
  evaluated_at_ms = pos 200;
  eligible = true;
  reason_code = "eligible";
  message = "ready";
}

abbrev applied_target : KioskShowControlsTargetLedger
applied_target = record {
  device_id = "quest-1";
  identity_revision = 1;
  preflight = preflight;
  lifecycle = CommandLifecycle.applied;
  dispatched_at_ms = some (pos 300);
  owner_deadline_at_ms = some (pos 800);
  attempt_count = 1;
  owner_request_ids = "r-1" ∷ [];
  owner_request_id = some "r-1";
  effective_receipt = none;
  retry_disposition = KioskRetryDisposition.not_eligible;
  cancel_disposition = KioskCancelDisposition.terminal;
  reason_code = "applied";
  message = "controls are shown";
  last_transition_ms = pos 400;
}

-- One target is applied and the other one still runs.
abbrev show_controls : KioskShowControlsOperation
show_controls = record {
  schema = "rusty.fleet.kiosk_operation.v1";
  operation_id = "op-1";
  action_id = "kiosk.show_controls";
  created_at_ms = pos 250;
  preview = record {
    schema = "rusty.fleet.kiosk_preview.v1";
    preview_id = "p-1";
    operation_id = "op-1";
    action_id = "kiosk.show_controls";
    created_at_ms = pos 200;
    expires_at_ms = pos 900;
    fleet_revision = 2;
    owner_contract = owner;
    targets = preflight ∷ [];
  };
  lifecycle = CommandLifecycle.running;
  max_parallelism = 2;
  max_attempts_per_target = 1;
  cleanup_required = false;
  targets =
      applied_target
      ∷ record applied_target { device_id = "quest-2"; lifecycle = CommandLifecycle.running }
      ∷ [];
}

still_running : derived_lifecycle show_controls ≡ CommandLifecycle.running
unfolding derived_lifecycle
still_running = refl

derived_lifecycle_exact_example :
    (is_open (derived_lifecycle show_controls)
      ≡ any (λ t. is_open t.lifecycle) (eligible_targets show_controls))
    × (is_applied (derived_lifecycle show_controls) ≡ (
        not (length (eligible_targets show_controls) == 0)
        && all (λ t. is_applied t.lifecycle) (eligible_targets show_controls)))
derived_lifecycle_exact_example = derived_lifecycle_exact show_controls
