-- ===== src/Hub/Kiosk/Attempt.antt =====
-- crates/fleet-hub/src/kiosk.rs: what can become of an owner attempt.
use Prim.Native.String.{String}
use rusty_fleet.Contracts.KioskEquality.{same_receipt}
use rusty_fleet.Prelude.{
  ℕ, Bool, ◌&&◌, ◌||◌, Option, none, some, ltb, ◌==◌, if◌then◌else◌, is_some_and, ℤ, Result, ok,
  ◌>>=◌, ◌>>◌, fail_if, str_eq, is_blank, not,
}
use rusty_fleet.Order.{text_ord}
use rusty_fleet.Contracts.Command.{CommandLifecycle}
use rusty_fleet.Contracts.Kiosk.{
  KioskShowControlsOperation, KioskShowControlsTargetLedger, KioskRetryDisposition,
  KioskCancelDisposition, KioskEffectiveReceipt, is_inflight,
}
use rusty_fleet.Contracts.KioskLedger.{same_lifecycle}
use rusty_fleet.Hub.State.{FleetHub, HubError}
use rusty_fleet.Hub.Kiosk.Guards.{
  hub_error, checked, kiosk_operation, target, target_mut, require_monotonic_time, store_operation,
}
use rusty_fleet.Contracts.KioskOwner.{validate_effective_receipt}

unfoldable pub inflight_ledger :
    ℤ
    → CommandLifecycle
    → String
    → String
    → KioskShowControlsTargetLedger
    → KioskShowControlsTargetLedger
inflight_ledger now_ms lifecycle reason_code message t = record t {
  lifecycle = lifecycle;
  reason_code = reason_code;
  message = message;
  last_transition_ms = now_ms;
}

unfoldable pub applied_ledger :
    KioskEffectiveReceipt → ℤ → KioskShowControlsTargetLedger → KioskShowControlsTargetLedger
applied_ledger receipt now_ms t = record t {
  effective_receipt = some receipt;
  lifecycle = CommandLifecycle.applied;
  retry_disposition = KioskRetryDisposition.not_eligible;
  cancel_disposition = KioskCancelDisposition.terminal;
  reason_code = "owner_effective_receipt";
  message = "Kiosk signed result confirms accepted, completed, controls-open state";
  last_transition_ms = now_ms;
}

unfoldable pub finished_ledger :
    ℤ
    → CommandLifecycle
    → String
    → String
    → ℕ
    → KioskShowControlsTargetLedger
    → KioskShowControlsTargetLedger
finished_ledger now_ms lifecycle reason_code message max_attempts t = record t {
  lifecycle = lifecycle;
  retry_disposition =
      if ltb t.attempt_count max_attempts
      then KioskRetryDisposition.new_owner_request_required
      else KioskRetryDisposition.not_eligible;
  cancel_disposition = KioskCancelDisposition.terminal;
  reason_code = reason_code;
  message = message;
  last_transition_ms = now_ms;
}

abbrev pub is_receipt_replayed : KioskShowControlsTargetLedger → KioskEffectiveReceipt → Bool
is_receipt_replayed t receipt =
    same_lifecycle t.lifecycle CommandLifecycle.applied
    && is_some_and t.effective_receipt (λ kept. same_receipt kept receipt)

-- `target.owner_request_id.as_deref().unwrap_or("")`.
abbrev current_request : Option String → String
current_request none = ""
current_request (some request_id) = request_id

abbrev pub is_binding_wrong : KioskShowControlsTargetLedger → KioskEffectiveReceipt → Bool
is_binding_wrong t receipt =
    not (str_eq receipt.device_id t.device_id)
    || (not (receipt.identity_revision == t.identity_revision)
        || not (str_eq receipt.owner_action_request_id (current_request t.owner_request_id)))

module _ {V S : Type 0} where
  unfoldable pub transition_inflight :
      FleetHub V S
      → String
      → String
      → ℤ
      → CommandLifecycle
      → String
      → String
      → Result (FleetHub V S × KioskShowControlsOperation) HubError
  transition_inflight hub operation_id device_id now_ms lifecycle reason_code message = do
    operation ← kiosk_operation hub operation_id
    require_monotonic_time operation now_ms
    t ← target operation device_id
    if same_lifecycle t.lifecycle lifecycle then ok (hub, operation) else do
      fail_if (not (same_lifecycle t.lifecycle CommandLifecycle.dispatched)) (
          hub_error "kiosk_running_state_invalid"
            "only a dispatched Kiosk target can become running")
      updated ←
          target_mut operation device_id (inflight_ledger now_ms lifecycle reason_code message)
      store_operation hub operation_id updated

  unfoldable pub mark_kiosk_show_controls_running :
      FleetHub V S
      → String
      → String
      → ℤ
      → Result (FleetHub V S × KioskShowControlsOperation) HubError
  mark_kiosk_show_controls_running hub operation_id device_id now_ms =
      transition_inflight hub operation_id device_id now_ms CommandLifecycle.running
        "owner_result_pending" "Kiosk accepted the request; signed effective readback is pending"

  unfoldable pub apply_kiosk_show_controls_receipt :
      FleetHub V S
      → KioskEffectiveReceipt
      → ℤ
      → Result (FleetHub V S × KioskShowControlsOperation) HubError
  apply_kiosk_show_controls_receipt hub receipt now_ms = do
    operation ← kiosk_operation hub receipt.operation_id
    require_monotonic_time operation now_ms
    t ← target operation receipt.device_id
    if is_receipt_replayed t receipt then ok (hub, operation) else do
      fail_if (not (is_inflight t.lifecycle)) (
          hub_error "kiosk_receipt_state_invalid"
            "effective Kiosk receipt arrived for a target without an owner attempt in flight")
      checked (validate_effective_receipt receipt) "kiosk_receipt_invalid" "effective Kiosk receipt"
      fail_if (is_binding_wrong t receipt) (
          hub_error "kiosk_receipt_binding_mismatch"
            "effective Kiosk receipt does not bind the exact frozen target and owner attempt")
      updated ← target_mut operation receipt.device_id (applied_ledger receipt now_ms)
      store_operation hub receipt.operation_id updated

  unfoldable pub finish_owner_attempt :
      FleetHub V S
      → String
      → String
      → String
      → String
      → ℤ
      → CommandLifecycle
      → Result (FleetHub V S × KioskShowControlsOperation) HubError
  finish_owner_attempt hub operation_id device_id reason_code message now_ms lifecycle = do
    fail_if (is_blank reason_code || is_blank message) (
        hub_error "kiosk_terminal_reason_invalid"
          "failed or expired Kiosk attempts require a reason and message")
    operation ← kiosk_operation hub operation_id
    require_monotonic_time operation now_ms
    t ← target operation device_id
    if same_lifecycle t.lifecycle lifecycle
          && (str_eq t.reason_code reason_code && str_eq t.message message)
        then ok (hub, operation)
        else do
          fail_if (not (is_inflight t.lifecycle)) (
              hub_error "kiosk_terminal_state_invalid"
                "only an in-flight Kiosk owner attempt can fail or expire")
          updated ← target_mut operation device_id (
              finished_ledger now_ms lifecycle reason_code message
                operation.max_attempts_per_target)
          store_operation hub operation_id updated

  unfoldable pub fail_kiosk_show_controls :
      FleetHub V S
      → String
      → String
      → String
      → String
      → ℤ
      → Result (FleetHub V S × KioskShowControlsOperation) HubError
  fail_kiosk_show_controls hub operation_id device_id reason_code message now_ms =
      finish_owner_attempt hub operation_id device_id reason_code message now_ms
        CommandLifecycle.failed

  unfoldable pub expire_kiosk_show_controls :
      FleetHub V S
      → String
      → String
      → String
      → String
      → ℤ
      → Result (FleetHub V S × KioskShowControlsOperation) HubError
  expire_kiosk_show_controls hub operation_id device_id reason_code message now_ms =
      finish_owner_attempt hub operation_id device_id reason_code message now_ms
        CommandLifecycle.expired
