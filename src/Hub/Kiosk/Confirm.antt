-- ===== src/Hub/Kiosk/Confirm.antt =====
-- crates/fleet-hub/src/kiosk.rs: the confirmation of an exact preview.
use Prim.Native.String.{String}
use rusty_fleet.Prelude.{map, if◌then◌else◌, ℤ, ltb_ℤ, Result, ok, ◌>>=◌, ◌>>◌, fail_if, not}
use rusty_fleet.Order.{text_ord}
use rusty_fleet.Contracts.Command.{CommandLifecycle}
use rusty_fleet.Contracts.Kiosk.{KioskShowControlsOperation, KioskShowControlsTargetLedger}
use rusty_fleet.Contracts.KioskLedger.{same_lifecycle}
use rusty_fleet.Hub.State.{FleetHub, HubError}
use rusty_fleet.Hub.Kiosk.Guards.{
  hub_error, checked, kiosk_operation, require_preview, require_monotonic_time, store_operation,
}
use rusty_fleet.Contracts.KioskRequest.{OperationExecuteRequest, validate_execute_request}
use rusty_fleet.Hub.Kiosk.Preflight.{require_frozen_targets_current}

unfoldable pub accepted_ledger : ℤ → KioskShowControlsTargetLedger → KioskShowControlsTargetLedger
accepted_ledger now_ms t = record t {
  lifecycle = CommandLifecycle.accepted;
  reason_code = "operator_confirmed";
  message = "Exact preview confirmed for dispatch";
  last_transition_ms = now_ms;
}

unfoldable pub confirmed_ledger : ℤ → KioskShowControlsTargetLedger → KioskShowControlsTargetLedger
confirmed_ledger now_ms t = if t.preflight.eligible then accepted_ledger now_ms t else t

module _ {V S : Type 0} where
  unfoldable pub confirm_kiosk_show_controls :
      FleetHub V S
      → String
      → String
      → ℤ
      → Result (FleetHub V S × KioskShowControlsOperation) HubError
  confirm_kiosk_show_controls hub operation_id preview_id now_ms = do
    operation ← kiosk_operation hub operation_id
    require_preview operation preview_id
    require_monotonic_time operation now_ms
    if not (same_lifecycle operation.lifecycle CommandLifecycle.proposed)
        then ok (hub, operation)
        else do
          fail_if (ltb_ℤ operation.preview.expires_at_ms now_ms) (
              hub_error "kiosk_preview_expired"
                "the immutable Kiosk preview expired before confirmation")
          require_frozen_targets_current hub operation now_ms
          store_operation hub operation_id
              (record operation { targets = map (confirmed_ledger now_ms) operation.targets })

  unfoldable pub confirm_kiosk_show_controls_request :
      FleetHub V S
      → OperationExecuteRequest
      → ℤ
      → Result (FleetHub V S × KioskShowControlsOperation) HubError
  confirm_kiosk_show_controls_request hub request now_ms = do
    checked (validate_execute_request request) "kiosk_execute_request_invalid"
        "Kiosk operation execute request"
    confirm_kiosk_show_controls hub request.operation_id request.preview_id now_ms
