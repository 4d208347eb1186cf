-- ===== src/Hub/Kiosk/Cancel.antt =====
-- crates/fleet-hub/src/kiosk.rs: cancellation before the owner is asked.
use Prim.Native.String.{String}
use rusty_fleet.Prelude.{Bool, true, false, if◌then◌else◌, ℤ, Result, ok, ◌>>=◌, ◌>>◌, fail_if, not}
use rusty_fleet.Order.{text_ord}
use rusty_fleet.Contracts.Command.{CommandLifecycle}
use rusty_fleet.Contracts.Kiosk.{
  KioskShowControlsOperation, KioskShowControlsTargetLedger, KioskCancelDisposition,
}
use rusty_fleet.Contracts.KioskLedger.{same_lifecycle}
use rusty_fleet.Hub.State.{FleetHub, HubError}
use rusty_fleet.Hub.Kiosk.Guards.{
  hub_error, kiosk_operation, target, target_mut, require_monotonic_time, store_operation,
}

-- `matches!(lifecycle, CancellationRequested | Cancelled)`.
abbrev pub is_cancelling : CommandLifecycle → Bool
is_cancelling CommandLifecycle.cancellation_requested = true
is_cancelling CommandLifecycle.cancelled = true
is_cancelling _ = false

unfoldable pub cancelling_ledger : ℤ → KioskShowControlsTargetLedger → KioskShowControlsTargetLedger
cancelling_ledger now_ms t = record t {
  lifecycle = CommandLifecycle.cancellation_requested;
  cancel_disposition = KioskCancelDisposition.cancellation_requested_before_dispatch;
  reason_code = "cancellation_requested";
  message = "Cancellation requested before owner dispatch";
  last_transition_ms = now_ms;
}

unfoldable pub cancelled_ledger : ℤ → KioskShowControlsTargetLedger → KioskShowControlsTargetLedger
cancelled_ledger now_ms t = record t {
  lifecycle = CommandLifecycle.cancelled;
  cancel_disposition = KioskCancelDisposition.cancelled_before_dispatch;
  reason_code = "cancelled_before_dispatch";
  message = "Cancelled before any owner request was sent";
  last_transition_ms = now_ms;
}

module _ {V S : Type 0} where
  unfoldable pub request_kiosk_show_controls_cancellation :
      FleetHub V S
      → String
      → String
      → ℤ
      → Result (FleetHub V S × KioskShowControlsOperation) HubError
  request_kiosk_show_controls_cancellation hub operation_id device_id now_ms = do
    operation ← kiosk_operation hub operation_id
    require_monotonic_time operation now_ms
    t ← target operation device_id
    if is_cancelling t.lifecycle then ok (hub, operation) else do
      fail_if (not (same_lifecycle t.lifecycle CommandLifecycle.accepted)) (
          hub_error "kiosk_target_not_cancelable"
            "confirmed show-controls can be cancelled only before owner dispatch")
      updated ← target_mut operation device_id (cancelling_ledger now_ms)
      store_operation hub operation_id updated

  unfoldable pub complete_kiosk_show_controls_cancellation :
      FleetHub V S
      → String
      → String
      → ℤ
      → Result (FleetHub V S × KioskShowControlsOperation) HubError
  complete_kiosk_show_controls_cancellation hub operation_id device_id now_ms = do
    operation ← kiosk_operation hub operation_id
    require_monotonic_time operation now_ms
    t ← target operation device_id
    if same_lifecycle t.lifecycle CommandLifecycle.cancelled then ok (hub, operation) else do
      fail_if (not (same_lifecycle t.lifecycle CommandLifecycle.cancellation_requested)) (
          hub_error "kiosk_cancellation_state_invalid"
            "target has no pre-dispatch cancellation request to complete")
      updated ← target_mut operation device_id (cancelled_ledger now_ms)
      store_operation hub operation_id updated
