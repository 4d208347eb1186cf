-- ===== src/Hub/Kiosk/Steps.antt =====
-- crates/fleet-hub/src/kiosk.rs: the calls of the Kiosk operations as the steps of the Hub.
use Prim.Native.String.{String}
use rusty_fleet.Prelude.{then_inv, ◌≡◌, refl, ℤ, ok}
use rusty_fleet.Order.{text_ord}
use rusty_fleet.Contracts.Command.{CommandLifecycle}
use rusty_fleet.Contracts.Kiosk.{KioskShowControlsOperation, KioskEffectiveReceipt}
use rusty_fleet.Contracts.KioskRequest.{OperationExecuteRequest, validate_execute_request}
use rusty_fleet.Hub.State.{FleetHub}
use rusty_fleet.Hub.Kiosk.Guards.{checked}
use rusty_fleet.Hub.Kiosk.Preview.{KioskShowControlsPreviewPlan, preview_kiosk_show_controls}
use rusty_fleet.Hub.Kiosk.Confirm.{confirm_kiosk_show_controls_request}
use rusty_fleet.Hub.Kiosk.Dispatch.{dispatch_kiosk_show_controls}
use rusty_fleet.Hub.Kiosk.Attempt.{
  mark_kiosk_show_controls_running, apply_kiosk_show_controls_receipt, fail_kiosk_show_controls,
  expire_kiosk_show_controls,
}
use rusty_fleet.Hub.Kiosk.Cancel.{
  request_kiosk_show_controls_cancellation, complete_kiosk_show_controls_cancellation,
}
use rusty_fleet.Hub.Kiosk.Effects.{KioskEffect}
use rusty_fleet.Hub.Kiosk.Calls.{
  dispatch_effect, transition_inflight_effect, receipt_effect, finish_effect, ask_cancel_effect,
  cancel_effect, confirm_effect, preview_effect,
}

module _ {V S : Type 0} where
  -- A call of the Kiosk operations that succeeds.
  pub data KioskStep (hub next : FleetHub V S) (o : KioskShowControlsOperation) : Type 0 where
    preview :
        (plan : KioskShowControlsPreviewPlan)
        → preview_kiosk_show_controls hub plan ≡ ok (next, o)
        → KioskStep hub next o
    confirm :
        (request : OperationExecuteRequest) (now_ms : ℤ)
        → confirm_kiosk_show_controls_request hub request now_ms ≡ ok (next, o)
        → KioskStep hub next o
    dispatch :
        (id device_id request_id : String) (now_ms : ℤ)
        → dispatch_kiosk_show_controls hub id device_id request_id now_ms ≡ ok (next, o)
        → KioskStep hub next o
    run :
        (id device_id : String) (now_ms : ℤ)
        → mark_kiosk_show_controls_running hub id device_id now_ms ≡ ok (next, o)
        → KioskStep hub next o
    receive :
        (receipt : KioskEffectiveReceipt) (now_ms : ℤ)
        → apply_kiosk_show_controls_receipt hub receipt now_ms ≡ ok (next, o)
        → KioskStep hub next o
    fail :
        (id device_id reason message : String) (now_ms : ℤ)
        → fail_kiosk_show_controls hub id device_id reason message now_ms ≡ ok (next, o)
        → KioskStep hub next o
    expire :
        (id device_id reason message : String) (now_ms : ℤ)
        → expire_kiosk_show_controls hub id device_id reason message now_ms ≡ ok (next, o)
        → KioskStep hub next o
    ask_cancel :
        (id device_id : String) (now_ms : ℤ)
        → request_kiosk_show_controls_cancellation hub id device_id now_ms ≡ ok (next, o)
        → KioskStep hub next o
    cancel :
        (id device_id : String) (now_ms : ℤ)
        → complete_kiosk_show_controls_cancellation hub id device_id now_ms ≡ ok (next, o)
        → KioskStep hub next o

  -- Every call that succeeds has one of the three effects.
  pub KioskStep-effect :
      (hub next : FleetHub V S) (o : KioskShowControlsOperation)
      → KioskStep hub next o
      → KioskEffect hub next
  unfolding confirm_kiosk_show_controls_request mark_kiosk_show_controls_running
      fail_kiosk_show_controls expire_kiosk_show_controls
  KioskStep-effect hub next o (preview plan h) = preview_effect hub plan h
  KioskStep-effect hub next o (confirm request now_ms h) =
      confirm_effect hub request.operation_id request.preview_id now_ms
        (then_inv (checked (validate_execute_request request) _ _) _ h).1
  KioskStep-effect hub next o (dispatch id device_id request_id now_ms h) =
      dispatch_effect hub id device_id request_id now_ms h
  KioskStep-effect hub next o (run id device_id now_ms h) =
      transition_inflight_effect hub id device_id now_ms _ _ h
  KioskStep-effect hub next o (receive receipt now_ms h) = receipt_effect hub receipt now_ms h
  KioskStep-effect hub next o (fail id device_id reason message now_ms h) =
      finish_effect hub id device_id reason message now_ms CommandLifecycle.failed refl h
  KioskStep-effect hub next o (expire id device_id reason message now_ms h) =
      finish_effect hub id device_id reason message now_ms CommandLifecycle.expired refl h
  KioskStep-effect hub next o (ask_cancel id device_id now_ms h) =
      ask_cancel_effect hub id device_id now_ms h
  KioskStep-effect hub next o (cancel id device_id now_ms h) =
      cancel_effect hub id device_id now_ms h
