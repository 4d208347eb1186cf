-- ===== src/Hub/Kiosk/Calls.antt =====
-- crates/fleet-hub/src/kiosk.rs: the effect of each call, from what it has tested.
use Prim.Native.String.{String}
use rusty_fleet.Prelude.{
  bind_inv, then_inv, guard_inv, ◌≡◌, inl, inr, true, ◌&&◌, ◌||◌, none, map, arith, leb,
  Option-cases, ℤ, ltb_ℤ, length, ok, str_eq, is_blank, not,
}
use rusty_fleet.BTreeMap
use rusty_fleet.BTreeMap.{BTreeMap}
use rusty_fleet.Order.{text_ord}
use rusty_fleet.Contracts.Command.{CommandLifecycle}
use rusty_fleet.Contracts.Kiosk.{KioskShowControlsOperation, KioskEffectiveReceipt, is_inflight}
use rusty_fleet.Contracts.KioskLedger.{same_lifecycle, same_lifecycle_eq}
use rusty_fleet.Hub.State.{FleetHub}
use rusty_fleet.Hub.Kiosk.Guards.{target, kiosk_operation, relifed, checked, validate_operation}
use rusty_fleet.Hub.Kiosk.Guards.{require_monotonic_time, require_preview}
use rusty_fleet.Hub.Kiosk.Preflight.{require_target_current, require_frozen_targets_current}
use rusty_fleet.Hub.Kiosk.Attempt.{is_receipt_replayed, is_binding_wrong}
use rusty_fleet.Contracts.KioskOwner.{validate_effective_receipt}
use rusty_fleet.Hub.Kiosk.Cancel.{is_cancelling}
use rusty_fleet.Hub.Kiosk.Preview.{
  validate_preview_plan, KioskShowControlsPreviewPlan, planned_operation, freeze_targets,
  preview_new, preview_kiosk_show_controls,
}
use rusty_fleet.Hub.Kiosk.Confirm.{confirmed_ledger, confirm_kiosk_show_controls}
use rusty_fleet.Hub.Kiosk.Dispatch.{is_same_dispatch, dispatch_guards, dispatch_kiosk_show_controls}
use rusty_fleet.Hub.Kiosk.Attempt.{
  transition_inflight, apply_kiosk_show_controls_receipt, finish_owner_attempt,
}
use rusty_fleet.Hub.Kiosk.Cancel.{
  request_kiosk_show_controls_cancellation, complete_kiosk_show_controls_cancellation,
}
use rusty_fleet.Hub.Kiosk.Changes.{
  Change, Changed, Pairwise-map, confirmed_ledger-Changed, is_ended,
}
use rusty_fleet.Hub.Kiosk.Effects.{
  KioskEffect, if_inv, checked_inv, hub_result, same_hub, target_changed, kiosk_operation_inv,
  store_operation_inv,
}

module _ {V S : Type 0} where
  pub dispatch_effect :
      (hub : FleetHub V S) (id device_id request_id : String) (now_ms : ℤ) {next : FleetHub V S}
      {updated : KioskShowControlsOperation}
      → dispatch_kiosk_show_controls hub id device_id request_id now_ms ≡ ok (next, updated)
      → KioskEffect hub next
  unfolding dispatch_kiosk_show_controls dispatch_guards
  dispatch_effect hub id device_id request_id now_ms h =
      let (o, known, h1) = bind_inv (kiosk_operation hub id) _ h in
      let (_, h2) = then_inv (require_monotonic_time o now_ms) _ h1 in
      let (t, found, h3) = bind_inv (target o device_id) _ h2 in
      let split = if_inv (is_same_dispatch t request_id) (hub_result hub o) _ h3 in
      elim split [
        | inl (_, same) ↦ same_hub hub same
        | inr (_, rest) ↦
            let (guards, h4) = then_inv (dispatch_guards o t device_id request_id now_ms) _ rest in
            let (_, h5) = then_inv (require_target_current hub t now_ms) _ h4 in
            target_changed hub id device_id o t _ known found
              (Change.dispatch t request_id now_ms o.preview.expires_at_ms (ground arith)
                (ground arith) (ground arith))
              h5
      ]

  pub transition_inflight_effect :
      (hub : FleetHub V S) (id device_id : String) (now_ms : ℤ) (reason message : String)
      {next : FleetHub V S} {updated : KioskShowControlsOperation}
      → transition_inflight hub id device_id now_ms CommandLifecycle.running reason message
        ≡ ok (next, updated)
      → KioskEffect hub next
  unfolding transition_inflight
  transition_inflight_effect hub id device_id now_ms reason message h =
      let (o, known, h1) = bind_inv (kiosk_operation hub id) _ h in
      let (_, h2) = then_inv (require_monotonic_time o now_ms) _ h1 in
      let (t, found, h3) = bind_inv (target o device_id) _ h2 in
      let split =
        if_inv (same_lifecycle t.lifecycle CommandLifecycle.running) (hub_result hub o) _ h3 in
      elim split [
        | inl (_, same) ↦ same_hub hub same
        | inr (_, rest) ↦
            let (guard, h4) =
              guard_inv (not (same_lifecycle t.lifecycle CommandLifecycle.dispatched)) _ _ rest in
            let state = same_lifecycle_eq t.lifecycle CommandLifecycle.dispatched (ground arith) in
            target_changed hub id device_id o t _ known found
              (Change.run t now_ms reason message state) h4
      ]

  pub receipt_effect :
      (hub : FleetHub V S) (receipt : KioskEffectiveReceipt) (now_ms : ℤ) {next : FleetHub V S}
      {updated : KioskShowControlsOperation}
      → apply_kiosk_show_controls_receipt hub receipt now_ms ≡ ok (next, updated)
      → KioskEffect hub next
  unfolding apply_kiosk_show_controls_receipt
  receipt_effect hub receipt now_ms h =
      let id = receipt.operation_id in
      let device_id = receipt.device_id in
      let (o, known, h1) = bind_inv (kiosk_operation hub id) _ h in
      let (_, h2) = then_inv (require_monotonic_time o now_ms) _ h1 in
      let (t, found, h3) = bind_inv (target o device_id) _ h2 in
      let split = if_inv (is_receipt_replayed t receipt) (hub_result hub o) _ h3 in
      elim split [
        | inl (_, same) ↦ same_hub hub same
        | inr (_, rest) ↦
            let (flying, h4) = guard_inv (not (is_inflight t.lifecycle)) _ _ rest in
            let (valid, h5) = then_inv (checked (validate_effective_receipt receipt) _ _) _ h4 in
            let (bound, h6) = guard_inv (is_binding_wrong t receipt) _ _ h5 in
            target_changed hub id device_id o t _ known found
              (Change.apply t receipt now_ms (ground arith) (checked_inv _ _ _ valid) bound) h6
      ]

  pub finish_effect :
      (hub : FleetHub V S) (id device_id reason message : String) (now_ms : ℤ)
      (l : CommandLifecycle) {next : FleetHub V S} {updated : KioskShowControlsOperation}
      → is_ended l ≡ true
      → finish_owner_attempt hub id device_id reason message now_ms l ≡ ok (next, updated)
      → KioskEffect hub next
  unfolding finish_owner_attempt
  finish_effect hub id device_id reason message now_ms l ended h =
      let (_, h0) = guard_inv (is_blank reason || is_blank message) _ _ h in
      let (o, known, h1) = bind_inv (kiosk_operation hub id) _ h0 in
      let (_, h2) = then_inv (require_monotonic_time o now_ms) _ h1 in
      let (t, found, h3) = bind_inv (target o device_id) _ h2 in
      let split =
        if_inv
          (same_lifecycle t.lifecycle l
            && (str_eq t.reason_code reason && str_eq t.message message))
          (hub_result hub o) _ h3 in
      elim split [
        | inl (_, same) ↦ same_hub hub same
        | inr (_, rest) ↦
            let (flying, h4) = guard_inv (not (is_inflight t.lifecycle)) _ _ rest in
            target_changed hub id device_id o t _ known found
              (Change.finish t now_ms l reason message (ground arith) ended) h4
      ]

  pub ask_cancel_effect :
      (hub : FleetHub V S) (id device_id : String) (now_ms : ℤ) {next : FleetHub V S}
      {updated : KioskShowControlsOperation}
      → request_kiosk_show_controls_cancellation hub id device_id now_ms ≡ ok (next, updated)
      → KioskEffect hub next
  unfolding request_kiosk_show_controls_cancellation
  ask_cancel_effect hub id device_id now_ms h =
      let (o, known, h1) = bind_inv (kiosk_operation hub id) _ h in
      let (_, h2) = then_inv (require_monotonic_time o now_ms) _ h1 in
      let (t, found, h3) = bind_inv (target o device_id) _ h2 in
      let split = if_inv (is_cancelling t.lifecycle) (hub_result hub o) _ h3 in
      elim split [
        | inl (_, same) ↦ same_hub hub same
        | inr (_, rest) ↦
            let (guard, h4) =
              guard_inv (not (same_lifecycle t.lifecycle CommandLifecycle.accepted)) _ _ rest in
            let state = same_lifecycle_eq t.lifecycle CommandLifecycle.accepted (ground arith) in
            target_changed hub id device_id o t _ known found (Change.ask_cancel t now_ms state) h4
      ]

  pub cancel_effect :
      (hub : FleetHub V S) (id device_id : String) (now_ms : ℤ) {next : FleetHub V S}
      {updated : KioskShowControlsOperation}
      → complete_kiosk_show_controls_cancellation hub id device_id now_ms ≡ ok (next, updated)
      → KioskEffect hub next
  unfolding complete_kiosk_show_controls_cancellation
  cancel_effect hub id device_id now_ms h =
      let (o, known, h1) = bind_inv (kiosk_operation hub id) _ h in
      let (_, h2) = then_inv (require_monotonic_time o now_ms) _ h1 in
      let (t, found, h3) = bind_inv (target o device_id) _ h2 in
      let split =
        if_inv (same_lifecycle t.lifecycle CommandLifecycle.cancelled) (hub_result hub o) _ h3 in
      elim split [
        | inl (_, same) ↦ same_hub hub same
        | inr (_, rest) ↦
            let (guard, h4) =
              guard_inv (not (same_lifecycle t.lifecycle CommandLifecycle.cancellation_requested)) _
                _ rest in
            let state =
              same_lifecycle_eq t.lifecycle CommandLifecycle.cancellation_requested
                (ground arith) in
            target_changed hub id device_id o t _ known found (Change.cancel t now_ms state) h4
      ]

  pub confirm_effect :
      (hub : FleetHub V S) (id preview_id : String) (now_ms : ℤ) {next : FleetHub V S}
      {updated : KioskShowControlsOperation}
      → confirm_kiosk_show_controls hub id preview_id now_ms ≡ ok (next, updated)
      → KioskEffect hub next
  unfolding confirm_kiosk_show_controls
  confirm_effect hub id preview_id now_ms h =
      let (o, known, h1) = bind_inv (kiosk_operation hub id) _ h in
      let (_, h2) = then_inv (require_preview o preview_id) _ h1 in
      let (_, h3) = then_inv (require_monotonic_time o now_ms) _ h2 in
      let split =
        if_inv (not (same_lifecycle o.lifecycle CommandLifecycle.proposed)) (hub_result hub o) _
          h3 in
      elim split [
        | inl (_, same) ↦ same_hub hub same
        | inr (_, rest) ↦
            let (_, h4) = guard_inv (ltb_ℤ o.preview.expires_at_ms now_ms) _ _ rest in
            let (_, h5) = then_inv (require_frozen_targets_current hub o now_ms) _ h4 in
            KioskEffect.changed id o (map (confirmed_ledger now_ms) o.targets)
              (kiosk_operation_inv hub id known)
              (Pairwise-map (Changed o.max_attempts_per_target) (confirmed_ledger now_ms)
                (confirmed_ledger-Changed o.max_attempts_per_target now_ms) o.targets)
              (store_operation_inv hub id _ h5)
      ]

  pub preview_new_effect :
      (hub : FleetHub V S) (plan : KioskShowControlsPreviewPlan) {next : FleetHub V S}
      {updated : KioskShowControlsOperation}
      → BTreeMap.get plan.operation_id hub.kiosk_operations ≡ none
      → preview_new hub plan ≡ ok (next, updated)
      → KioskEffect hub next
  unfolding preview_new validate_operation
  preview_new_effect hub plan free h =
      let (ps, frozen, h1) =
        bind_inv (freeze_targets hub plan.created_at_ms plan.request.targets) _ h in
      let operation = relifed (planned_operation plan hub.result_revision ps) in
      let (valid, h2) = then_inv (validate_operation operation) _ h1 in
      let (room, h3) = guard_inv (leb 1000 (length hub.kiosk_operations)) _ _ h2 in
      KioskEffect.created plan ps frozen free (ground arith) (checked_inv _ _ _ valid, ground arith)

  pub preview_effect :
      (hub : FleetHub V S) (plan : KioskShowControlsPreviewPlan) {next : FleetHub V S}
      {updated : KioskShowControlsOperation}
      → preview_kiosk_show_controls hub plan ≡ ok (next, updated)
      → KioskEffect hub next
  unfolding preview_kiosk_show_controls
  preview_effect hub plan {next} {updated} h =
      let (_, h1) = then_inv (validate_preview_plan plan) _ h in
      elim (Option-cases (BTreeMap.get plan.operation_id hub.kiosk_operations)) [
        | inl free ↦
            let fresh : preview_new hub plan ≡ ok (next, updated) = ground arith in
            preview_new_effect hub plan free fresh
        | inr (existing, known) ↦ KioskEffect.replayed (ground arith)
      ]
