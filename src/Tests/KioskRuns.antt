-- ===== src/Tests/KioskRuns.antt =====
-- The theorems on the Kiosk operations, at the run of the test data.
use rusty_fleet.Prelude.{
  ℕ, ◌+◌, ◌*◌, ◌≤◌, ◌<◌, ◌≡◌, refl, ◌↔◌, true, false, some, arith, pos, ok, is_blank, All,
}
use rusty_fleet.BTreeMap
use rusty_fleet.BTreeMap.{collect_set}
use rusty_fleet.Order.{text_ord}
use rusty_fleet.Contracts.Kiosk.{
  KioskShowControlsTargetLedger, KioskEffectiveReceipt, is_applied, is_inflight,
}
use rusty_fleet.Contracts.KioskLedgerFacts.{IsProved, is_unattempted}
use rusty_fleet.Contracts.KioskPreview.{expected_eligibility}
use rusty_fleet.Hub.State.{DeviceRecord, default_policy, new}
use rusty_fleet.Hub.Kiosk.Guards.{kiosk_operation, target, require_monotonic_time}
use rusty_fleet.Hub.Kiosk.Preflight.{kiosk_preflight}
use rusty_fleet.Hub.Kiosk.Dispatch.{dispatch_kiosk_show_controls, is_same_dispatch}
use rusty_fleet.Hub.Kiosk.Attempt.{
  apply_kiosk_show_controls_receipt, fail_kiosk_show_controls, expire_kiosk_show_controls,
}
use rusty_fleet.Hub.Kiosk.Steps.{KioskStep}
use rusty_fleet.Contracts.Command.{CommandLifecycle}
use rusty_fleet.Hub.Kiosk.Ending.{Ends, attempt_can_end}
use rusty_fleet.Hub.Kiosk.Soundness.{IsSound, applied_has_receipt}
use rusty_fleet.Hub.Kiosk.Refinement.{Kept, KioskStep-Refines}
use rusty_fleet.Hub.Kiosk.Paths.{Moving, is_final}
use rusty_fleet.Hub.Kiosk.Runs.{KioskRun, target_settles, begun_never_cancelled, final_target_stays}
use rusty_fleet.Hub.Kiosk.Ready.{IsReady, dispatch_only-IsReady, expected_eligibility_iff}
use rusty_fleet.Hub.Kiosk.Reached.{IsReachedBy, reached-IsSound}
use rusty_fleet.Hub.Kiosk.Limits.{attempts_in_flight, IsWithin, attempts_limited}
use rusty_fleet.Hub.Kiosk.Replay.{dispatch_replays, receipt_replays}
use rusty_fleet.Tests.Data.{Json, Stream, empty_hub, program, stream_contract, json_encoder}
use rusty_fleet.Tests.KioskData.{
  kiosk_program, ready, ready_hub, plan, request, receipt, operation_of, ledger_of, preview_call,
  confirm_call, dispatch_call, apply_call, previewed, confirmed, dispatched, applied,
}

begins : new default_policy ≡ some empty_hub
unfolding program
begins = refl

preview_made : preview_call ≡ ok (previewed, operation_of preview_call)
unfolding program kiosk_program
preview_made = refl

confirm_made : confirm_call ≡ ok (confirmed, operation_of confirm_call)
unfolding program kiosk_program
confirm_made = refl

dispatch_made : dispatch_call ≡ ok (dispatched, operation_of dispatch_call)
unfolding program kiosk_program
dispatch_made = refl

apply_made : apply_call ≡ ok (applied, operation_of apply_call)
unfolding program kiosk_program
apply_made = refl

ready-IsReachedBy : IsReachedBy ready_hub
ready-IsReachedBy =
    IsReachedBy.observed empty_hub ready (pos 110)
      (IsReachedBy.started default_policy empty_hub begins)

confirmed-IsReachedBy : IsReachedBy confirmed
confirmed-IsReachedBy =
    IsReachedBy.called previewed confirmed (operation_of confirm_call)
      (IsReachedBy.called ready_hub previewed (operation_of preview_call) ready-IsReachedBy
        (KioskStep.preview plan preview_made))
      (KioskStep.confirm request (pos 300) confirm_made)

dispatch_step : KioskStep confirmed dispatched (operation_of dispatch_call)
dispatch_step = KioskStep.dispatch "op-1" "quest-1" "request-0001" (pos 400) dispatch_made

dispatched-IsReachedBy : IsReachedBy dispatched
dispatched-IsReachedBy =
    IsReachedBy.called confirmed dispatched (operation_of dispatch_call) confirmed-IsReachedBy
      dispatch_step

apply_step : KioskStep dispatched applied (operation_of apply_call)
apply_step = KioskStep.receive receipt (pos 500) apply_made

reached-IsSound_example : IsSound dispatched
reached-IsSound_example = reached-IsSound dispatched dispatched-IsReachedBy

applied-IsSound : IsSound applied
applied-IsSound = reached-IsSound applied (
    IsReachedBy.called dispatched applied (operation_of apply_call) dispatched-IsReachedBy
      apply_step)

dispatched_known : kiosk_operation dispatched "op-1" ≡ ok (operation_of dispatch_call)
unfolding program kiosk_program
dispatched_known = refl

confirmed_known : kiosk_operation confirmed "op-1" ≡ ok (operation_of confirm_call)
unfolding program kiosk_program
confirmed_known = refl

applied_known : kiosk_operation applied "op-1" ≡ ok (operation_of apply_call)
unfolding program kiosk_program
applied_known = refl

abbrev waiting : KioskShowControlsTargetLedger
waiting = ledger_of (operation_of confirm_call)

abbrev flying : KioskShowControlsTargetLedger
flying = ledger_of (operation_of dispatch_call)

abbrev landed : KioskShowControlsTargetLedger
landed = ledger_of (operation_of apply_call)

waiting_at : target (operation_of confirm_call) "quest-1" ≡ ok waiting
unfolding program kiosk_program
waiting_at = refl

flying_at : target (operation_of dispatch_call) "quest-1" ≡ ok flying
unfolding program kiosk_program
flying_at = refl

landed_at : target (operation_of apply_call) "quest-1" ≡ ok landed
unfolding program kiosk_program
landed_at = refl

KioskStep-Refines_example : Kept dispatched "op-1" (operation_of confirm_call)
KioskStep-Refines_example =
    KioskStep-Refines confirmed dispatched (operation_of dispatch_call) "op-1"
      (reached-IsSound confirmed confirmed-IsReachedBy) dispatch_step confirmed_known

attempts_limited_example :
    (attempts_in_flight (operation_of dispatch_call).targets
      ≤ (operation_of dispatch_call).max_parallelism)
    × ((operation_of dispatch_call).max_parallelism ≤ 64)
    × ((operation_of dispatch_call).max_attempts_per_target ≤ 8)
    × All
        (IsWithin (operation_of dispatch_call).max_attempts_per_target)
        (operation_of dispatch_call).targets
attempts_limited_example =
    attempts_limited dispatched "op-1" dispatched-IsReachedBy dispatched_known

landed_applied : is_applied landed.lifecycle ≡ true
unfolding program kiosk_program
landed_applied = refl

applied_has_receipt_example : (r : KioskEffectiveReceipt) × IsProved "op-1" landed r
applied_has_receipt_example =
    applied_has_receipt applied "op-1" "quest-1" applied-IsSound applied_known landed_at
      landed_applied

landing : KioskRun dispatched applied
landing = KioskRun.via dispatched applied (operation_of apply_call) KioskRun.here apply_step

flying_begun : 0 < flying.attempt_count
unfolding program kiosk_program
flying_begun = omega arith

target_settles_example :
    (landed.preflight ≡ flying.preflight)
    × (landed.identity_revision ≡ flying.identity_revision)
    × ((moves : ℕ) × Moving
          (operation_of dispatch_call).max_attempts_per_target
          flying.lifecycle
          flying.attempt_count
          landed.lifecycle
          landed.attempt_count
          moves
        × (moves ≤ 3 * (operation_of dispatch_call).max_attempts_per_target + 3))
target_settles_example =
    target_settles dispatched applied "op-1" "quest-1" reached-IsSound_example landing
      dispatched_known applied_known flying_at landed_at

begun_never_cancelled_example :
    (flying.attempt_count ≤ landed.attempt_count) × (is_unattempted landed.lifecycle ≡ false)
begun_never_cancelled_example =
    begun_never_cancelled dispatched applied "op-1" "quest-1" reached-IsSound_example landing
      dispatched_known applied_known flying_at landed_at flying_begun

dispatch_replays_example :
    dispatch_kiosk_show_controls dispatched "op-1" "quest-1" "request-0001" (pos 400)
    ≡ ok (dispatched, operation_of dispatch_call)
dispatch_replays_example =
    dispatch_replays confirmed "op-1" "quest-1" "request-0001" (pos 400) dispatch_made

receipt_replays_example :
    apply_kiosk_show_controls_receipt applied receipt (pos 500)
    ≡ ok (applied, operation_of apply_call)
receipt_replays_example = receipt_replays dispatched receipt (pos 500) apply_made

-- The same call once more, computed.
receipt_again :
    apply_kiosk_show_controls_receipt applied receipt (pos 500)
    ≡ ok (applied, operation_of apply_call)
unfolding program kiosk_program
receipt_again = refl

again : KioskRun applied applied
again =
    KioskRun.via applied applied (operation_of apply_call) KioskRun.here
      (KioskStep.receive receipt (pos 500) receipt_again)

landed_final : is_final landed.lifecycle ≡ true
unfolding program kiosk_program
landed_final = refl

final_target_stays_example :
    (landed.lifecycle ≡ landed.lifecycle) × (landed.attempt_count ≡ landed.attempt_count)
final_target_stays_example =
    final_target_stays applied applied "op-1" "quest-1" applied-IsSound again applied_known
      applied_known landed_at landed_at landed_final

waiting_new : is_same_dispatch waiting "request-0001" ≡ false
unfolding program kiosk_program
waiting_new = refl

dispatch_only-IsReady_example :
    (r : DeviceRecord Json Stream) × (BTreeMap.get waiting.device_id confirmed.devices ≡ some r)
    × (r.observation.identity.identity_revision ≡ waiting.identity_revision)
    × IsReady (kiosk_preflight confirmed r (pos 400))
dispatch_only-IsReady_example =
    dispatch_only-IsReady confirmed "op-1" "quest-1" "request-0001" (pos 400)
      (reached-IsSound confirmed confirmed-IsReachedBy) confirmed_known waiting_at waiting_new
      dispatch_made

expected_eligibility_iff_example :
    (expected_eligibility waiting.preflight ≡ true) ↔ IsReady waiting.preflight
expected_eligibility_iff_example = expected_eligibility_iff waiting.preflight

flying_flies : is_inflight flying.lifecycle ≡ true
unfolding program kiosk_program
flying_flies = refl

flying_in_time : require_monotonic_time (operation_of dispatch_call) (pos 600) ≡ ok tt
unfolding program kiosk_program
flying_in_time = refl

timeout_given : is_blank "timeout" ≡ false
unfolding program
timeout_given = refl

answer_given : is_blank "no answer" ≡ false
unfolding program
answer_given = refl

attempt_can_end_example :
    Ends
      (fail_kiosk_show_controls dispatched "op-1" "quest-1" "timeout" "no answer" (pos 600))
      "quest-1"
      CommandLifecycle.failed
    × Ends
        (expire_kiosk_show_controls dispatched "op-1" "quest-1" "timeout" "no answer" (pos 600))
        "quest-1"
        CommandLifecycle.expired
attempt_can_end_example =
    attempt_can_end dispatched "op-1" "quest-1" "timeout" "no answer" (pos 600)
      reached-IsSound_example dispatched_known flying_at flying_flies flying_in_time timeout_given
      answer_given
