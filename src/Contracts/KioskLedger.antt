-- ===== src/Contracts/KioskLedger.antt =====
-- crates/fleet-contracts/src/kiosk.rs: the contract of a target's ledger and of the whole operation.
use Prim.Native.String.{String}
use rusty_fleet.Prelude.{
  ℕ, ◌≡◌, Bool, true, false, ◌&&◌, ◌||◌, Option, none, some, List, [], ◌∷◌, ◌++◌, arith, ltb, ◌==◌,
  bool_eq, is_some, is_none, is_some_and, ℤ, ltb_ℤ, leb_ℤ, length, any, last, str_eq, option_eq,
  not,
}
use rusty_fleet.BTreeMap.{collect_set}
use rusty_fleet.Order.{text_ord}
use rusty_fleet.Contracts.Violation.{
  ContractViolation, Validation, violation_if, require_nonempty, groups, finish, failures_of,
  prefixed,
}
use rusty_fleet.Contracts.Command.{CommandLifecycle}
use rusty_fleet.Contracts.Kiosk.{
  KioskEffectiveReceipt, KioskRetryDisposition, KioskCancelDisposition,
  KioskShowControlsTargetLedger,
}
use rusty_fleet.Contracts.KioskOwner.{is_owner_request_id, validate_effective_receipt}
use rusty_fleet.Contracts.KioskPreview.{validate_preflight}

-- The place of a lifecycle in the enumeration, and equality by it.
abbrev lifecycle_rank : CommandLifecycle → ℕ
lifecycle_rank CommandLifecycle.proposed = 0
lifecycle_rank CommandLifecycle.accepted = 1
lifecycle_rank CommandLifecycle.rejected = 2
lifecycle_rank CommandLifecycle.dispatched = 3
lifecycle_rank CommandLifecycle.running = 4
lifecycle_rank CommandLifecycle.applied = 5
lifecycle_rank CommandLifecycle.failed = 6
lifecycle_rank CommandLifecycle.expired = 7
lifecycle_rank CommandLifecycle.cancellation_requested = 8
lifecycle_rank CommandLifecycle.cancelled = 9
lifecycle_rank CommandLifecycle.cleanup_pending = 10
lifecycle_rank CommandLifecycle.cleaned = 11

abbrev pub same_lifecycle : CommandLifecycle → CommandLifecycle → Bool
same_lifecycle a b = lifecycle_rank a == lifecycle_rank b

pub same_lifecycle_eq : (a b : CommandLifecycle) → same_lifecycle a b ≡ true → a ≡ b
same_lifecycle_eq a b h = ground arith

abbrev pub is_retry_eligible : KioskRetryDisposition → Bool
is_retry_eligible KioskRetryDisposition.not_eligible = false
is_retry_eligible KioskRetryDisposition.new_owner_request_required = true

abbrev cancel_rank : KioskCancelDisposition → ℕ
cancel_rank KioskCancelDisposition.cancelable_before_dispatch = 0
cancel_rank KioskCancelDisposition.cancellation_requested_before_dispatch = 1
cancel_rank KioskCancelDisposition.cancelled_before_dispatch = 2
cancel_rank KioskCancelDisposition.not_cancelable_after_dispatch = 3
cancel_rank KioskCancelDisposition.terminal = 4

abbrev pub same_cancel : KioskCancelDisposition → KioskCancelDisposition → Bool
same_cancel a b = cancel_rank a == cancel_rank b

abbrev pub is_cleanup : CommandLifecycle → Bool
is_cleanup CommandLifecycle.cleanup_pending = true
is_cleanup CommandLifecycle.cleaned = true
is_cleanup _ = false

-- Some trace of an owner attempt is left, or a disposition differs from the one that is expected.
abbrev pub shows_attempt : KioskShowControlsTargetLedger → KioskCancelDisposition → Bool
shows_attempt t cancel =
    not (t.attempt_count == 0)
    || (is_some t.dispatched_at_ms
        || (is_some t.owner_deadline_at_ms
            || (is_some t.owner_request_id
                || (is_some t.effective_receipt
                    || (is_retry_eligible t.retry_disposition
                        || not (same_cancel t.cancel_disposition cancel))))))

-- Some trace of the owner attempt is missing.
abbrev pub lacks_attempt : KioskShowControlsTargetLedger → Bool
lacks_attempt t =
    t.attempt_count == 0
    || (is_none t.dispatched_at_ms
        || (is_none t.owner_deadline_at_ms || is_none t.owner_request_id))

abbrev pub is_inflight_invalid : KioskShowControlsTargetLedger → Bool
is_inflight_invalid t =
    lacks_attempt t
    || (is_some t.effective_receipt
        || (is_retry_eligible t.retry_disposition
            || not (
                same_cancel t.cancel_disposition
                  KioskCancelDisposition.not_cancelable_after_dispatch)))

abbrev pub is_applied_invalid : KioskShowControlsTargetLedger → Bool
is_applied_invalid t =
    lacks_attempt t
    || (is_none t.effective_receipt
        || (is_retry_eligible t.retry_disposition
            || (not (same_cancel t.cancel_disposition KioskCancelDisposition.terminal)
                || not (str_eq t.reason_code "owner_effective_receipt"))))

abbrev pub is_ended_invalid : ℕ → KioskShowControlsTargetLedger → Bool
is_ended_invalid max_attempts t =
    lacks_attempt t
    || (is_some t.effective_receipt
        || (not (bool_eq (is_retry_eligible t.retry_disposition) (ltb t.attempt_count max_attempts))
            || not (same_cancel t.cancel_disposition KioskCancelDisposition.terminal)))

abbrev inflight_failures : ℕ → KioskShowControlsTargetLedger → List ContractViolation
inflight_failures max_attempts t =
    violation_if (is_inflight_invalid t) "invalid_inflight_state" "lifecycle"
      "dispatched show-controls cannot be cancelled or retried while owner readback is pending"

abbrev ended_failures : ℕ → KioskShowControlsTargetLedger → List ContractViolation
ended_failures max_attempts t =
    violation_if (is_ended_invalid max_attempts t) "unsafe_retry" "retry_disposition"
      "failed or expired targets may retry only below the attempt limit and always require a new owner request ID"

abbrev waiting_failures : KioskShowControlsTargetLedger → List ContractViolation
waiting_failures t =
    violation_if (shows_attempt t KioskCancelDisposition.cancelable_before_dispatch)
      "invalid_pre_dispatch_state" "lifecycle"
      "eligible pre-dispatch targets are cancelable and have no owner request or receipt"

-- The `match` on the lifecycle of an eligible target.
unfoldable pub lifecycle_failures :
    CommandLifecycle → ℕ → KioskShowControlsTargetLedger → List ContractViolation
lifecycle_failures CommandLifecycle.proposed max_attempts t = waiting_failures t
lifecycle_failures CommandLifecycle.accepted max_attempts t = waiting_failures t
lifecycle_failures CommandLifecycle.cancellation_requested max_attempts t =
    violation_if (shows_attempt t KioskCancelDisposition.cancellation_requested_before_dispatch)
      "unsafe_cancellation" "cancel_disposition"
      "show-controls cancellation may be requested only before dispatch"
lifecycle_failures CommandLifecycle.cancelled max_attempts t =
    violation_if (shows_attempt t KioskCancelDisposition.cancelled_before_dispatch)
      "unsafe_cancellation" "cancel_disposition"
      "cancelled show-controls targets must prove no owner dispatch occurred"
lifecycle_failures CommandLifecycle.dispatched max_attempts t = inflight_failures max_attempts t
lifecycle_failures CommandLifecycle.running max_attempts t = inflight_failures max_attempts t
lifecycle_failures CommandLifecycle.applied max_attempts t =
    violation_if (is_applied_invalid t) "applied_without_effective_receipt" "effective_receipt"
      "applied show-controls requires one matching effective Kiosk owner receipt"
lifecycle_failures CommandLifecycle.failed max_attempts t = ended_failures max_attempts t
lifecycle_failures CommandLifecycle.expired max_attempts t = ended_failures max_attempts t
lifecycle_failures CommandLifecycle.rejected max_attempts t =
    violation_if true "eligible_target_rejected" "lifecycle"
      "eligible targets cannot use the ineligible rejection state"
lifecycle_failures CommandLifecycle.cleanup_pending max_attempts t = []
lifecycle_failures CommandLifecycle.cleaned max_attempts t = []

-- What is checked of the receipt, if there is one.
abbrev pub is_receipt_unbound :
    String → KioskShowControlsTargetLedger → KioskEffectiveReceipt → Bool
is_receipt_unbound operation_id t receipt =
    not (str_eq receipt.operation_id operation_id)
    || (not (str_eq receipt.device_id t.device_id)
        || (not (receipt.identity_revision == t.identity_revision)
            || not (option_eq str_eq t.owner_request_id (some receipt.owner_action_request_id))))

unfoldable pub receipt_failures :
    String → KioskShowControlsTargetLedger → Option KioskEffectiveReceipt → List ContractViolation
receipt_failures operation_id t none = []
receipt_failures operation_id t (some receipt) =
    prefixed "effective_receipt." (failures_of (validate_effective_receipt receipt))
    ++ violation_if (is_receipt_unbound operation_id t receipt) "effective_receipt_binding_mismatch"
        "effective_receipt"
        "effective owner receipt must bind the exact operation, target identity, and current owner request"

-- The checks from the eligibility of the target on.
unfoldable pub state_failures :
    Bool → String → ℕ → KioskShowControlsTargetLedger → List ContractViolation
state_failures false operation_id max_attempts t =
    violation_if
      (not (same_lifecycle t.lifecycle CommandLifecycle.rejected)
        || shows_attempt t KioskCancelDisposition.terminal)
      "ineligible_target_dispatched" "lifecycle"
      "an ineligible target must remain rejected without dispatch, retry, cancellation, or receipt"
state_failures true operation_id max_attempts t =
    lifecycle_failures t.lifecycle max_attempts t
    ++ receipt_failures operation_id t t.effective_receipt

abbrev pub is_dispatch_outside : ℤ → ℤ → ℤ → Option ℤ → Bool
is_dispatch_outside created expires latest dispatched =
    is_some_and dispatched
      (λ timestamp. ltb_ℤ timestamp created || (ltb_ℤ expires timestamp || ltb_ℤ latest timestamp))

abbrev pub is_deadline_valid : ℤ → Option ℤ → Option ℤ → Bool
is_deadline_valid expires none none = true
is_deadline_valid expires (some dispatched) (some deadline) =
    ltb_ℤ dispatched deadline && leb_ℤ deadline expires
is_deadline_valid expires none (some deadline) = false
is_deadline_valid expires (some dispatched) none = false

unfoldable pub ledger_groups :
    String → ℕ → ℤ → ℤ → KioskShowControlsTargetLedger → List (List ContractViolation)
ledger_groups operation_id max_attempts created expires t =
    require_nonempty t.device_id "device_id"
    ∷ require_nonempty t.reason_code "reason_code"
    ∷ require_nonempty t.message "message"
    ∷ failures_of (validate_preflight t.preflight)
    ∷ violation_if
        (not (str_eq t.device_id t.preflight.device_id)
          || not (t.identity_revision == t.preflight.identity_revision))
        "ledger_preflight_mismatch" "preflight"
        "target ledger identity must match its frozen preflight"
    ∷ violation_if (ltb max_attempts t.attempt_count) "attempt_limit_exceeded" "attempt_count"
        "target attempt count exceeds the operation maximum"
    ∷ violation_if (is_dispatch_outside created expires t.last_transition_ms t.dispatched_at_ms)
        "dispatch_outside_preview" "dispatched_at_ms"
        "owner dispatch must occur inside the immutable preview window and before the latest transition"
    ∷ violation_if (not (is_deadline_valid expires t.dispatched_at_ms t.owner_deadline_at_ms))
        "invalid_owner_deadline" "owner_deadline_at_ms"
        "every owner dispatch retains one absolute deadline after dispatch and no later than preview expiry"
    ∷ violation_if
        (not (length t.owner_request_ids == t.attempt_count)
          || ltb max_attempts (length t.owner_request_ids))
        "attempt_history_mismatch" "owner_request_ids"
        "attempt history must contain exactly one owner request ID per attempt"
    ∷ violation_if
        (not (length (collect_set t.owner_request_ids) == length t.owner_request_ids)
          || any (λ request_id. not (is_owner_request_id request_id)) t.owner_request_ids)
        "owner_request_reused" "owner_request_ids"
        "every retry must use one new valid Kiosk owner request ID"
    ∷ violation_if
        (is_some_and t.owner_request_id (λ request_id. not (is_owner_request_id request_id)))
        "invalid_owner_request_id" "owner_request_id"
        "owner request ID does not satisfy the Kiosk v1 contract"
    ∷ violation_if (not (option_eq str_eq t.owner_request_id (last t.owner_request_ids)))
        "current_attempt_mismatch" "owner_request_id"
        "current owner request ID must equal the final request in attempt history"
    ∷ violation_if (is_cleanup t.lifecycle) "cleanup_forbidden" "lifecycle"
        "show-controls has no temporary effect and never enters cleanup"
    ∷ state_failures t.preflight.eligible operation_id max_attempts t
    ∷ []

-- `validate_for_operation`.
unfoldable pub validate_for_operation :
    String → ℕ → ℤ → ℤ → KioskShowControlsTargetLedger → Validation
validate_for_operation operation_id max_attempts created expires t =
    finish (groups (ledger_groups operation_id max_attempts created expires t))
