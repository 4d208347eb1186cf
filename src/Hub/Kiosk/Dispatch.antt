-- ===== src/Hub/Kiosk/Dispatch.antt =====
-- crates/fleet-hub/src/kiosk.rs: the start of one owner attempt.
use Prim.Native.String.{String, ◌++◌ as concat}
use rusty_fleet.Prelude.{
  ℕ, ◌+◌, min, Bool, true, false, ◌&&◌, none, some, [], ◌∷◌, ◌++◌, leb, if◌then◌else◌, ℤ, ltb_ℤ,
  Result, ok, ◌>>=◌, ◌>>◌, fail_if, str_eq, decimal, option_eq, not,
}
use rusty_fleet.Order.{text_ord}
use rusty_fleet.Contracts.Command.{CommandLifecycle}
use rusty_fleet.Contracts.Kiosk.{
  KioskShowControlsOperation, KioskShowControlsTargetLedger, KioskRetryDisposition,
  KioskCancelDisposition,
}
use rusty_fleet.Hub.State.{FleetHub, HubError}
use rusty_fleet.Hub.Kiosk.Guards.{
  hub_error, kiosk_operation, target, target_mut, require_monotonic_time, store_operation,
}
use rusty_fleet.Contracts.KioskOwner.{is_owner_request_id}
use rusty_fleet.Contracts.KioskOperation.{inflight_count}
use rusty_fleet.Hub.Observe.{contains}
use rusty_fleet.Hub.Kiosk.Preflight.{require_target_current}

-- `matches!(lifecycle, Accepted | Failed | Expired)`.
abbrev pub is_dispatchable : CommandLifecycle → Bool
is_dispatchable CommandLifecycle.accepted = true
is_dispatchable CommandLifecycle.failed = true
is_dispatchable CommandLifecycle.expired = true
is_dispatchable _ = false

-- `matches!(lifecycle, Dispatched | Running | Applied)`.
abbrev pub is_begun : CommandLifecycle → Bool
is_begun CommandLifecycle.dispatched = true
is_begun CommandLifecycle.running = true
is_begun CommandLifecycle.applied = true
is_begun _ = false

-- `u8::saturating_add(1)`.
abbrev next_attempt : ℕ → ℕ
next_attempt n = min (n + 1) 255

unfoldable pub dispatched_ledger :
    String → ℤ → ℤ → ℕ → KioskShowControlsTargetLedger → KioskShowControlsTargetLedger
dispatched_ledger owner_request_id now_ms owner_deadline_at_ms max_attempts t = record t {
  attempt_count = next_attempt t.attempt_count;
  owner_request_ids = t.owner_request_ids ++ (owner_request_id ∷ []);
  owner_request_id = some owner_request_id;
  dispatched_at_ms = some now_ms;
  owner_deadline_at_ms = some owner_deadline_at_ms;
  effective_receipt = none;
  lifecycle = CommandLifecycle.dispatched;
  retry_disposition = KioskRetryDisposition.not_eligible;
  cancel_disposition = KioskCancelDisposition.not_cancelable_after_dispatch;
  reason_code = "owner_dispatch_started";
  message = concat "Kiosk owner attempt " (
      concat (decimal (next_attempt t.attempt_count))
        (concat " of " (concat (decimal max_attempts) " was dispatched")));
  last_transition_ms = now_ms;
}

abbrev pub is_same_dispatch : KioskShowControlsTargetLedger → String → Bool
is_same_dispatch t owner_request_id =
    is_begun t.lifecycle && option_eq str_eq t.owner_request_id (some owner_request_id)

-- The guards on the operation and the target, in their order. The Hub's own `is_owner_request_id` is
-- word for word that of the contract.
unfoldable pub dispatch_guards :
    KioskShowControlsOperation
    → KioskShowControlsTargetLedger
    → String
    → String
    → ℤ
    → Result (Unit {0}) HubError
dispatch_guards operation t device_id owner_request_id now_ms = do
  fail_if (ltb_ℤ operation.preview.expires_at_ms now_ms)
      (hub_error "kiosk_preview_expired" "Kiosk owner dispatch cannot begin after preview expiry")
  fail_if (not (is_dispatchable t.lifecycle)) (
      hub_error "kiosk_dispatch_state_invalid"
        (concat "target " (concat device_id " is not eligible for a new owner attempt")))
  fail_if (leb operation.max_attempts_per_target t.attempt_count) (
      hub_error "kiosk_attempt_limit_reached"
        (concat "target " (concat device_id " reached its bounded owner attempt limit")))
  fail_if (contains owner_request_id t.owner_request_ids) (
      hub_error "kiosk_owner_request_reused" "a retry must use a new Kiosk owner action request ID")
  fail_if (not (is_owner_request_id owner_request_id)) (
      hub_error "kiosk_owner_request_invalid"
        "Kiosk owner action request IDs contain 8 through 64 ASCII letters, digits, underscores, or hyphens")
  fail_if (leb operation.max_parallelism (inflight_count operation.targets)) (
      hub_error "kiosk_parallelism_limit_reached"
        "the operation already has its maximum number of owner attempts in flight")

module _ {V S : Type 0} where
  unfoldable pub dispatch_kiosk_show_controls :
      FleetHub V S
      → String
      → String
      → String
      → ℤ
      → Result (FleetHub V S × KioskShowControlsOperation) HubError
  dispatch_kiosk_show_controls hub operation_id device_id owner_request_id now_ms = do
    operation ← kiosk_operation hub operation_id
    require_monotonic_time operation now_ms
    t ← target operation device_id
    if is_same_dispatch t owner_request_id then ok (hub, operation) else do
      dispatch_guards operation t device_id owner_request_id now_ms
      require_target_current hub t now_ms
      updated ← target_mut operation device_id (
          dispatched_ledger owner_request_id now_ms operation.preview.expires_at_ms
            operation.max_attempts_per_target)
      store_operation hub operation_id updated
