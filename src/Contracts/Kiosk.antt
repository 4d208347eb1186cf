-- ===== src/Contracts/Kiosk.antt =====
-- crates/fleet-contracts/src/kiosk.rs: the record of a show-controls operation and its lifecycle.
use Prim.Native.String.{String}
use rusty_fleet.Prelude.{
  ℕ, Bool, true, false, Option, List, [], ◌∷◌, if◌then◌else◌, ℤ, any, all, filter,
}
use rusty_fleet.Contracts.Capability.{
  SupportState, EnablementState, AuthorizationState, ReachabilityState, FreshnessState,
}
use rusty_fleet.Contracts.Command.{CommandLifecycle}

pub record KioskOwnerContractBinding : Type 0 where
  pub owner_repo_id : String
  pub owner_contract_schema : String
  pub owner_contract_revision : String
  pub capability_id : String
  pub request_auth : String
  pub response_auth : String
  pub invoke_method : String
  pub invoke_target : String
  pub result_method : String
  pub result_target : String
  pub result_request_id_parameter : String
  pub port : ℕ
  pub max_clock_skew_seconds : ℕ
  pub command : String
  pub command_value : Option String
  pub owner_result_schema : String

pub record KioskShowControlsTargetPreflight : Type 0 where
  pub device_id : String
  pub identity_revision : ℕ
  pub capability_id : String
  pub capability_evidence_revision : ℕ
  pub capability_owner : String
  pub support : SupportState
  pub enablement : EnablementState
  pub authorization : AuthorizationState
  pub reachability : ReachabilityState
  pub freshness : FreshnessState
  pub observed_at_ms : ℤ
  pub fresh_until_ms : ℤ
  pub evaluated_at_ms : ℤ
  pub eligible : Bool
  pub reason_code : String
  pub message : String

pub record KioskShowControlsPreview : Type 0 where
  pub schema : String
  pub preview_id : String
  pub operation_id : String
  pub action_id : String
  pub created_at_ms : ℤ
  pub expires_at_ms : ℤ
  pub fleet_revision : ℕ
  pub owner_contract : KioskOwnerContractBinding
  pub targets : List KioskShowControlsTargetPreflight

pub data KioskRetryDisposition : Type 0 where
  not_eligible new_owner_request_required : KioskRetryDisposition

pub data KioskCancelDisposition : Type 0 where
  cancelable_before_dispatch cancellation_requested_before_dispatch : KioskCancelDisposition
  cancelled_before_dispatch not_cancelable_after_dispatch terminal : KioskCancelDisposition

pub record KioskEffectiveReceipt : Type 0 where
  pub schema : String
  pub receipt_id : String
  pub operation_id : String
  pub device_id : String
  pub identity_revision : ℕ
  pub owner_contract : KioskOwnerContractBinding
  pub owner_action_request_id : String
  pub owner_result_transport_request_id : String
  pub owner_command : String
  pub response_status : ℕ
  pub response_content_sha256 : String
  pub response_signature : String
  pub response_auth_verified : Bool
  pub owner_result_schema : String
  pub owner_accepted : Bool
  pub owner_completed : Bool
  pub owner_recorded_at_ms : ℤ
  pub controls_open : Bool
  pub wrapped_at_ms : ℤ

pub record KioskShowControlsTargetLedger : Type 0 where
  pub device_id : String
  pub identity_revision : ℕ
  pub preflight : KioskShowControlsTargetPreflight
  pub lifecycle : CommandLifecycle
  pub dispatched_at_ms : Option ℤ
  pub owner_deadline_at_ms : Option ℤ
  pub attempt_count : ℕ
  pub owner_request_ids : List String
  pub owner_request_id : Option String
  pub effective_receipt : Option KioskEffectiveReceipt
  pub retry_disposition : KioskRetryDisposition
  pub cancel_disposition : KioskCancelDisposition
  pub reason_code : String
  pub message : String
  pub last_transition_ms : ℤ

pub record KioskShowControlsOperation : Type 0 where
  pub schema : String
  pub operation_id : String
  pub action_id : String
  pub created_at_ms : ℤ
  pub preview : KioskShowControlsPreview
  pub lifecycle : CommandLifecycle
  pub max_parallelism : ℕ
  pub max_attempts_per_target : ℕ
  pub cleanup_required : Bool
  pub targets : List KioskShowControlsTargetLedger

abbrev pub is_inflight : CommandLifecycle → Bool
is_inflight CommandLifecycle.dispatched = true
is_inflight CommandLifecycle.running = true
is_inflight _ = false

abbrev pub is_cancellation_requested : CommandLifecycle → Bool
is_cancellation_requested CommandLifecycle.cancellation_requested = true
is_cancellation_requested _ = false

abbrev pub is_proposed : CommandLifecycle → Bool
is_proposed CommandLifecycle.proposed = true
is_proposed _ = false

abbrev pub is_accepted : CommandLifecycle → Bool
is_accepted CommandLifecycle.accepted = true
is_accepted _ = false

abbrev pub is_applied : CommandLifecycle → Bool
is_applied CommandLifecycle.applied = true
is_applied _ = false

abbrev pub is_cancelled : CommandLifecycle → Bool
is_cancelled CommandLifecycle.cancelled = true
is_cancelled _ = false

abbrev pub is_expired : CommandLifecycle → Bool
is_expired CommandLifecycle.expired = true
is_expired _ = false

-- `KioskShowControlsOperation::derived_lifecycle`, over the eligible targets.
unfoldable pub lifecycle_of_eligible : List KioskShowControlsTargetLedger → CommandLifecycle
lifecycle_of_eligible [] = CommandLifecycle.rejected
lifecycle_of_eligible (t ∷ ts) =
    let eligible = t ∷ ts in
    if any (λ x. is_inflight x.lifecycle) eligible
    then CommandLifecycle.running
    else if any (λ x. is_cancellation_requested x.lifecycle) eligible
    then CommandLifecycle.cancellation_requested
    else if any (λ x. is_proposed x.lifecycle) eligible
    then CommandLifecycle.proposed
    else if any (λ x. is_accepted x.lifecycle) eligible
    then CommandLifecycle.accepted
    else if all (λ x. is_applied x.lifecycle) eligible
    then CommandLifecycle.applied
    else if all (λ x. is_cancelled x.lifecycle) eligible
    then CommandLifecycle.cancelled
    else if all (λ x. is_expired x.lifecycle) eligible
    then CommandLifecycle.expired
    else CommandLifecycle.failed

unfoldable pub derived_lifecycle : KioskShowControlsOperation → CommandLifecycle
unfolding lifecycle_of_eligible
derived_lifecycle operation =
    lifecycle_of_eligible (filter (λ t. t.preflight.eligible) operation.targets)
