-- ===== src/Hub/Kiosk/Preview.antt =====
-- crates/fleet-hub/src/kiosk.rs: the preview, which freezes the targets of a new operation.
use Prim.Native.String.{String, ◌++◌ as concat}
use rusty_fleet.Prelude.{
  ℕ, Bool, true, false, ◌&&◌, ◌||◌, none, some, List, [], ◌∷◌, map, ltb, leb, ◌==◌, if◌then◌else◌,
  ℤ, pos, ltb_ℤ, eq_ℤ, leb_ℤ, saturating_sub, length, Result, ok, err, ◌>>=◌, ◌>>◌, fail_if, str_eq,
  is_blank, decimal, byte_len, not,
}
use rusty_fleet.BTreeMap
use rusty_fleet.BTreeMap.{BTreeMap}
use rusty_fleet.Order.{text_ord}
use rusty_fleet.Contracts.Command.{CommandLifecycle}
use rusty_fleet.Contracts.Kiosk.{
  KioskShowControlsOperation, KioskShowControlsTargetLedger, KioskShowControlsTargetPreflight,
  KioskRetryDisposition, KioskCancelDisposition,
}
use rusty_fleet.Hub.State.{FleetHub, HubError}
use rusty_fleet.Hub.Kiosk.Guards.{hub_error, checked, ok_or}
use rusty_fleet.Contracts.KioskOwner.{show_controls_v1, kiosk_show_controls_action_id}
use rusty_fleet.Contracts.KioskRequest.{OperationPreviewRequest, validate_preview_request}
use rusty_fleet.Hub.Kiosk.Guards.{validate_operation, relifed}
use rusty_fleet.Hub.Kiosk.Preflight.{kiosk_preflight}

abbrev preview_max_lifetime_ms : ℤ
preview_max_lifetime_ms = pos 90000

abbrev pub max_kiosk_operations : ℕ
max_kiosk_operations = 1000

pub record KioskShowControlsPreviewPlan : Type 0 where
  pub operation_id : String
  pub preview_id : String
  pub request : OperationPreviewRequest
  pub created_at_ms : ℤ
  pub expires_at_ms : ℤ
  pub max_parallelism : ℕ
  pub max_attempts_per_target : ℕ

unfoldable pub validate_preview_plan : KioskShowControlsPreviewPlan → Result (Unit {0}) HubError
validate_preview_plan plan = do
  fail_if
      (is_blank plan.operation_id
        || (is_blank plan.preview_id
            || (ltb 256 (byte_len plan.operation_id) || ltb 256 (byte_len plan.preview_id))))
      (hub_error "kiosk_preview_id_invalid" "operation and preview IDs contain 1 through 256 bytes")
  checked (validate_preview_request plan.request) "kiosk_preview_request_invalid"
      "Kiosk operation preview request"
  fail_if
      (ltb_ℤ plan.created_at_ms (pos 0)
        || (leb_ℤ plan.expires_at_ms plan.created_at_ms
            || ltb_ℤ preview_max_lifetime_ms
                (saturating_sub plan.expires_at_ms plan.created_at_ms)))
      (hub_error "kiosk_preview_window_invalid"
        "Kiosk preview lifetime must be positive and no longer than 90 seconds")
  fail_if (plan.max_parallelism == 0 || ltb 64 plan.max_parallelism)
      (hub_error "kiosk_parallelism_invalid" "Kiosk operation parallelism must be between 1 and 64")
  fail_if (plan.max_attempts_per_target == 0 || ltb 8 plan.max_attempts_per_target) (
      hub_error "kiosk_attempt_limit_invalid"
        "Kiosk operation attempts per target must be between 1 and 8")

-- Equality of two such maps.
unfoldable pub same_targets : BTreeMap String ℕ → BTreeMap String ℕ → Bool
same_targets [] [] = true
same_targets ((i, n) ∷ a) ((j, m) ∷ b) =
    let rest = same_targets a b in str_eq i j && ((n == m) && rest)
same_targets [] (_ ∷ _) = false
same_targets (_ ∷ _) [] = false

-- The collected map of the devices and identity revisions.
unfoldable pub collect_targets :
    List KioskShowControlsTargetPreflight → BTreeMap String ℕ → BTreeMap String ℕ
collect_targets [] m = m
collect_targets (p ∷ ps) m = collect_targets ps (BTreeMap.insert p.device_id p.identity_revision m)

unfoldable pub plan_matches_operation :
    KioskShowControlsPreviewPlan → KioskShowControlsOperation → Bool
plan_matches_operation plan o =
    str_eq plan.operation_id o.operation_id
    && (str_eq plan.preview_id o.preview.preview_id
        && (eq_ℤ plan.created_at_ms o.created_at_ms
            && (eq_ℤ plan.expires_at_ms o.preview.expires_at_ms
                && (plan.max_parallelism == o.max_parallelism
                    && (plan.max_attempts_per_target == o.max_attempts_per_target
                        && (str_eq plan.request.action_id o.action_id
                            && same_targets plan.request.targets
                                (collect_targets o.preview.targets [])))))))

-- The ledger of a target before anything was done for it.
unfoldable pub initial_ledger : ℤ → KioskShowControlsTargetPreflight → KioskShowControlsTargetLedger
initial_ledger created_at_ms preflight =
    let eligible = preflight.eligible in
    record {
      device_id = preflight.device_id;
      identity_revision = preflight.identity_revision;
      preflight = preflight;
      lifecycle = if eligible then CommandLifecycle.proposed else CommandLifecycle.rejected;
      dispatched_at_ms = none;
      owner_deadline_at_ms = none;
      attempt_count = 0;
      owner_request_ids = [];
      owner_request_id = none;
      effective_receipt = none;
      retry_disposition = KioskRetryDisposition.not_eligible;
      cancel_disposition =
          if eligible
          then KioskCancelDisposition.cancelable_before_dispatch
          else KioskCancelDisposition.terminal;
      reason_code = if eligible then "preview_ready" else "preflight_excluded";
      message =
          if eligible
          then "Target is ready for explicit confirmation"
          else "Target was excluded by the frozen preflight";
      last_transition_ms = created_at_ms;
    }

-- The operation that is assembled from the plan, the Hub's revision and the frozen facts.
unfoldable pub planned_operation :
    KioskShowControlsPreviewPlan
    → ℕ
    → List KioskShowControlsTargetPreflight
    → KioskShowControlsOperation
unfolding initial_ledger
planned_operation plan fleet_revision preflights = record {
  schema = "rusty.fleet.kiosk_show_controls_operation.v1";
  operation_id = plan.operation_id;
  action_id = kiosk_show_controls_action_id;
  created_at_ms = plan.created_at_ms;
  preview = record {
    schema = "rusty.fleet.kiosk_show_controls_preview.v1";
    preview_id = plan.preview_id;
    operation_id = plan.operation_id;
    action_id = kiosk_show_controls_action_id;
    created_at_ms = plan.created_at_ms;
    expires_at_ms = plan.expires_at_ms;
    fleet_revision = fleet_revision;
    owner_contract = show_controls_v1;
    targets = preflights;
  };
  lifecycle = CommandLifecycle.proposed;
  max_parallelism = plan.max_parallelism;
  max_attempts_per_target = plan.max_attempts_per_target;
  cleanup_required = false;
  targets = map (initial_ledger plan.created_at_ms) preflights;
}

module _ {V S : Type 0} where
  -- The loop over the requested targets.
  unfoldable pub freeze_targets :
      FleetHub V S → ℤ → BTreeMap String ℕ → Result (List KioskShowControlsTargetPreflight) HubError
  freeze_targets hub created_at_ms [] = ok []
  freeze_targets hub created_at_ms ((device_id, identity_revision) ∷ rest) = do
    r ←
        ok_or (BTreeMap.get device_id hub.devices)
          (hub_error "kiosk_target_not_found" (concat "unknown Kiosk operation target " device_id))
    fail_if (not (r.observation.identity.identity_revision == identity_revision)) (
        hub_error "kiosk_target_identity_mismatch" (
          concat "target " (
            concat device_id (
              concat " identity revision changed from requested " (
                concat (decimal identity_revision)
                  (concat " to " (decimal r.observation.identity.identity_revision)))))))
    others ← freeze_targets hub created_at_ms rest
    ok (kiosk_preflight hub r created_at_ms ∷ others)

  -- The rest of the preview, for an operation ID that is not in use.
  unfoldable pub preview_new :
      FleetHub V S
      → KioskShowControlsPreviewPlan
      → Result (FleetHub V S × KioskShowControlsOperation) HubError
  preview_new hub plan = do
    preflights ← freeze_targets hub plan.created_at_ms plan.request.targets
    let operation = relifed (planned_operation plan hub.result_revision preflights)
    validate_operation operation
    fail_if (leb max_kiosk_operations (length hub.kiosk_operations)) (
        hub_error "kiosk_operation_limit_reached" "Fleet Hub retains at most 1000 Kiosk operations")
    ok (
      record hub {
        kiosk_operations = BTreeMap.insert plan.operation_id operation hub.kiosk_operations;
      },
      operation,
    )

  unfoldable pub preview_kiosk_show_controls :
      FleetHub V S
      → KioskShowControlsPreviewPlan
      → Result (FleetHub V S × KioskShowControlsOperation) HubError
  preview_kiosk_show_controls hub plan = do
    validate_preview_plan plan
    elim (BTreeMap.get plan.operation_id hub.kiosk_operations) [
      | some existing ↦
          if plan_matches_operation plan existing
          then ok (hub, existing)
          else err (
              hub_error "kiosk_operation_id_conflict"
                "operation ID already names a different immutable preview")
      | none ↦ preview_new hub plan
    ]
