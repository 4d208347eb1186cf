-- ===== src/Contracts/KioskPreview.antt =====
-- crates/fleet-contracts/src/kiosk.rs: the frozen preflight of a target and the immutable preview.
use Prim.Native.String.{String, ◌++◌ as concat, compare as compare_text}
use rusty_fleet.Prelude.{
  ℕ, suc, Bool, ◌||◌, Option, none, some, List, [], ◌∷◌, ◌++◌, ltb, ◌==◌, if◌then◌else◌, bool_eq,
  is_some_and, ℤ, ltb_ℤ, leb_ℤ, length, str_eq, decimal, not,
}
use rusty_fleet.Order.{is_lt}
use rusty_fleet.Contracts.Violation.{
  ContractViolation, Validation, violation_if, require_nonempty, groups, finish, failures_of,
  prefixed,
}
use rusty_fleet.Contracts.Capability.{
  SupportState, EnablementState, AuthorizationState, ReachabilityState, FreshnessState,
}
use rusty_fleet.Contracts.Kiosk.{KioskShowControlsTargetPreflight, KioskShowControlsPreview}
use rusty_fleet.Contracts.KioskOwner.{
  kiosk_show_controls_action_id, kiosk_direct_operator_capability_id, kiosk_direct_operator_owner,
  validate_owner_contract,
}

-- The nested matches of `expected_reason_code`, from the inside.
abbrev pub freshness_reason : FreshnessState → Bool → String
freshness_reason FreshnessState.current in_time = if in_time then "ready" else "stale"
freshness_reason FreshnessState.stale in_time = "stale"
freshness_reason FreshnessState.unknown in_time = "freshness_unknown"

abbrev pub reachability_reason : ReachabilityState → String → String
reachability_reason ReachabilityState.reachable inner = inner
reachability_reason ReachabilityState.disconnected inner = "disconnected"
reachability_reason ReachabilityState.unavailable inner = "unavailable"
reachability_reason ReachabilityState.unknown inner = "reachability_unknown"

abbrev pub authorization_reason : AuthorizationState → String → String
authorization_reason AuthorizationState.authorized inner = inner
authorization_reason AuthorizationState.unauthorized inner = "unauthorized"
authorization_reason AuthorizationState.restricted inner = "restricted"
authorization_reason AuthorizationState.unknown inner = "authorization_unknown"

abbrev pub enablement_reason : EnablementState → String → String
enablement_reason EnablementState.enabled inner = inner
enablement_reason EnablementState.disabled inner = "disabled"
enablement_reason EnablementState.unknown inner = "enablement_unknown"

abbrev pub support_reason : SupportState → String → String
support_reason SupportState.supported inner = inner
support_reason SupportState.unsupported inner = "unsupported"
support_reason SupportState.unknown inner = "support_unknown"

unfoldable pub expected_reason_code : KioskShowControlsTargetPreflight → String
expected_reason_code p = support_reason p.support (
    enablement_reason p.enablement (
      authorization_reason p.authorization (
        reachability_reason p.reachability
          (freshness_reason p.freshness (leb_ℤ p.evaluated_at_ms p.fresh_until_ms)))))

unfoldable pub expected_eligibility : KioskShowControlsTargetPreflight → Bool
expected_eligibility p = str_eq (expected_reason_code p) "ready"

unfoldable pub preflight_groups : KioskShowControlsTargetPreflight → List (List ContractViolation)
preflight_groups p =
    require_nonempty p.device_id "device_id"
    ∷ require_nonempty p.reason_code "reason_code"
    ∷ require_nonempty p.message "message"
    ∷ violation_if (p.identity_revision == 0) "invalid_identity_revision" "identity_revision"
        "identity revision must be greater than zero"
    ∷ violation_if (p.capability_evidence_revision == 0) "invalid_capability_revision"
        "capability_evidence_revision" "capability evidence revision must be greater than zero"
    ∷ violation_if
        (not (str_eq p.capability_id kiosk_direct_operator_capability_id)
          || not (str_eq p.capability_owner kiosk_direct_operator_owner))
        "wrong_capability_owner" "capability_id"
        "show-controls preflight must use the Kiosk-owned direct-operator capability"
    ∷ violation_if
        (ltb_ℤ p.fresh_until_ms p.observed_at_ms || ltb_ℤ p.evaluated_at_ms p.observed_at_ms)
        "invalid_preflight_window" "evaluated_at_ms"
        "preflight evaluation must follow observation and use a coherent freshness window"
    ∷ violation_if
        (not (bool_eq p.eligible (expected_eligibility p))
          || not (str_eq p.reason_code (expected_reason_code p)))
        "preflight_result_mismatch" "eligible"
        "preflight eligibility and reason must match the exact capability facts"
    ∷ []

unfoldable pub validate_preflight : KioskShowControlsTargetPreflight → Validation
validate_preflight p = finish (groups (preflight_groups p))

abbrev pub target_path : ℕ → String → String
target_path index field = concat "targets[" (concat (decimal index) (concat "]." field))

-- The loop over the targets of a preview, with the device of the one before.
unfoldable pub preview_target_failures :
    ℤ → ℤ → Option String → ℕ → List KioskShowControlsTargetPreflight → List ContractViolation
preview_target_failures created expires prior index [] = []
preview_target_failures created expires prior index (t ∷ ts) =
    prefixed (target_path index "") (failures_of (validate_preflight t))
    ++ (violation_if (ltb_ℤ t.evaluated_at_ms created || ltb_ℤ expires t.evaluated_at_ms)
          "preflight_outside_preview" (target_path index "evaluated_at_ms")
          "preflight evaluation must occur inside the immutable preview window"
        ++ (violation_if (is_some_and prior (λ p. not (is_lt (compare_text p t.device_id))))
              "noncanonical_targets" (target_path index "device_id")
              "preview targets must be unique and sorted by device_id"
            ++ preview_target_failures created expires (some t.device_id) (suc index) ts))

unfoldable pub preview_groups : KioskShowControlsPreview → List (List ContractViolation)
preview_groups p =
    violation_if (not (str_eq p.schema "rusty.fleet.kiosk_show_controls_preview.v1")) "wrong_schema"
      "schema" "expected rusty.fleet.kiosk_show_controls_preview.v1"
    ∷ require_nonempty p.preview_id "preview_id"
    ∷ require_nonempty p.operation_id "operation_id"
    ∷ violation_if (not (str_eq p.action_id kiosk_show_controls_action_id)) "wrong_action"
        "action_id" "expected kiosk.show-controls"
    ∷ violation_if (leb_ℤ p.expires_at_ms p.created_at_ms) "invalid_expiry" "expires_at_ms"
        "preview expiry must follow creation"
    ∷ violation_if (p.fleet_revision == 0) "invalid_revision" "fleet_revision"
        "Fleet revision must be greater than zero"
    ∷ violation_if (length p.targets == 0 || ltb 10000 (length p.targets)) "invalid_target_count"
        "targets" "show-controls previews require 1 through 10000 targets"
    ∷ failures_of (validate_owner_contract p.owner_contract)
    ∷ preview_target_failures p.created_at_ms p.expires_at_ms none 0 p.targets
    ∷ []

unfoldable pub validate_preview : KioskShowControlsPreview → Validation
validate_preview p = finish (groups (preview_groups p))
