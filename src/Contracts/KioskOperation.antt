-- ===== src/Contracts/KioskOperation.antt =====
-- crates/fleet-contracts/src/kiosk.rs: the contract of a show-controls operation.
use Prim.Native.String.{String, compare as compare_text}
use rusty_fleet.Contracts.KioskEquality.{same_preflight}
use rusty_fleet.Prelude.{
  ℕ, suc, Bool, ◌||◌, Option, none, some, List, [], ◌∷◌, ◌++◌, ltb, ◌==◌, is_some_and, is_none_or,
  eq_ℤ, length, filter, str_eq, not,
}
use rusty_fleet.BTreeMap
use rusty_fleet.BTreeMap.{BTreeMap, collect_set}
use rusty_fleet.Order.{is_lt, text_ord}
use rusty_fleet.Contracts.Violation.{
  ContractViolation, Validation, violation_if, require_nonempty, groups, finish, failures_of,
  prefixed,
}
use rusty_fleet.Contracts.Kiosk.{
  KioskShowControlsTargetPreflight, KioskShowControlsTargetLedger, KioskShowControlsOperation,
  is_inflight, derived_lifecycle,
}
use rusty_fleet.Contracts.KioskOwner.{kiosk_show_controls_action_id}
use rusty_fleet.Contracts.KioskPreview.{validate_preview, target_path}
use rusty_fleet.Contracts.KioskLedger.{same_lifecycle, is_cleanup, validate_for_operation}

-- The map of the preview's targets by their device; of two with one device the later is kept.
abbrev pub preview_map :
    List KioskShowControlsTargetPreflight
    → BTreeMap String KioskShowControlsTargetPreflight
    → BTreeMap String KioskShowControlsTargetPreflight
preview_map [] m = m
preview_map (p ∷ ps) m = preview_map ps (BTreeMap.insert p.device_id p m)

abbrev pub is_preflight_changed :
    BTreeMap String KioskShowControlsTargetPreflight → KioskShowControlsTargetLedger → Bool
is_preflight_changed m t =
    is_none_or (BTreeMap.get t.device_id m) (λ p. not (same_preflight p t.preflight))

-- The loop over the targets of an operation, with the device of the one before.
unfoldable pub operation_target_failures :
    KioskShowControlsOperation
    → Option String
    → ℕ
    → List KioskShowControlsTargetLedger
    → List ContractViolation
operation_target_failures o prior index [] = []
operation_target_failures o prior index (t ∷ ts) =
    prefixed (target_path index "") (
      failures_of (
        validate_for_operation o.operation_id o.max_attempts_per_target o.preview.created_at_ms
          o.preview.expires_at_ms t))
    ++ (violation_if (is_preflight_changed (preview_map o.preview.targets []) t)
          "preview_target_mismatch" (target_path index "preflight")
          "target ledger must preserve its complete immutable preview preflight"
        ++ (violation_if (is_some_and prior (λ p. not (is_lt (compare_text p t.device_id))))
              "noncanonical_targets" (target_path index "device_id")
              "operation targets must remain unique and sorted by device_id"
            ++ operation_target_failures o (some t.device_id) (suc index) ts))

abbrev pub inflight_count : List KioskShowControlsTargetLedger → ℕ
inflight_count targets = length (filter (λ t. is_inflight t.lifecycle) targets)

unfoldable pub operation_groups : KioskShowControlsOperation → List (List ContractViolation)
operation_groups o =
    violation_if (not (str_eq o.schema "rusty.fleet.kiosk_show_controls_operation.v1"))
      "wrong_schema" "schema" "expected rusty.fleet.kiosk_show_controls_operation.v1"
    ∷ require_nonempty o.operation_id "operation_id"
    ∷ violation_if (not (str_eq o.action_id kiosk_show_controls_action_id)) "wrong_action"
        "action_id" "expected kiosk.show-controls"
    ∷ violation_if o.cleanup_required "cleanup_forbidden" "cleanup_required"
        "show-controls creates no temporary effect and requires no cleanup"
    ∷ violation_if (o.max_parallelism == 0 || ltb 64 o.max_parallelism) "invalid_parallelism"
        "max_parallelism" "show-controls dispatch parallelism must be between 1 and 64"
    ∷ violation_if (o.max_attempts_per_target == 0 || ltb 8 o.max_attempts_per_target)
        "invalid_attempt_limit" "max_attempts_per_target"
        "show-controls permits 1 through 8 explicitly bounded attempts per target"
    ∷ violation_if (is_cleanup o.lifecycle) "cleanup_forbidden" "lifecycle"
        "show-controls operation lifecycle never enters cleanup"
    ∷ prefixed "preview." (failures_of (validate_preview o.preview))
    ∷ violation_if
        (not (str_eq o.preview.operation_id o.operation_id)
          || (not (str_eq o.preview.action_id o.action_id)
              || not (eq_ℤ o.preview.created_at_ms o.created_at_ms)))
        "preview_binding_mismatch" "preview"
        "operation must retain the exact preview identity, action, and creation time"
    ∷ violation_if (not (length o.targets == length o.preview.targets)) "preview_target_mismatch"
        "targets" "ledger must retain exactly one target for every frozen preview target"
    ∷ operation_target_failures o none 0 o.targets
    ∷ violation_if (not (same_lifecycle o.lifecycle (derived_lifecycle o)))
        "operation_lifecycle_mismatch" "lifecycle"
        "operation lifecycle must be derived from the frozen eligible target ledgers"
    ∷ violation_if (ltb o.max_parallelism (inflight_count o.targets))
        "operation_parallelism_exceeded" "targets"
        "in-flight target count must not exceed the frozen operation parallelism"
    ∷ []

-- `impl ValidateContract for KioskShowControlsOperation`.
unfoldable pub validate_kiosk_operation : KioskShowControlsOperation → Validation
validate_kiosk_operation o = finish (groups (operation_groups o))
