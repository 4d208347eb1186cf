-- ===== src/Contracts/KioskRequest.antt =====
-- crates/fleet-contracts/src/kiosk.rs: the requests to preview and to execute an operation.
use Prim.Native.String.{String}
use rusty_fleet.Prelude.{
  ℕ, ◌||◌, List, [], ◌∷◌, ◌++◌, ltb, ◌==◌, length, str_eq, is_empty, byte_len, not,
}
use rusty_fleet.BTreeMap.{BTreeMap}
use rusty_fleet.Contracts.Violation.{ContractViolation, Validation, violation_if, finish}
use rusty_fleet.Contracts.KioskOwner.{kiosk_show_controls_action_id}

pub record OperationPreviewRequest : Type 0 where
  pub schema : String
  pub action_id : String
  pub targets : BTreeMap String ℕ

-- The loop over the requested targets.
unfoldable pub request_target_failures : BTreeMap String ℕ → List ContractViolation
request_target_failures [] = []
request_target_failures ((device_id, identity_revision) ∷ rest) =
    violation_if (is_empty device_id || ltb 256 (byte_len device_id)) "invalid_device_id" "targets"
      "target device IDs contain 1 through 256 bytes"
    ++ (violation_if (identity_revision == 0) "invalid_identity_revision" "targets"
          "target identity revisions must be greater than zero"
        ++ request_target_failures rest)

unfoldable pub validate_preview_request : OperationPreviewRequest → Validation
validate_preview_request r = finish (
    violation_if (not (str_eq r.schema "rusty.fleet.operation_preview_request.v1")) "wrong_schema"
      "schema" "expected rusty.fleet.operation_preview_request.v1"
    ++ (violation_if (not (str_eq r.action_id kiosk_show_controls_action_id)) "wrong_action"
          "action_id" "expected kiosk.show-controls"
        ++ (violation_if (length r.targets == 0 || ltb 10000 (length r.targets))
              "invalid_target_count" "targets" "operation previews require 1 through 10000 targets"
            ++ request_target_failures r.targets)))

pub record OperationExecuteRequest : Type 0 where
  pub schema : String
  pub operation_id : String
  pub preview_id : String

abbrev identifier_failures : String → String → List ContractViolation
identifier_failures path value =
    violation_if (is_empty value || ltb 256 (byte_len value)) "invalid_identifier" path
      "operation and preview IDs contain 1 through 256 bytes"

unfoldable pub validate_execute_request : OperationExecuteRequest → Validation
validate_execute_request r = finish (
    violation_if (not (str_eq r.schema "rusty.fleet.operation_execute_request.v1")) "wrong_schema"
      "schema" "expected rusty.fleet.operation_execute_request.v1"
    ++ (identifier_failures "operation_id" r.operation_id
        ++ identifier_failures "preview_id" r.preview_id))
