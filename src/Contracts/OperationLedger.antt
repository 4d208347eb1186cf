-- ===== src/Contracts/OperationLedger.antt =====
-- crates/fleet-contracts/src/command.rs: the frozen targets of a generic operation and its ledger.
use Prim.Native.String.{String, ◌++◌ as concat}
use rusty_fleet.Prelude.{
  ℕ, suc, Bool, ◌||◌, Option, List, [], ◌∷◌, ◌++◌, ltb, ◌==◌, is_none_or, ℤ, leb_ℤ, length, any,
  str_eq, is_blank, decimal, not,
}
use rusty_fleet.BTreeMap
use rusty_fleet.BTreeMap.{BTreeMap, contains_key}
use rusty_fleet.Order.{text_ord}
use rusty_fleet.Contracts.Violation.{
  ContractViolation, Validation, violation_if, require_nonempty, groups, finish, failures_of,
}
use rusty_fleet.Contracts.Query.{FleetQuery, validate_query}
use rusty_fleet.Contracts.Command.{CommandLifecycle}

pub record TargetSnapshot (V : Type 0) : Type 0 where
  pub snapshot_id : String
  pub created_at_ms : ℤ
  pub expires_at_ms : ℤ
  pub query : FleetQuery
  pub result_revision : ℕ
  pub identity_revisions : BTreeMap String ℕ
  pub extensions : BTreeMap String V

pub data TargetEligibility : Type 0 where
  eligible warning excluded refresh_required changed_since_preview : TargetEligibility

pub record OperationTargetResult (V : Type 0) : Type 0 where
  pub device_id : String
  pub identity_revision : ℕ
  pub eligibility : TargetEligibility
  pub lifecycle : CommandLifecycle
  pub reason_code : String
  pub message : String
  pub last_transition_ms : ℤ
  pub receipt_id : Option String
  pub retry_eligible : Bool
  pub cancel_eligible : Bool
  pub extensions : BTreeMap String V

pub record OperationLedger (V : Type 0) : Type 0 where
  pub schema : String
  pub operation_id : String
  pub action_id : String
  pub created_at_ms : ℤ
  pub target_snapshot : TargetSnapshot V
  pub lifecycle : CommandLifecycle
  pub cleanup_required : Bool
  pub targets : List (OperationTargetResult V)
  pub extensions : BTreeMap String V

abbrev pub result_path : ℕ → String → String
result_path index rest = concat "targets[" (concat (decimal index) (concat "]" rest))

module _ {V : Type 0} where
  unfoldable pub snapshot_groups : TargetSnapshot V → List (List ContractViolation)
  snapshot_groups s =
      require_nonempty s.snapshot_id "snapshot_id"
      ∷ violation_if (leb_ℤ s.expires_at_ms s.created_at_ms) "invalid_expiry" "expires_at_ms"
          "target snapshot expiry must follow creation"
      ∷ violation_if (s.result_revision == 0) "invalid_revision" "result_revision"
          "result revision must be greater than zero"
      ∷ violation_if (any (λ e. e.1 == 0) s.identity_revisions) "invalid_identity_revision"
          "identity_revisions" "all target identity revisions must be greater than zero"
      ∷ violation_if (any (λ e. is_blank e.0) s.identity_revisions) "invalid_device_id"
          "identity_revisions" "target device IDs must not be empty"
      ∷ violation_if (ltb 10000 (length s.identity_revisions) || ltb 64 (length s.extensions))
          "target_snapshot_too_large" "identity_revisions"
          "target snapshots support at most 10000 targets and 64 extension fields"
      ∷ failures_of (validate_query s.query)
      ∷ []

  unfoldable pub validate_target_snapshot : TargetSnapshot V → Validation
  unfolding snapshot_groups
  validate_target_snapshot s = finish (groups (snapshot_groups s))

  abbrev pub is_unbound : BTreeMap String ℕ → OperationTargetResult V → Bool
  is_unbound frozen t =
      is_none_or (BTreeMap.get t.device_id frozen)
        (λ revision. not (revision == t.identity_revision))

  -- The loop over the results, with the devices that were seen and their places.
  unfoldable pub result_failures :
      BTreeMap String ℕ
      → BTreeMap String ℕ
      → ℕ
      → List (OperationTargetResult V)
      → List ContractViolation
  result_failures frozen seen index [] = []
  result_failures frozen seen index (t ∷ ts) =
      require_nonempty t.device_id (result_path index ".device_id")
      ++ (require_nonempty t.reason_code (result_path index ".reason_code")
          ++ (require_nonempty t.message (result_path index ".message")
              ++ (violation_if (t.identity_revision == 0) "invalid_identity_revision"
                    (result_path index ".identity_revision")
                    "target identity revision must be greater than zero"
                  ++ (violation_if (contains_key t.device_id seen) "duplicate_target"
                        (result_path index ".device_id") "operation target occurs more than once"
                      ++ (violation_if (is_unbound frozen t) "target_snapshot_binding_mismatch"
                            (result_path index "")
                            "target identity must match the frozen target snapshot"
                          ++ result_failures frozen (BTreeMap.insert t.device_id index seen)
                              (suc index) ts)))))

  unfoldable pub operation_ledger_groups : OperationLedger V → List (List ContractViolation)
  operation_ledger_groups l =
      violation_if (not (str_eq l.schema "rusty.fleet.operation_ledger.v1")) "wrong_schema" "schema"
        "expected rusty.fleet.operation_ledger.v1"
      ∷ require_nonempty l.operation_id "operation_id"
      ∷ require_nonempty l.action_id "action_id"
      ∷ violation_if (ltb 10000 (length l.targets) || ltb 64 (length l.extensions))
          "operation_ledger_too_large" "targets"
          "operation ledgers support at most 10000 targets and 64 extension fields"
      ∷ failures_of (validate_target_snapshot l.target_snapshot)
      ∷ violation_if (not (length l.targets == length l.target_snapshot.identity_revisions))
          "target_ledger_mismatch" "targets"
          "operation ledger must retain one result for every snapshotted target"
      ∷ result_failures l.target_snapshot.identity_revisions [] 0 l.targets
      ∷ []

  unfoldable pub validate_operation_ledger : OperationLedger V → Validation
  validate_operation_ledger l = finish (groups (operation_ledger_groups l))
