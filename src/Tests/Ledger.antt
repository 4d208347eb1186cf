-- ===== src/Tests/Ledger.antt =====
-- The theorem on operation ledgers, at a ledger with one target.
use rusty_fleet.Prelude.{◌≡◌, refl, true, false, none, some, [], ◌∷◌, pos, find, ok, is_err, str_eq}
use rusty_fleet.BTreeMap
use rusty_fleet.Order.{text_ord}
use rusty_fleet.Contracts.Command.{CommandLifecycle}
use rusty_fleet.Contracts.OperationLedger.{
  TargetEligibility, OperationTargetResult, OperationLedger, snapshot_groups,
  validate_target_snapshot, result_failures, operation_ledger_groups, validate_operation_ledger,
}
use rusty_fleet.Contracts.OperationLedgerFacts.{validated_ledger_complete}
use rusty_fleet.Tests.Data.{Json, program, rooms_query}

abbrev result : OperationTargetResult Json
result = record {
  device_id = "quest-1";
  identity_revision = 4;
  eligibility = TargetEligibility.eligible;
  lifecycle = CommandLifecycle.accepted;
  reason_code = "operator_confirmed";
  message = "confirmed";
  last_transition_ms = pos 20;
  receipt_id = none;
  retry_eligible = false;
  cancel_eligible = true;
  extensions = [];
}

abbrev ledger : OperationLedger Json
ledger = record {
  schema = "rusty.fleet.operation_ledger.v1";
  operation_id = "op-7";
  action_id = "fleet.announce";
  created_at_ms = pos 10;
  target_snapshot = record {
    snapshot_id = "snapshot-1";
    created_at_ms = pos 10;
    expires_at_ms = pos 900;
    query = rooms_query;
    result_revision = 3;
    identity_revisions = ("quest-1", 4) ∷ [];
    extensions = [];
  };
  lifecycle = CommandLifecycle.accepted;
  cleanup_required = false;
  targets = result ∷ [];
  extensions = [];
}

ledger_valid : validate_operation_ledger ledger ≡ ok tt
unfolding program validate_operation_ledger operation_ledger_groups result_failures
    validate_target_snapshot snapshot_groups
ledger_valid = refl

-- A second result of the same device is refused.
duplicate_refused :
    is_err (validate_operation_ledger (record ledger { targets = result ∷ result ∷ [] })) ≡ true
unfolding program validate_operation_ledger operation_ledger_groups result_failures
    validate_target_snapshot snapshot_groups
duplicate_refused = refl

frozen : BTreeMap.get "quest-1" ledger.target_snapshot.identity_revisions ≡ some 4
unfolding program
frozen = refl

validated_ledger_complete_example :
    (t : OperationTargetResult Json) × (find (λ r. str_eq r.device_id "quest-1") ledger.targets
      ≡ some t)
    × (t.identity_revision ≡ 4)
validated_ledger_complete_example = validated_ledger_complete ledger "quest-1" ledger_valid frozen
