-- ===== src/Contracts/KioskFacts.antt =====
-- crates/fleet-contracts/src/kiosk.rs: what a valid show-controls operation and its ledgers satisfy.
use Prim.Native.String.{String, compare as compare_text}
use rusty_fleet.Prelude.{
  ℕ, suc, ◌≤◌, ◌<◌, ◌≡◌, sym, ◌∙◌, false, Option, none, some, List, [], ◌∷◌, arith, is_some_and,
  length, is_err, not,
}
use rusty_fleet.Order.{is_lt}
use rusty_fleet.Order.{text_ord}
use rusty_fleet.Contracts.Violation.{
  groups, groups_nil, append_nil_inv, prefixed_nil, violation_if_nil, finish-is_err,
  failures_of-finish, failures-is_err,
}
use rusty_fleet.Contracts.Kiosk.{
  KioskShowControlsOperation, KioskShowControlsTargetLedger, derived_lifecycle,
}
use rusty_fleet.Contracts.KioskLedger.{validate_for_operation, same_lifecycle_eq}
use rusty_fleet.Contracts.KioskOperation.{
  validate_kiosk_operation, operation_groups, operation_target_failures, is_preflight_changed,
  preview_map, inflight_count,
}

-- What the loop over the targets has checked.
abbrev pub TargetsAreValid :
    KioskShowControlsOperation → Option String → List KioskShowControlsTargetLedger → Type 0
TargetsAreValid o prior [] = Unit
TargetsAreValid o prior (t ∷ ts) =
    (is_err (
        validate_for_operation o.operation_id o.max_attempts_per_target o.preview.created_at_ms
          o.preview.expires_at_ms t)
      ≡ false)
    × (is_preflight_changed (preview_map o.preview.targets []) t ≡ false)
    × (is_some_and prior (λ p. not (is_lt (compare_text p t.device_id))) ≡ false)
    × TargetsAreValid o (some t.device_id) ts

operation_target_failures-nil :
    (o : KioskShowControlsOperation) (prior : Option String) (index : ℕ)
    (ts : List KioskShowControlsTargetLedger)
    → operation_target_failures o prior index ts ≡ []
    → TargetsAreValid o prior ts
unfolding operation_target_failures validate_for_operation
operation_target_failures-nil o prior index [] h = tt
operation_target_failures-nil o prior index (t ∷ ts) h =
    let (a, b) = append_nil_inv _ _ h in
    let (c, d) = append_nil_inv _ _ b in
    let (e, f) = append_nil_inv _ _ d in
    let nested = sym (failures_of-finish _) ∙ prefixed_nil _ _ a in
    (
      failures-is_err _ nested,
      violation_if_nil _ _ _ _ c,
      violation_if_nil _ _ _ _ e,
      operation_target_failures-nil o (some t.device_id) (suc index) ts f,
    )

-- A valid operation, by what its validation has checked.
pub record OperationIsValid (o : KioskShowControlsOperation) : Type 0 where
  pub parallelism : (0 < o.max_parallelism) × (o.max_parallelism ≤ 64)
  pub attempts : (0 < o.max_attempts_per_target) × (o.max_attempts_per_target ≤ 8)
  pub targets_valid : TargetsAreValid o none o.targets
  pub same_count : length o.targets ≡ length o.preview.targets
  pub derived : o.lifecycle ≡ derived_lifecycle o
  pub within : inflight_count o.targets ≤ o.max_parallelism

pub validate_kiosk_operation-IsValid :
    (o : KioskShowControlsOperation)
    → is_err (validate_kiosk_operation o) ≡ false
    → OperationIsValid o
unfolding validate_kiosk_operation operation_groups
validate_kiosk_operation-IsValid o h =
    let facts = groups_nil (operation_groups o) (finish-is_err (groups (operation_groups o)) h) in
    record {
      parallelism = (
        ground (arith, violation_if_nil _ _ _ _ facts.1.1.1.1.0),
        ground (arith, violation_if_nil _ _ _ _ facts.1.1.1.1.0),
      );
      attempts = (
        ground (arith, violation_if_nil _ _ _ _ facts.1.1.1.1.1.0),
        ground (arith, violation_if_nil _ _ _ _ facts.1.1.1.1.1.0),
      );
      targets_valid = operation_target_failures-nil o none 0 o.targets facts.1.1.1.1.1.1.1.1.1.1.0;
      same_count = ground (arith, violation_if_nil _ _ _ _ facts.1.1.1.1.1.1.1.1.1.0);
      derived =
          same_lifecycle_eq _ _
            (ground (arith, violation_if_nil _ _ _ _ facts.1.1.1.1.1.1.1.1.1.1.1.0));
      within = ground (arith, violation_if_nil _ _ _ _ facts.1.1.1.1.1.1.1.1.1.1.1.1.0);
    }
