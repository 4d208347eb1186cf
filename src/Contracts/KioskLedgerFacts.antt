-- ===== src/Contracts/KioskLedgerFacts.antt =====
-- crates/fleet-contracts/src/kiosk.rs: what a valid ledger satisfies in each state of its target.
use Prim.Native.String.{String}
use rusty_fleet.Prelude.{
  ℕ, ◌≤◌, ◌<◌, ◌≡◌, refl, sym, ap, ◌∙◌, inl, inr, Bool, true, false, Option, none, some, [], arith,
  Option-cases, ℤ, length, is_err, str_eq, str_eq_iff, option_eq,
}
use rusty_fleet.BTreeMap.{collect_set}
use rusty_fleet.Order.{text_ord}
use rusty_fleet.Contracts.Violation.{
  groups, groups_nil, append_nil_inv, prefixed_nil, violation_if_nil, finish-is_err,
  failures_of-finish,
}
use rusty_fleet.Contracts.Command.{CommandLifecycle}
use rusty_fleet.Contracts.Kiosk.{KioskShowControlsTargetLedger, KioskEffectiveReceipt, is_applied}
use rusty_fleet.Contracts.KioskOwner.{validate_effective_receipt, receipt_groups}
use rusty_fleet.Contracts.KioskLedger.{
  validate_for_operation, ledger_groups, lifecycle_failures, receipt_failures, state_failures,
  is_cleanup,
}

-- The states in which no owner attempt was ever made.
abbrev pub is_unattempted : CommandLifecycle → Bool
is_unattempted CommandLifecycle.proposed = true
is_unattempted CommandLifecycle.accepted = true
is_unattempted CommandLifecycle.rejected = true
is_unattempted CommandLifecycle.cancellation_requested = true
is_unattempted CommandLifecycle.cancelled = true
is_unattempted _ = false

-- The states after an owner attempt was begun.
abbrev pub is_attempted : CommandLifecycle → Bool
is_attempted CommandLifecycle.dispatched = true
is_attempted CommandLifecycle.running = true
is_attempted CommandLifecycle.applied = true
is_attempted CommandLifecycle.failed = true
is_attempted CommandLifecycle.expired = true
is_attempted _ = false

pub record LedgerIsValid (operation_id : String) (max_attempts : ℕ)
    (t : KioskShowControlsTargetLedger) : Type 0 where
  pub bounded : t.attempt_count ≤ max_attempts
  pub recorded : length t.owner_request_ids ≡ t.attempt_count
  pub fresh : length (collect_set t.owner_request_ids) ≡ length t.owner_request_ids
  pub no_cleanup : is_cleanup t.lifecycle ≡ false
  pub state : state_failures t.preflight.eligible operation_id max_attempts t ≡ []

pub validate_for_operation-IsValid :
    (id : String) (max : ℕ) (created expires : ℤ) (t : KioskShowControlsTargetLedger)
    → is_err (validate_for_operation id max created expires t) ≡ false
    → LedgerIsValid id max t
unfolding validate_for_operation ledger_groups
validate_for_operation-IsValid id max created expires t h =
    let gs = ledger_groups id max created expires t in
    let facts = groups_nil gs (finish-is_err (groups gs) h) in
    record {
      bounded = ground (arith, violation_if_nil _ _ _ _ facts.1.1.1.1.1.0);
      recorded = ground (arith, violation_if_nil _ _ _ _ facts.1.1.1.1.1.1.1.1.0);
      fresh = ground (arith, violation_if_nil _ _ _ _ facts.1.1.1.1.1.1.1.1.1.0);
      no_cleanup = violation_if_nil _ _ _ _ facts.1.1.1.1.1.1.1.1.1.1.1.1.0;
      state = facts.1.1.1.1.1.1.1.1.1.1.1.1.1.0;
    }

-- The attempts of an eligible target agree with its state.
lifecycle_attempts :
    (l : CommandLifecycle) (max : ℕ) (t : KioskShowControlsTargetLedger)
    → lifecycle_failures l max t ≡ []
    → (is_unattempted l ≡ true → t.attempt_count ≡ 0)
      × (is_attempted l ≡ true → 0 < t.attempt_count)
unfolding lifecycle_failures
lifecycle_attempts l max t h = (λ u. ground arith, λ u. ground arith)

state_attempts :
    (eligible : Bool) (id : String) (max : ℕ) (t : KioskShowControlsTargetLedger)
    → state_failures eligible id max t ≡ []
    → (is_unattempted t.lifecycle ≡ true → t.attempt_count ≡ 0)
      × (is_attempted t.lifecycle ≡ true → 0 < t.attempt_count)
unfolding state_failures
state_attempts false id max t h = (λ u. ground arith, λ u. ground arith)
state_attempts true id max t h =
    lifecycle_attempts t.lifecycle max t
      (append_nil_inv (lifecycle_failures t.lifecycle max t) _ h).0

-- A target is in a state before any owner attempt exactly if none was made.
pub LedgerIsValid-attempts :
    (id : String) (max : ℕ) (t : KioskShowControlsTargetLedger)
    → LedgerIsValid id max t
    → (is_unattempted t.lifecycle ≡ true → t.attempt_count ≡ 0)
      × (is_attempted t.lifecycle ≡ true → 0 < t.attempt_count)
LedgerIsValid-attempts id max t v = state_attempts t.preflight.eligible id max t v.state

-- What proves an applied target: a receipt that satisfies its contract and that names the operation,
-- the device and its identity, and the request of the attempt.
pub record IsProved (operation_id : String) (t : KioskShowControlsTargetLedger)
    (receipt : KioskEffectiveReceipt) : Type 0 where
  pub kept : t.effective_receipt ≡ some receipt
  pub verified : receipt.response_auth_verified ≡ true
  pub status : receipt.response_status ≡ 200
  pub accepted : receipt.owner_accepted ≡ true
  pub completed : receipt.owner_completed ≡ true
  pub opened : receipt.controls_open ≡ true
  pub operation : receipt.operation_id ≡ operation_id
  pub device : receipt.device_id ≡ t.device_id
  pub identity : receipt.identity_revision ≡ t.identity_revision
  pub request : t.owner_request_id ≡ some receipt.owner_action_request_id

pub option_text_eq : (a b : Option String) → option_eq str_eq a b ≡ true → a ≡ b
option_text_eq none none h = refl
option_text_eq none (some _) h = cc
option_text_eq (some _) none h = cc
option_text_eq (some a) (some b) h = ap some ((str_eq_iff a b).0 h)

receipt-IsProved :
    (id : String) (t : KioskShowControlsTargetLedger) (r : KioskEffectiveReceipt)
    → t.effective_receipt ≡ some r
    → receipt_failures id t (some r) ≡ []
    → IsProved id t r
unfolding receipt_failures validate_effective_receipt receipt_groups
receipt-IsProved id t r k h =
    let (nested, bound) = append_nil_inv _ _ h in
    let facts =
      groups_nil (receipt_groups r)
        (sym (failures_of-finish (groups (receipt_groups r))) ∙ prefixed_nil _ _ nested) in
    let signed = violation_if_nil _ _ _ _ facts.1.1.1.1.1.1.1.1.0 in
    let effective = violation_if_nil _ _ _ _ facts.1.1.1.1.1.1.1.1.1.0 in
    let same = violation_if_nil _ _ _ _ bound in
    record {
      kept = k;
      verified = ground arith;
      status = ground arith;
      accepted = ground arith;
      completed = ground arith;
      opened = ground arith;
      operation = (str_eq_iff _ _).0 (ground arith);
      device = (str_eq_iff _ _).0 (ground arith);
      identity = ground arith;
      request = option_text_eq _ _ (ground arith);
    }

applied_state :
    (eligible : Bool) (id : String) (max : ℕ) (t : KioskShowControlsTargetLedger)
    → is_applied t.lifecycle ≡ true
    → state_failures eligible id max t ≡ []
    → (r : KioskEffectiveReceipt) × IsProved id t r
unfolding state_failures lifecycle_failures
applied_state false id max t a h = absurd (ground arith)
applied_state true id max t a h =
    let (here, receipt) = append_nil_inv (lifecycle_failures t.lifecycle max t) _ h in
    elim (Option-cases t.effective_receipt) [
      | inl missing ↦ absurd (ground arith)
      | inr (r, kept) ↦
          (r, receipt-IsProved id t r kept (sym (ap (receipt_failures id t) kept) ∙ receipt))
    ]

pub LedgerIsValid-IsProved :
    (id : String) (max : ℕ) (t : KioskShowControlsTargetLedger)
    → LedgerIsValid id max t
    → is_applied t.lifecycle ≡ true
    → (r : KioskEffectiveReceipt) × IsProved id t r
LedgerIsValid-IsProved id max t v a = applied_state t.preflight.eligible id max t a v.state
