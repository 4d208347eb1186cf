-- ===== src/Hub/Kiosk/Soundness.antt =====
-- crates/fleet-hub/src/kiosk.rs: what holds of the stored operations after any sequence of calls.
use Prim.Native.String.{String}
use rusty_fleet.Prelude.{
  ◌≤◌, ◌≡◌, refl, sym, inl, inr, true, false, Option, none, some, List, [], ◌∷◌, arith, Bool-cases,
  length, find, All, ok, is_err,
}
use mathlib.Core.Path.{subst}
use rusty_fleet.BTreeMap
use rusty_fleet.BTreeMap.{BTreeMap, Sorted, collect_set}
use rusty_fleet.BTreeMap.Laws.{
  insert-Sorted, length-insert_new, length-insert_old, get-All, All-insert_entry,
}
use rusty_fleet.Order.{text_ord}
use rusty_fleet.Contracts.Kiosk.{
  KioskShowControlsOperation, KioskShowControlsTargetLedger, KioskEffectiveReceipt, is_applied,
}
use rusty_fleet.Contracts.KioskOperation.{validate_kiosk_operation}
use rusty_fleet.Contracts.KioskFacts.{validate_kiosk_operation-IsValid, TargetsAreValid}
use rusty_fleet.Contracts.KioskLedgerFacts.{
  LedgerIsValid, validate_for_operation-IsValid, LedgerIsValid-IsProved, IsProved,
}
use rusty_fleet.Hub.State.{FleetHub}
use rusty_fleet.Hub.Kiosk.Guards.{has_device, kiosk_operation, target, relifed}
use rusty_fleet.Hub.Kiosk.Preview.{planned_operation}
use rusty_fleet.Hub.Kiosk.Effects.{KioskEffect, ok_or_inv}
use rusty_fleet.Hub.Kiosk.Steps.{KioskStep, KioskStep-effect}

-- The ledgers of a valid operation are valid.
TargetsAreValid-All :
    (o : KioskShowControlsOperation) (prior : Option String)
    (ts : List KioskShowControlsTargetLedger)
    → TargetsAreValid o prior ts
    → All (LedgerIsValid o.operation_id o.max_attempts_per_target) ts
TargetsAreValid-All o prior [] h = tt
TargetsAreValid-All o prior (t ∷ ts) h = (
  validate_for_operation-IsValid o.operation_id o.max_attempts_per_target o.preview.created_at_ms
      o.preview.expires_at_ms t h.0,
  TargetsAreValid-All o (some t.device_id) ts h.3,
)

pub valid_ledgers :
    (o : KioskShowControlsOperation)
    → is_err (validate_kiosk_operation o) ≡ false
    → All (LedgerIsValid o.operation_id o.max_attempts_per_target) o.targets
valid_ledgers o h =
    TargetsAreValid-All o none o.targets (validate_kiosk_operation-IsValid o h).targets_valid

-- What `target` finds satisfies what holds of all.
pub find-All {κ} :
    (P : KioskShowControlsTargetLedger → Type κ) (device_id : String)
    (ts : List KioskShowControlsTargetLedger) {t : KioskShowControlsTargetLedger}
    → All P ts
    → find (has_device device_id) ts ≡ some t
    → P t
find-All P d [] a h = cc
find-All P d (x ∷ xs) {t} a h = elim (Bool-cases (has_device d x)) [
  | inl here ↦ let same : x ≡ t = ground arith in subst P same a.0
  | inr other ↦ find-All P d xs a.1 (ground arith)
]

pub target_inv :
    (o : KioskShowControlsOperation) (device_id : String) {t : KioskShowControlsTargetLedger}
    → target o device_id ≡ ok t
    → find (has_device device_id) o.targets ≡ some t
unfolding target
target_inv o device_id h = ok_or_inv _ _ h

-- An entry of the store: filed under its identifier, and valid.
abbrev pub IsFiled : String × KioskShowControlsOperation → Type 0
IsFiled e = (e.1.operation_id ≡ e.0) × (is_err (validate_kiosk_operation e.1) ≡ false)

module _ {V S : Type 0} where
  pub record IsSound (hub : FleetHub V S) : Type 0 where
    pub filed : All IsFiled hub.kiosk_operations
    pub sorted : Sorted hub.kiosk_operations
    pub bounded : length hub.kiosk_operations ≤ 1000

  pub found :
      (hub : FleetHub V S) (id : String) {o : KioskShowControlsOperation}
      → kiosk_operation hub id ≡ ok o
      → BTreeMap.get id hub.kiosk_operations ≡ some o
  unfolding kiosk_operation
  found hub id h = ok_or_inv _ _ h

  pub sound_filed :
      (hub : FleetHub V S) (id : String) {o : KioskShowControlsOperation}
      → IsSound hub
      → BTreeMap.get id hub.kiosk_operations ≡ some o
      → (o.operation_id ≡ id) × (is_err (validate_kiosk_operation o) ≡ false)
  sound_filed hub id s h = get-All IsFiled id hub.kiosk_operations s.filed h

  effect-IsSound : (hub next : FleetHub V S) → KioskEffect hub next → IsSound hub → IsSound next
  unfolding planned_operation
  effect-IsSound hub next (KioskEffect.replayed same) s = subst IsSound (sym same) s
  effect-IsSound hub next (KioskEffect.created plan ps frozen free room (valid, made)) s =
      let o = relifed (planned_operation plan hub.result_revision ps) in
      rw made (record {
        filed =
            All-insert_entry IsFiled plan.operation_id o hub.kiosk_operations (refl, valid) s.filed;
        sorted = insert-Sorted plan.operation_id o hub.kiosk_operations s.sorted;
        bounded =
            omega (arith, room, length-insert_new plan.operation_id o hub.kiosk_operations free);
      })
  effect-IsSound hub next (KioskEffect.changed id o ts known moved (valid, made)) s =
      let u = relifed (record o { targets = ts }) in
      rw made (record {
        filed =
            All-insert_entry IsFiled id u hub.kiosk_operations
              ((sound_filed hub id s known).0, valid) s.filed;
        sorted = insert-Sorted id u hub.kiosk_operations s.sorted;
        bounded =
            omega (arith, s.bounded, length-insert_old id u o hub.kiosk_operations s.sorted known);
      })

  -- A call of the Kiosk operations keeps every stored operation valid and filed under its own
  -- identifier, the store in order, and at most 1000 operations in it.
  pub KioskStep-IsSound :
      (hub next : FleetHub V S) (o : KioskShowControlsOperation)
      → KioskStep hub next o
      → IsSound hub
      → IsSound next
  KioskStep-IsSound hub next o step s = effect-IsSound hub next (KioskStep-effect hub next o step) s

  -- In a sound Hub, a target is applied only with a receipt that names the operation, the device, its
  -- identity revision and the request of the attempt, and that reports a verified HTTP 200 response
  -- in which the owner accepted and completed the command and the controls are open.
  pub applied_has_receipt :
      (hub : FleetHub V S) (id device_id : String) {o : KioskShowControlsOperation}
      {t : KioskShowControlsTargetLedger}
      → IsSound hub
      → kiosk_operation hub id ≡ ok o
      → target o device_id ≡ ok t
      → is_applied t.lifecycle ≡ true
      → (receipt : KioskEffectiveReceipt) × IsProved id t receipt
  applied_has_receipt hub id device_id {o} {t} s known at applied =
      let (own, valid) = sound_filed hub id s (found hub id known) in
      let l : LedgerIsValid o.operation_id o.max_attempts_per_target t =
        find-All _ device_id o.targets (valid_ledgers o valid) (target_inv o device_id at) in
      subst (λ i. (receipt : KioskEffectiveReceipt) × IsProved i t receipt) own
        (LedgerIsValid-IsProved o.operation_id o.max_attempts_per_target t l applied)
