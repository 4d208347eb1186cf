-- ===== src/Hub/Kiosk/Effects.antt =====
-- crates/fleet-hub/src/kiosk.rs: what a successful call of each operation does to the Hub.
use Prim.Native.String.{String}
use rusty_fleet.Prelude.{
  bind_inv, ◌<◌, ◌≡◌, refl, sym, ◌⊎◌, inl, inr, Bool, true, false, Option, none, some, List, arith,
  if◌then◌else◌, Option-cases, length, find, Result, ok, err, ◌>>=◌, is_err,
}
use mathlib.Core.Path.{subst}
use rusty_fleet.BTreeMap
use rusty_fleet.BTreeMap.{BTreeMap}
use rusty_fleet.Order.{text_ord}
use rusty_fleet.Contracts.Violation.{Validation}
use rusty_fleet.Contracts.Kiosk.{
  KioskShowControlsOperation, KioskShowControlsTargetLedger, KioskShowControlsTargetPreflight,
}
use rusty_fleet.Contracts.KioskOperation.{validate_kiosk_operation}
use rusty_fleet.Hub.State.{FleetHub, HubError}
use rusty_fleet.Hub.Kiosk.Guards.{
  change_first, target, target_mut, has_device, kiosk_operation, ok_or, relifed, store_operation,
  checked, validate_operation,
}
use rusty_fleet.Hub.Kiosk.Preview.{KioskShowControlsPreviewPlan, planned_operation, freeze_targets}
use rusty_fleet.Hub.Kiosk.Changes.{Change, Changed, Pairwise, change_first-Pairwise}

-- A branch that returns early, or the rest.
pub if_inv {ℓ} :
    {A : Type ℓ} (b : Bool) (x y : A) {z : A}
    → (if b then x else y) ≡ z
    → ((b ≡ true) × (x ≡ z)) ⊎ ((b ≡ false) × (y ≡ z))
if_inv true x y h = inl (refl, h)
if_inv false x y h = inr (refl, h)

pub else_at {ℓ} :
    {A : Type ℓ} (b : Bool) (x y : A) {z : A} → b ≡ false → (if b then x else y) ≡ z → y ≡ z
else_at true x y e h = cc
else_at false x y e h = h

pub checked_inv :
    (v : Validation) (code subject : String) → checked v code subject ≡ ok tt → is_err v ≡ false
checked_inv (ok _) code subject h = refl
checked_inv (err _) code subject h = cc

pub ok_or_inv {ℓ} :
    {A : Type ℓ} (o : Option A) (failure : HubError) {a : A} → ok_or o failure ≡ ok a → o ≡ some a
ok_or_inv none failure h = cc
ok_or_inv (some _) failure h = cc

module _ {V S : Type 0} where
  -- The Hub after the operation was stored under the identifier, with its lifecycle derived.
  abbrev pub IsStored : FleetHub V S → String → KioskShowControlsOperation → FleetHub V S → Type 0
  IsStored hub id o next =
      (is_err (validate_kiosk_operation (relifed o)) ≡ false)
      × (next
          ≡ record hub { kiosk_operations = BTreeMap.insert id (relifed o) hub.kiosk_operations })

  -- Nothing for a replay; a new operation under a free identifier, while there is room; or a
  -- change of the ledgers of a stored one.
  pub data KioskEffect (hub next : FleetHub V S) : Type 0 where
    replayed : next ≡ hub → KioskEffect hub next
    created :
        (plan : KioskShowControlsPreviewPlan) (preflights : List KioskShowControlsTargetPreflight)
        → freeze_targets hub plan.created_at_ms plan.request.targets ≡ ok preflights
        → BTreeMap.get plan.operation_id hub.kiosk_operations ≡ none
        → length hub.kiosk_operations < 1000
        → IsStored hub plan.operation_id
            (planned_operation plan hub.result_revision preflights)
            next
        → KioskEffect hub next
    changed :
        (id : String) (o : KioskShowControlsOperation) (ts : List KioskShowControlsTargetLedger)
        → BTreeMap.get id hub.kiosk_operations ≡ some o
        → Pairwise (Changed o.max_attempts_per_target) o.targets ts
        → IsStored hub id (record o { targets = ts }) next
        → KioskEffect hub next

  pub store_operation_inv :
      (hub : FleetHub V S) (id : String) (o : KioskShowControlsOperation) {next : FleetHub V S}
      {updated : KioskShowControlsOperation}
      → store_operation hub id o ≡ ok (next, updated)
      → IsStored hub id o next
  unfolding store_operation validate_operation
  store_operation_inv hub id o h =
      let (_, valid, stored) = bind_inv (validate_operation (relifed o)) _ h in
      (checked_inv _ _ _ valid, ground arith)

  pub kiosk_operation_inv :
      (hub : FleetHub V S) (id : String) {o : KioskShowControlsOperation}
      → kiosk_operation hub id ≡ ok o
      → BTreeMap.get id hub.kiosk_operations ≡ some o
  unfolding kiosk_operation
  kiosk_operation_inv hub id h = ok_or_inv _ _ h

  -- The last steps of each transition of one target.
  pub target_changed :
      (hub : FleetHub V S) (id device_id : String) (o : KioskShowControlsOperation)
      (t : KioskShowControlsTargetLedger)
      (change : KioskShowControlsTargetLedger → KioskShowControlsTargetLedger) {next : FleetHub V S}
      {updated : KioskShowControlsOperation}
      → kiosk_operation hub id ≡ ok o
      → target o device_id ≡ ok t
      → Change o.max_attempts_per_target t (change t)
      → target_mut o device_id change >>= (λ changed. store_operation hub id changed)
        ≡ ok (next, updated)
      → KioskEffect hub next
  unfolding target target_mut
  target_changed hub id device_id o t change {next} known found c h =
      let (u, located, stored) = bind_inv (target_mut o device_id change) _ h in
      let first : find (has_device device_id) o.targets ≡ some t = ok_or_inv _ _ found in
      elim (Option-cases (change_first device_id change o.targets)) [
        | inl missing ↦ absurd (ground arith)
        | inr (ts, same) ↦
            let made : record o { targets = ts } ≡ u = ground arith in
            KioskEffect.changed id o ts (kiosk_operation_inv hub id known)
              (change_first-Pairwise o.max_attempts_per_target device_id change o.targets first c
                same)
              (subst (λ v. IsStored hub id v next) (sym made) (store_operation_inv hub id u stored))
      ]

  abbrev pub hub_result :
      FleetHub V S
      → KioskShowControlsOperation
      → Result (FleetHub V S × KioskShowControlsOperation) HubError
  hub_result hub o = ok (hub, o)

  pub same_hub :
      (hub : FleetHub V S) {o updated : KioskShowControlsOperation} {next : FleetHub V S}
      → hub_result hub o ≡ ok (next, updated)
      → KioskEffect hub next
  same_hub hub h = KioskEffect.replayed (ground arith)
