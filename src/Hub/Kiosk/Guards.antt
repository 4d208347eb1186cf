-- ===== src/Hub/Kiosk/Guards.antt =====
-- crates/fleet-hub/src/kiosk.rs: the lookups and tests that the operations share, and the step that
-- validates and stores a changed operation.
use Prim.Native.String.{String, ◌++◌ as concat}
use rusty_fleet.Prelude.{
  Bool, ◌&&◌, ◌||◌, Option, none, some, List, [], ◌∷◌, ◌==◌, if◌then◌else◌, ℤ, ltb_ℤ, eq_ℤ, any,
  find, Result, ok, err, ◌>>◌, fail_if, str_eq, not,
}
use rusty_fleet.BTreeMap
use rusty_fleet.Order.{text_ord}
use rusty_fleet.Contracts.Violation.{ContractViolation, Validation}
use rusty_fleet.Contracts.Kiosk.{
  KioskShowControlsOperation, KioskShowControlsTargetLedger, KioskShowControlsTargetPreflight,
  derived_lifecycle,
}
use rusty_fleet.Contracts.Capability.{
  same_support, same_enablement, same_authorization, same_reachability, same_freshness,
}
use rusty_fleet.Contracts.KioskOperation.{validate_kiosk_operation}
use rusty_fleet.Hub.State.{FleetHub, HubError}

abbrev pub hub_error : String → String → HubError
hub_error code message = record { code = code; message = message }

-- `code:path` of each failure, with commas between.
unfoldable pub joined_failures : List ContractViolation → String
joined_failures [] = ""
joined_failures (f ∷ []) = concat f.code (concat ":" f.path)
joined_failures (f ∷ g ∷ fs) =
    concat f.code (concat ":" (concat f.path (concat "," (joined_failures (g ∷ fs)))))

unfoldable pub contract_error : String → String → List ContractViolation → HubError
contract_error code subject failures =
    hub_error code
      (concat subject (concat " failed contract validation: " (joined_failures failures)))

-- `v.validate().map_err(|failures| contract_error(code, subject, failures))`.
abbrev pub checked : Validation → String → String → Result (Unit {0}) HubError
checked (ok _) code subject = ok tt
checked (err failures) code subject = err (contract_error code subject failures)

unfoldable pub validate_operation : KioskShowControlsOperation → Result (Unit {0}) HubError
validate_operation operation =
    checked (validate_kiosk_operation operation) "kiosk_operation_invalid"
      "Kiosk show-controls operation"

abbrev pub target_not_found : String → String → HubError
target_not_found device_id operation_id =
    hub_error "kiosk_operation_target_not_found"
      (concat "device " (concat device_id (concat " is not in operation " operation_id)))

abbrev pub has_device : String → KioskShowControlsTargetLedger → Bool
has_device device_id t = str_eq t.device_id device_id

abbrev pub ok_or {ℓ} : {A : Type ℓ} → Option A → HubError → Result A HubError
ok_or (some a) failure = ok a
ok_or none failure = err failure

unfoldable pub target :
    KioskShowControlsOperation → String → Result KioskShowControlsTargetLedger HubError
target operation device_id =
    ok_or (find (has_device device_id) operation.targets)
      (target_not_found device_id operation.operation_id)

-- The list with its first element of a device changed, if there is one.
unfoldable pub change_first :
    String
    → (KioskShowControlsTargetLedger → KioskShowControlsTargetLedger)
    → List KioskShowControlsTargetLedger
    → Option (List KioskShowControlsTargetLedger)
change_first device_id change [] = none
change_first device_id change (t ∷ ts) =
    let rest = change_first device_id change ts in
    if has_device device_id t
    then some (change t ∷ ts)
    else elim rest [ none ↦ none | some changed ↦ some (t ∷ changed) ]

-- `target_mut(&mut updated, device_id)?`, with the assignments to the target.
unfoldable pub target_mut :
    KioskShowControlsOperation
    → String
    → (KioskShowControlsTargetLedger → KioskShowControlsTargetLedger)
    → Result KioskShowControlsOperation HubError
target_mut operation device_id change = elim (change_first device_id change operation.targets) [
  | none ↦ err (target_not_found device_id operation.operation_id)
  | some changed ↦ ok (record operation { targets = changed })
]

unfoldable pub require_preview : KioskShowControlsOperation → String → Result (Unit {0}) HubError
require_preview operation preview_id =
    fail_if (not (str_eq operation.preview.preview_id preview_id)) (
      hub_error "kiosk_preview_mismatch"
        "execute request does not bind the operation's immutable preview")

unfoldable pub require_monotonic_time : KioskShowControlsOperation → ℤ → Result (Unit {0}) HubError
require_monotonic_time operation now_ms =
    fail_if
      (ltb_ℤ now_ms operation.created_at_ms
        || any (λ t. ltb_ℤ now_ms t.last_transition_ms) operation.targets)
      (hub_error "kiosk_operation_time_regression"
        "Kiosk operation transition time must not regress")

unfoldable pub same_frozen_facts :
    KioskShowControlsTargetPreflight → KioskShowControlsTargetPreflight → Bool
same_frozen_facts frozen current =
    str_eq frozen.device_id current.device_id
    && (frozen.identity_revision == current.identity_revision
        && (str_eq frozen.capability_id current.capability_id
            && (frozen.capability_evidence_revision == current.capability_evidence_revision
                && (str_eq frozen.capability_owner current.capability_owner
                    && (same_support frozen.support current.support
                        && (same_enablement frozen.enablement current.enablement
                            && (same_authorization frozen.authorization current.authorization
                                && (same_reachability frozen.reachability current.reachability
                                    && (same_freshness frozen.freshness current.freshness
                                        && (eq_ℤ frozen.observed_at_ms current.observed_at_ms
                                            && (eq_ℤ frozen.fresh_until_ms current.fresh_until_ms
                                                && str_eq frozen.message current.message)))))))))))

-- `updated.lifecycle = derive_operation_lifecycle(&updated)`.
abbrev pub relifed : KioskShowControlsOperation → KioskShowControlsOperation
relifed operation = record operation { lifecycle = derived_lifecycle operation }

module _ {V S : Type 0} where
  unfoldable pub kiosk_operation :
      FleetHub V S → String → Result KioskShowControlsOperation HubError
  kiosk_operation hub operation_id =
      ok_or (BTreeMap.get operation_id hub.kiosk_operations)
        (hub_error "kiosk_operation_not_found" (concat "unknown Kiosk operation " operation_id))

  -- The end of every transition: derive the lifecycle, validate, store and return.
  unfoldable pub store_operation :
      FleetHub V S
      → String
      → KioskShowControlsOperation
      → Result (FleetHub V S × KioskShowControlsOperation) HubError
  store_operation hub operation_id operation = do
    let updated = relifed operation
    validate_operation updated
    ok (
      record hub { kiosk_operations = BTreeMap.insert operation_id updated hub.kiosk_operations },
      updated,
    )
