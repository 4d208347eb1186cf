-- ===== src/Hub/Restored.antt =====
-- What holds of a Hub that `restore` gives: crates/fleet-hub/src/lib.rs.
use Prim.Native.String.{String}
use rusty_fleet.Prelude.{
  ℕ, ◌≤◌, ◌<◌, ◌≡◌, sym, true, false, [], ◌∷◌, arith, pos, ◌≤ℤ◌, length, any, All, ok, str_eq,
  str_eq_iff,
}
use rusty_fleet.BTreeMap.{BTreeMap}
use rusty_fleet.Contracts.Violation.{ValidateContract, Serialize}
use mathlib.Core.Path.{subst}
use rusty_fleet.Contracts.Condition.{validate_condition}
use rusty_fleet.Contracts.Kiosk.{KioskShowControlsOperation}
use rusty_fleet.Contracts.KioskOperation.{validate_kiosk_operation}
use rusty_fleet.Contracts.Identity.{DeviceObservation, validate_observation}
use rusty_fleet.Contracts.SavedView.{validate_collection}
use rusty_fleet.Hub.State.{FleetHub, DeviceRecord, HubPolicy}
use rusty_fleet.Hub.Observe.Labels.{Among, is-Among}
use rusty_fleet.Hub.RestoreFacts.{
  no_err, IsIncreasing, IsWatchEvent, windows_in_order, events_named, valid_conditions, IsKnown,
  targets-IsKnown, views_named,
}
use rusty_fleet.Hub.SavedViews.{saved_views}
use rusty_fleet.Hub.Restore.{
  FleetHubSnapshot, hub_of, limits_are_invalid, events_are_invalid, saved_views_are_invalid,
  kiosk_operations_are_invalid, is_operation_stray, record_is_invalid, check_devices, restore_core,
  policies_differ, policy_discrete,
}

decided_same {ℓ} :
    {A : Type ℓ} (a b : A) (d : Dec (a ≡ b))
    → elim d [ yes _ ↦ false | no _ ↦ true ] ≡ false
    → a ≡ b
decided_same a b (yes e) h = e
decided_same a b (no n) h = cc

policies_same : (p q : HubPolicy) → policies_differ p q ≡ false → p ≡ q
policies_same p q h = decided_same p q (policy_discrete p q) h

module _ {V S : Type 0} ⦃streams : ValidateContract S⦄
    ⦃json : Serialize (DeviceObservation V S)⦄ where
  -- What `restore` has checked of a record.
  abbrev pub IsChecked : HubPolicy → ℕ → String × DeviceRecord V S → Type 0
  IsChecked policy revision e =
      (e.1.observation.identity.device_id ≡ e.0)
      × (validate_observation e.1.observation ≡ ok tt)
      × (pos 0 ≤ℤ e.1.accepted_at_ms)
      × (0 < e.1.accepted_revision)
      × (e.1.accepted_revision ≤ revision)
      × (length e.1.condition_history ≤ policy.history_limit_per_device)
      × (length e.1.seen_source_epochs ≤ policy.source_epoch_limit_per_device)
      × Among e.1.observation.source_epoch e.1.seen_source_epochs
      × All (λ c. validate_condition c ≡ ok tt) e.1.condition_history

  record_is_invalid-IsChecked :
      (policy : HubPolicy) (revision : ℕ) (id : String) (r : DeviceRecord V S)
      → record_is_invalid policy revision id r ≡ false
      → IsChecked policy revision (id, r)
  unfolding record_is_invalid
  record_is_invalid-IsChecked policy revision id r h =
      let same : str_eq r.observation.identity.device_id id ≡ true = ground arith in
      (
        (str_eq_iff r.observation.identity.device_id id).0 same,
        no_err (validate_observation r.observation) (ground arith),
        ground arith,
        ground arith,
        ground arith,
        ground arith,
        ground arith,
        is-Among r.observation.source_epoch r.seen_source_epochs (ground arith),
        valid_conditions r.condition_history (ground arith),
      )

  check_devices-IsChecked :
      (policy : HubPolicy) (revision : ℕ) (m : BTreeMap String (DeviceRecord V S))
      → check_devices policy revision m ≡ ok tt
      → All (IsChecked policy revision) m
  unfolding check_devices
  check_devices-IsChecked policy revision [] h = tt
  check_devices-IsChecked policy revision ((id, r) ∷ rest) h =
      let good : record_is_invalid policy revision id r ≡ false = ground arith in
      let others : check_devices policy revision rest ≡ ok tt = ground arith in
      (
        record_is_invalid-IsChecked policy revision id r good,
        check_devices-IsChecked policy revision rest others,
      )

  -- The tests that a snapshot which is taken back has passed.
  passed :
      (policy : HubPolicy) (s : FleetHubSnapshot V S) {hub : FleetHub V S}
      → restore_core policy s ≡ ok hub
      → (policies_differ s.policy policy ≡ false)
        × (limits_are_invalid policy s ≡ false)
        × (events_are_invalid s ≡ false)
        × (check_devices policy s.result_revision s.devices ≡ ok tt)
        × (saved_views_are_invalid s ≡ false)
        × (kiosk_operations_are_invalid s ≡ false)
        × (hub_of s ≡ hub)
  unfolding restore_core
  passed policy s h = ground arith

  -- The counters, events and saved views of a snapshot that has passed its tests.
  limits_kept :
      (policy : HubPolicy) (s : FleetHubSnapshot V S)
      → limits_are_invalid policy s ≡ false
      → (0 < s.result_revision) × (length s.events ≤ policy.event_limit)
  unfolding limits_are_invalid
  limits_kept policy s h = (ground arith, ground arith)

  events_kept :
      (s : FleetHubSnapshot V S)
      → events_are_invalid s ≡ false
      → IsIncreasing s.events × All IsWatchEvent s.events
  unfolding events_are_invalid
  events_kept s h = (
    windows_in_order s.events (ground arith),
    events_named s.events (ground arith) (ground arith),
  )

  views_kept :
      (s : FleetHubSnapshot V S)
      → saved_views_are_invalid s ≡ false
      → (validate_collection (saved_views (hub_of s)) ≡ ok tt)
        × (length s.saved_views ≤ 128)
        × All (λ e. e.1.view_id ≡ e.0) s.saved_views
  unfolding saved_views_are_invalid saved_views hub_of
  views_kept s h = (no_err _ (ground arith), ground arith, views_named s.saved_views (ground arith))

  -- What `restore` has checked of a Kiosk operation.
  abbrev pub IsKioskChecked :
      BTreeMap String (DeviceRecord V S) → ℕ → String × KioskShowControlsOperation → Type 0
  IsKioskChecked devices revision e =
      (e.1.operation_id ≡ e.0)
      × (validate_kiosk_operation e.1 ≡ ok tt)
      × (e.1.preview.fleet_revision ≤ revision)
      × All (IsKnown devices) e.1.targets

  operations_checked :
      (devices : BTreeMap String (DeviceRecord V S)) (revision : ℕ)
      (m : BTreeMap String KioskShowControlsOperation)
      → any (is_operation_stray devices revision) m ≡ false
      → All (IsKioskChecked devices revision) m
  unfolding is_operation_stray
  operations_checked devices revision [] h = tt
  operations_checked devices revision ((id, o) ∷ rest) h =
      let same : str_eq id o.operation_id ≡ true = ground arith in
      (
        (
          sym ((str_eq_iff id o.operation_id).0 same),
          no_err (validate_kiosk_operation o) (ground arith),
          ground arith,
          targets-IsKnown devices o.targets (ground arith),
        ),
        operations_checked devices revision rest (ground arith),
      )

  kiosk_kept :
      (s : FleetHubSnapshot V S)
      → kiosk_operations_are_invalid s ≡ false
      → (length s.kiosk_operations ≤ 1000)
        × All (IsKioskChecked s.devices s.result_revision) s.kiosk_operations
  unfolding kiosk_operations_are_invalid
  kiosk_kept s h = (
    ground arith,
    operations_checked s.devices s.result_revision s.kiosk_operations (ground arith),
  )

  abbrev pub IsRestored : HubPolicy → FleetHub V S → Type 0
  IsRestored policy hub =
      (hub.policy ≡ policy)
      × (0 < hub.result_revision)
      × (length hub.events ≤ policy.event_limit)
      × IsIncreasing hub.events
      × All IsWatchEvent hub.events
      × All (IsChecked policy hub.result_revision) hub.devices
      × (validate_collection (saved_views hub) ≡ ok tt)
      × (length hub.saved_views ≤ 128)
      × All (λ e. e.1.view_id ≡ e.0) hub.saved_views
      × (length hub.kiosk_operations ≤ 1000)
      × All (IsKioskChecked hub.devices hub.result_revision) hub.kiosk_operations

  -- Whatever the snapshot, a Hub that `restore` gives has the policy that it was asked for, a
  -- positive result revision, and a log within its limit, of watch events whose numbers increase
  -- strictly. Its saved views are valid, at most 128 and each under its own identifier. The record of
  -- each device names it, satisfies its contract, was accepted at a time that is not negative and at
  -- a revision that was reached, keeps valid conditions and epochs within the limits and has seen
  -- its own source epoch. It has at most 1000 Kiosk operations; each is valid, filed under its
  -- identifier and of a revision that was reached, and each of its targets is settled or is a device
  -- of the directory under the same identity revision.
  pub restore_core-IsRestored :
      (policy : HubPolicy) (s : FleetHubSnapshot V S) {hub : FleetHub V S}
      → restore_core policy s ≡ ok hub
      → IsRestored policy hub
  unfolding hub_of
  restore_core-IsRestored policy s h =
      let (same_policy, limits, events, devices, views, kiosk, same) = passed policy s h in
      let (positive, bounded) = limits_kept policy s limits in
      subst (IsRestored policy) same (
        policies_same s.policy policy same_policy,
        positive,
        bounded,
        (events_kept s events).0,
        (events_kept s events).1,
        check_devices-IsChecked policy s.result_revision s.devices devices,
        (views_kept s views).0,
        (views_kept s views).1,
        (views_kept s views).2,
        (kiosk_kept s kiosk).0,
        (kiosk_kept s kiosk).1,
      )
