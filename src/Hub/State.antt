-- ===== src/Hub/State.antt =====
-- crates/fleet-hub/src/lib.rs: the state of the Hub, its policy, its decisions and its event log.
use Prim.Native.String.{String}
use rusty_fleet.Prelude.{
  ℕ, Bool, ◌&&◌, Option, none, some, List, [], ltb, if◌then◌else◌, ℤ, pos, ltb_ℤ,
}
use rusty_fleet.BTreeMap.{BTreeMap}
use rusty_fleet.Contracts.Condition.{StatusCondition}
use rusty_fleet.Contracts.Identity.{DeviceObservation}
use rusty_fleet.Contracts.SavedView.{SavedView}
use rusty_fleet.Contracts.Kiosk.{KioskShowControlsOperation}

pub record HubPolicy : Type 0 where
  pub stale_after_ms : ℤ
  pub offline_after_ms : ℤ
  pub history_limit_per_device : ℕ
  pub source_epoch_limit_per_device : ℕ
  pub event_limit : ℕ

-- `HubPolicy::default`.
abbrev pub default_policy : HubPolicy
default_policy = record {
  stale_after_ms = pos 60000;
  offline_after_ms = pos 300000;
  history_limit_per_device = 128;
  source_epoch_limit_per_device = 128;
  event_limit = 10000;
}

pub data RejectionReason : Type 0 where
  contract_invalid duplicate_revision stale_revision : RejectionReason
  identity_revision_rollback identity_revision_changed_without_restart : RejectionReason
  identity_conflict source_epoch_changed_without_restart source_epoch_replay : RejectionReason
  source_epoch_evidence_limit_exceeded receive_time_regression : RejectionReason

pub data ObservationDecision : Type 0 where
  accepted : (result_revision : ℕ) (device_id : String) (source_revision : ℕ) → ObservationDecision
  rejected :
      (result_revision : ℕ) (device_id : Option String) (source_revision : Option ℕ)
      (reason : RejectionReason) (details : List String)
      → ObservationDecision

pub record WatchEvent : Type 0 where
  pub schema : String
  pub event_sequence : ℕ
  pub observed_at_ms : ℤ
  pub decision : ObservationDecision

pub record HubError : Type 0 where
  pub code : String
  pub message : String

pub record DeviceRecord (V S : Type 0) : Type 0 where
  pub observation : DeviceObservation V S
  pub accepted_at_ms : ℤ
  pub accepted_revision : ℕ
  pub condition_history : List (StatusCondition V)
  pub seen_source_epochs : List String

-- The parts of `FleetHub` that the modelled operations read and write.
pub record FleetHub (V S : Type 0) : Type 0 where
  pub policy : HubPolicy
  pub devices : BTreeMap String (DeviceRecord V S)
  pub result_revision : ℕ
  pub event_sequence : ℕ
  pub events : List WatchEvent
  pub saved_view_revision : ℕ
  pub saved_views : BTreeMap String SavedView
  pub kiosk_operations : BTreeMap String KioskShowControlsOperation

abbrev pub initial_saved_view_revision : ℕ
initial_saved_view_revision = 1

-- The condition that `FleetHub::new` asserts of its policy.
unfoldable pub policy_is_ordered : HubPolicy → Bool
policy_is_ordered p =
    ltb_ℤ (pos 0) p.stale_after_ms
    && (ltb_ℤ p.stale_after_ms p.offline_after_ms
        && (ltb 0 p.history_limit_per_device
            && (ltb 0 p.source_epoch_limit_per_device && ltb 0 p.event_limit)))

module _ {V S : Type 0} where
  -- `none` is the panic of the assertion.
  unfoldable pub new : HubPolicy → Option (FleetHub V S)
  unfolding policy_is_ordered
  new policy =
      if policy_is_ordered policy
      then some (record {
        policy = policy;
        devices = [];
        result_revision = 1;
        event_sequence = 0;
        events = [];
        saved_view_revision = initial_saved_view_revision;
        saved_views = [];
        kiosk_operations = [];
      })
      else none
