-- ===== src/Hub/Observe.antt =====
-- crates/fleet-hub/src/lib.rs: `accept_observation` and `record_event`, the transaction by which a
-- device's signed check-in reaches the directory.
pub mod Outcome
pub mod Labels
pub mod Lineage
pub mod Stored
pub mod Seen
pub mod Runs
use Prim.Native.String.{String, ◌++◌ as concat}
use rusty_fleet.Prelude.{
  ℕ, ◌+◌, ◌-◌, ◌/◌, ◌<◌, Bool, ◌&&◌, ◌||◌, Option, none, some, List, [], ◌∷◌, ◌++◌, map, ltb, leb,
  ◌==◌, if◌then◌else◌, ℤ, ltb_ℤ, saturating_add, length, any, keep_last, ok, err, str_eq, is_blank,
  not,
}
use rusty_fleet.BTreeMap
use rusty_fleet.BTreeMap.{BTreeMap}
use rusty_fleet.Order.{Ord, text_ord}
use rusty_fleet.Contracts.Violation.{ContractViolation, Validation, ValidateContract, Serialize}
use rusty_fleet.Contracts.Condition.{StatusCondition}
use rusty_fleet.Contracts.Identity.{DeviceIdentity, DeviceObservation, validate_observation}
use rusty_fleet.Hub.State.{
  FleetHub, DeviceRecord, HubPolicy, WatchEvent, ObservationDecision, RejectionReason, accepted,
  rejected,
}

abbrev pub watch_event_schema : String
watch_event_schema = "rusty.fleet.watch_event.v1"

-- `nonempty`.
unfoldable pub nonempty : String → Option String
nonempty value = if is_blank value then none else some value

-- `format!("{}:{}:{}", code, path, message)` of each failure.
unfoldable pub detail_lines : List ContractViolation → List String
detail_lines =
    map (λ failure.
      concat failure.code (concat ":" (concat failure.path (concat ":" failure.message))))

-- `Vec<String>::contains`.
abbrev pub contains : String → List String → Bool
contains s = any (str_eq s)

-- The labels that may change only with the identity revision.
abbrev pub labels_differ : {V : Type 0} → DeviceIdentity V → DeviceIdentity V → Bool
labels_differ a b =
    not (str_eq a.display_name b.display_name)
    || (not (str_eq a.model b.model) || not (str_eq a.hardware_class b.hardware_class))

module _ {V S : Type 0} where
  unfoldable pub record_event : FleetHub V S → ℤ → ObservationDecision → FleetHub V S
  record_event hub observed_at_ms decision =
      let sequence = saturating_add hub.event_sequence 1 in
      record hub {
        event_sequence = sequence;
        events = keep_last hub.policy.event_limit (
            hub.events
            ++ record {
              schema = watch_event_schema;
              event_sequence = sequence;
              observed_at_ms = observed_at_ms;
              decision = decision;
            }
              ∷ []);
      }

  -- The `if`/`else if` chain against the record that the device already has.
  unfoldable pub rejection_reason :
      HubPolicy → DeviceRecord V S → DeviceObservation V S → Option RejectionReason
  rejection_reason policy existing o =
      let old = existing.observation in
      let same_identity = o.identity.identity_revision == old.identity.identity_revision in
      let same_epoch = str_eq o.source_epoch old.source_epoch in
      if same_identity && labels_differ o.identity old.identity
      then some RejectionReason.identity_conflict
      else if ltb o.identity.identity_revision old.identity.identity_revision
      then some RejectionReason.identity_revision_rollback
      else if ltb old.identity.identity_revision o.identity.identity_revision
          && not (o.source_revision == 1)
      then some RejectionReason.identity_revision_changed_without_restart
      else if not same_epoch && contains o.source_epoch existing.seen_source_epochs
      then some RejectionReason.source_epoch_replay
      else if not same_epoch
          && leb policy.source_epoch_limit_per_device (length existing.seen_source_epochs)
      then some RejectionReason.source_epoch_evidence_limit_exceeded
      else if same_identity && (not same_epoch && not (o.source_revision == 1))
      then some RejectionReason.source_epoch_changed_without_restart
      else if same_identity && (same_epoch && o.source_revision == old.source_revision)
      then some RejectionReason.duplicate_revision
      else if same_identity && (same_epoch && ltb o.source_revision old.source_revision)
      then some RejectionReason.stale_revision
      else if same_identity && (same_epoch && ltb_ℤ o.received_time_ms old.received_time_ms)
      then some RejectionReason.receive_time_regression
      else none

  -- `if let Some(existing) = self.devices.get(&device_id)`.
  unfoldable pub rejection : FleetHub V S → DeviceObservation V S → Option RejectionReason
  rejection hub o = elim (BTreeMap.get o.identity.device_id hub.devices) [
    | none ↦ none
    | some existing ↦ rejection_reason hub.policy existing o
  ]

  abbrev pub history_of : Option (DeviceRecord V S) → List (StatusCondition V)
  history_of none = []
  history_of (some r) = r.condition_history

  abbrev pub epochs_of : Option (DeviceRecord V S) → List String
  epochs_of none = []
  epochs_of (some r) = r.seen_source_epochs

  -- The record that an accepted observation leaves for its device.
  unfoldable pub accepted_record :
      HubPolicy → Option (DeviceRecord V S) → DeviceObservation V S → ℤ → ℕ → DeviceRecord V S
  accepted_record policy existing o now_ms revision =
      let epochs = epochs_of existing in
      record {
        observation = o;
        accepted_at_ms = now_ms;
        accepted_revision = revision;
        condition_history =
            keep_last policy.history_limit_per_device (history_of existing ++ o.conditions);
        seen_source_epochs =
            if contains o.source_epoch epochs then epochs else epochs ++ o.source_epoch ∷ [];
      }

  -- The state after the acceptance, before its event is recorded.
  unfoldable pub store_observation : FleetHub V S → DeviceObservation V S → ℤ → FleetHub V S
  store_observation hub o now_ms =
      let device_id = o.identity.device_id in
      let revision = saturating_add hub.result_revision 1 in
      record hub {
        result_revision = revision;
        devices =
            BTreeMap.insert device_id
              (accepted_record hub.policy (BTreeMap.get device_id hub.devices) o now_ms revision)
              hub.devices;
      }

  -- The decision for an observation that satisfies its contract.
  unfoldable pub decision_for :
      FleetHub V S → DeviceObservation V S → Option RejectionReason → ObservationDecision
  decision_for hub o (some reason) =
      rejected hub.result_revision (some o.identity.device_id) (some o.source_revision) reason []
  decision_for hub o none =
      accepted (saturating_add hub.result_revision 1) o.identity.device_id o.source_revision

  unfoldable pub settle :
      FleetHub V S
      → DeviceObservation V S
      → ℤ
      → Option RejectionReason
      → FleetHub V S × ObservationDecision
  settle hub o now_ms (some reason) =
      let decision = decision_for hub o (some reason) in
      (record_event hub now_ms decision, decision)
  settle hub o now_ms none =
      let decision = decision_for hub o none in
      (record_event (store_observation hub o now_ms) now_ms decision, decision)

  -- The decision for an observation that violates its contract.
  unfoldable pub invalid_decision :
      FleetHub V S → DeviceObservation V S → List ContractViolation → ObservationDecision
  invalid_decision hub o failures =
      rejected hub.result_revision (nonempty o.identity.device_id)
        (if ltb 0 o.source_revision then some o.source_revision else none)
        RejectionReason.contract_invalid (detail_lines failures)

  unfoldable pub accept_validated :
      FleetHub V S → DeviceObservation V S → ℤ → Validation → FleetHub V S × ObservationDecision
  accept_validated hub o now_ms (err failures) =
      let decision = invalid_decision hub o failures in (record_event hub now_ms decision, decision)
  accept_validated hub o now_ms (ok _) = settle hub o now_ms (rejection hub o)

  module _ ⦃streams : ValidateContract S⦄ ⦃json : Serialize (DeviceObservation V S)⦄ where
    unfoldable pub accept_observation :
        FleetHub V S → DeviceObservation V S → ℤ → FleetHub V S × ObservationDecision
    accept_observation hub o now_ms = accept_validated hub o now_ms (validate_observation o)
