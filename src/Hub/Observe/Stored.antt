-- ===== src/Hub/Observe/Stored.antt =====
-- What an accepted observation leaves, field by field: crates/fleet-hub/src/lib.rs,
-- `accept_observation`.
use Prim.Native.String.{String}
use rusty_fleet.Prelude.{
  ℕ, ◌≡◌, refl, ap, ◌≢◌, inl, inr, Option, none, some, List, [], ◌∷◌, ◌++◌, if◌then◌else◌,
  Bool-cases, ℤ, saturating_add, All, ok,
}
use rusty_fleet.BTreeMap
use rusty_fleet.BTreeMap.{BTreeMap}
use rusty_fleet.Order.{text_ord}
use rusty_fleet.Contracts.Violation.{ValidateContract, Serialize}
use rusty_fleet.Contracts.Condition.{StatusCondition}
use rusty_fleet.Contracts.Identity.{DeviceObservation, validate_observation}
use rusty_fleet.Hub.State.{FleetHub, DeviceRecord, HubPolicy, WatchEvent, accepted}
use rusty_fleet.Hub.Observe.{
  accept_observation, accepted_record, record_event, store_observation, contains,
  watch_event_schema,
}
use rusty_fleet.Hub.Observe.Labels.{Among, is-Among, not_among}
use rusty_fleet.Hub.Observe.Outcome.{accepted_inv, accepted_effect}
use rusty_fleet.Prelude.{IsLatest, keep_last-IsLatest}

-- The epochs that were seen, with this one put last unless it is among them.
pub data AddsEpoch (e : String) (before after : List String) : Type 0 where
  known : Among e before → after ≡ before → AddsEpoch e before after
  added : All (λ x. e ≢ x) before → after ≡ before ++ e ∷ [] → AddsEpoch e before after

add_epoch :
    (e : String) (before : List String)
    → AddsEpoch e before (if contains e before then before else before ++ e ∷ [])
add_epoch e before = elim (Bool-cases (contains e before)) [
  | inl old ↦ rw old (known (is-Among e before old) refl)
  | inr new ↦ rw new (added (not_among e before new) refl)
]

module _ {V S : Type 0} where
  -- A record that holds the observation, with the conditions and epochs of the device up to now.
  pub record Holds (policy : HubPolicy) (conditions : List (StatusCondition V))
      (epochs : List String) (o : DeviceObservation V S) (now_ms : ℤ) (revision : ℕ)
      (r : DeviceRecord V S) : Type 0 where
    pub observed : r.observation ≡ o
    pub at : r.accepted_at_ms ≡ now_ms
    pub under : r.accepted_revision ≡ revision
    pub history :
        IsLatest policy.history_limit_per_device (conditions ++ o.conditions) r.condition_history
    pub seen : AddsEpoch o.source_epoch epochs r.seen_source_epochs

  -- What the device's place in the directory holds: its first record, or one that continues the record
  -- that was there.
  abbrev pub Continues :
      HubPolicy
      → Option (DeviceRecord V S)
      → DeviceObservation V S
      → ℤ
      → ℕ
      → DeviceRecord V S
      → Type 0
  Continues policy none o now_ms revision = Holds policy [] [] o now_ms revision
  Continues policy (some old) o now_ms revision =
      Holds policy old.condition_history old.seen_source_epochs o now_ms revision

  accepted_record-Continues :
      (policy : HubPolicy) (prior : Option (DeviceRecord V S)) (o : DeviceObservation V S)
      (now_ms : ℤ) (revision : ℕ)
      → Continues policy prior o now_ms revision (accepted_record policy prior o now_ms revision)
  unfolding accepted_record
  accepted_record-Continues policy none o now_ms revision = record {
    observed = refl;
    at = refl;
    under = refl;
    history = keep_last-IsLatest policy.history_limit_per_device o.conditions;
    seen = add_epoch o.source_epoch [];
  }
  accepted_record-Continues policy (some old) o now_ms revision = record {
    observed = refl;
    at = refl;
    under = refl;
    history =
        keep_last-IsLatest policy.history_limit_per_device (old.condition_history ++ o.conditions);
    seen = add_epoch o.source_epoch old.seen_source_epochs;
  }

  -- The Hub before and after an accepted observation.
  pub record Stores (hub : FleetHub V S) (o : DeviceObservation V S) (now_ms : ℤ) (revision : ℕ)
      (device_id : String) (next : FleetHub V S) : Type 0 where
    pub counted : revision ≡ saturating_add hub.result_revision 1
    pub revised : next.result_revision ≡ revision
    pub kept : DeviceRecord V S
    pub found : BTreeMap.get device_id next.devices ≡ some kept
    pub holds : Continues hub.policy (BTreeMap.get device_id hub.devices) o now_ms revision kept
    pub others :
        (j : String) → j ≢ device_id → BTreeMap.get j next.devices ≡ BTreeMap.get j hub.devices
    pub event : WatchEvent
    pub schema : event.schema ≡ "rusty.fleet.watch_event.v1"
    pub sequence : next.event_sequence ≡ saturating_add hub.event_sequence 1
    pub numbered : event.event_sequence ≡ next.event_sequence
    pub stamped : event.observed_at_ms ≡ now_ms
    pub decided : event.decision ≡ accepted revision device_id o.source_revision
    pub logged : IsLatest hub.policy.event_limit (hub.events ++ event ∷ []) next.events
    pub policy : next.policy ≡ hub.policy
    pub views : next.saved_views ≡ hub.saved_views
    pub view_revision : next.saved_view_revision ≡ hub.saved_view_revision
    pub operations : next.kiosk_operations ≡ hub.kiosk_operations

module _ {V S : Type 0} ⦃streams : ValidateContract S⦄
    ⦃json : Serialize (DeviceObservation V S)⦄ where
  -- If an observation is accepted, it satisfies its contract and the decision names its device and
  -- source revision. Under the next result revision the device's place in the directory holds the
  -- observation with the time of its acceptance, the latest of the device's conditions up to the
  -- limit, these last, and the epochs it was seen under, this one included. The other devices stay
  -- as they were. The acceptance is the newest event of the log, which keeps its latest events up to
  -- its limit. The policy, the saved views with their revision and the Kiosk operations do not change.
  pub accepted-Stores :
      (hub : FleetHub V S) (o : DeviceObservation V S) (now_ms : ℤ) {r s : ℕ} {d : String}
      → (accept_observation hub o now_ms).1 ≡ accepted r d s
      → (validate_observation o ≡ ok tt)
        × (d ≡ o.identity.device_id)
        × (s ≡ o.source_revision)
        × Stores hub o now_ms r d (accept_observation hub o now_ms).0
  unfolding record_event store_observation
  accepted-Stores hub o now_ms {r} {s} {d} h =
      let (named, numbered, valid, revised, counted, found, others, views, kiosk) =
        accepted_effect hub o now_ms h in
      let (_, _, _, _, _, after) = accepted_inv hub o now_ms h in
      (
        valid,
        named,
        numbered,
        record {
          counted = counted;
          revised = revised;
          kept = accepted_record hub.policy (BTreeMap.get d hub.devices) o now_ms r;
          found = found;
          holds = accepted_record-Continues hub.policy (BTreeMap.get d hub.devices) o now_ms r;
          others = others;
          event = record {
            schema = watch_event_schema;
            event_sequence = saturating_add hub.event_sequence 1;
            observed_at_ms = now_ms;
            decision = accepted r d s;
          };
          schema = refl;
          sequence = rw after refl;
          numbered = rw after refl;
          stamped = refl;
          decided = ap (accepted r d) numbered;
          logged = rw after (keep_last-IsLatest hub.policy.event_limit _);
          policy = rw after refl;
          views = views;
          view_revision = rw after refl;
          operations = kiosk;
        },
      )
