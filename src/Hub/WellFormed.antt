-- ===== src/Hub/WellFormed.antt =====
-- The invariant of the Hub, and that each modelled operation keeps it: crates/fleet-hub/src/lib.rs.
use Prim.Native.String.{String}
use rusty_fleet.Prelude.{
  ℕ, ◌≤◌, ◌<◌, ◌≡◌, refl, Option, none, some, [], ◌∷◌, arith, ℤ, pos, ◌≤ℤ◌, u64_max, saturating_add,
  le-saturating_add, saturating_add-le, All, ok, saturating_add_pos,
}
use mathlib.Core.Path.{subst}
use rusty_fleet.BTreeMap
use rusty_fleet.BTreeMap.{BTreeMap, Sorted}
use rusty_fleet.BTreeMap.Laws.{insert-Sorted, All-insert_entry, get-All}
use rusty_fleet.Order.{text_ord}
use rusty_fleet.Contracts.Violation.{ValidateContract, Serialize}
use rusty_fleet.Contracts.Identity.{DeviceObservation, validate_observation}
use rusty_fleet.Hub.State.{
  FleetHub, DeviceRecord, HubPolicy, ObservationDecision, accepted, rejected, new,
  policy_is_ordered,
}
use rusty_fleet.Hub.Observe.{accept_observation, record_event, store_observation, rejection_reason}
use rusty_fleet.Hub.Observe.Outcome.{accepted_inv, rejected_inv, accepted_not_rejected}
use rusty_fleet.Hub.Observe.Runs.{was_accepted, was_rejected, view_decision}
use rusty_fleet.Hub.Events.{IsLogged, record_event-IsLogged}
use rusty_fleet.Hub.Records.{
  RecordIsValid, RecordIsValid-later, PriorIsValid, accepted_record-IsValid,
}
use rusty_fleet.Hub.ViewLaws.{IsCurated}

module _ {V S : Type 0} ⦃streams : ValidateContract S⦄
    ⦃json : Serialize (DeviceObservation V S)⦄ where
  abbrev pub RecordsAreValid : HubPolicy → ℕ → BTreeMap String (DeviceRecord V S) → Type 0
  RecordsAreValid policy revision = All (λ e. RecordIsValid policy revision e.0 e.1)

  -- The directory's part of the invariant.
  pub record IsFiled (hub : FleetHub V S) : Type 0 where
    pub positive : 0 < hub.result_revision
    pub counted : hub.result_revision ≤ u64_max
    pub epochs_kept : 0 < hub.policy.source_epoch_limit_per_device
    pub sorted : Sorted hub.devices
    pub valid : RecordsAreValid hub.policy hub.result_revision hub.devices

  pub record IsWellFormed (hub : FleetHub V S) : Type 0 where
    pub filed : IsFiled hub
    pub logged : IsLogged hub
    pub curated : IsCurated hub

  later_records :
      (policy : HubPolicy) (n k : ℕ) (m : BTreeMap String (DeviceRecord V S))
      → n ≤ k
      → RecordsAreValid policy n m
      → RecordsAreValid policy k m
  later_records policy n k [] h v = tt
  later_records policy n k ((id, r) ∷ m) h v =
      (RecordIsValid-later policy n k id r h v.0, later_records policy n k m h v.1)

  prior_valid :
      (hub : FleetHub V S) (o : DeviceObservation V S) (prior : Option (DeviceRecord V S))
      → IsFiled hub
      → BTreeMap.get o.identity.device_id hub.devices ≡ prior
      → ((r : DeviceRecord V S) → prior ≡ some r → rejection_reason hub.policy r o ≡ none)
      → PriorIsValid hub.policy hub.result_revision o.identity.device_id o prior
  prior_valid hub o none f e free = tt
  prior_valid hub o (some r) f e free =
      (get-All _ o.identity.device_id hub.devices f.valid e, free r refl)

  store_observation-IsFiled :
      (hub : FleetHub V S) (o : DeviceObservation V S) (now_ms : ℤ)
      → IsFiled hub
      → pos 0 ≤ℤ now_ms
      → validate_observation o ≡ ok tt
      → ((r : DeviceRecord V S)
          → BTreeMap.get o.identity.device_id hub.devices ≡ some r
          → rejection_reason hub.policy r o ≡ none)
      → IsFiled (store_observation hub o now_ms)
  unfolding store_observation
  store_observation-IsFiled hub o now_ms f time valid free =
      let id = o.identity.device_id in
      let n = hub.result_revision in
      let prior = BTreeMap.get id hub.devices in
      let kept =
        accepted_record-IsValid hub.policy n o prior now_ms f.epochs_kept f.counted time valid
          (prior_valid hub o prior f refl free) in
      record {
        positive = saturating_add_pos n f.counted;
        counted = saturating_add-le n 1;
        epochs_kept = f.epochs_kept;
        sorted = insert-Sorted id _ hub.devices f.sorted;
        valid = All-insert_entry _ id _ hub.devices kept (
            later_records hub.policy n (saturating_add n 1) hub.devices
              (le-saturating_add n 1 f.counted) f.valid);
      }

  record_event-IsFiled :
      (hub : FleetHub V S) (now_ms : ℤ) (d : ObservationDecision)
      → IsFiled hub
      → IsFiled (record_event hub now_ms d)
  unfolding record_event
  record_event-IsFiled hub now_ms d f = record {
    positive = f.positive;
    counted = f.counted;
    epochs_kept = f.epochs_kept;
    sorted = f.sorted;
    valid = f.valid;
  }

  -- The three parts of the invariant read only the fields named here.
  record_event-IsCurated :
      (hub : FleetHub V S) (now_ms : ℤ) (d : ObservationDecision)
      → IsCurated hub
      → IsCurated (record_event hub now_ms d)
  unfolding record_event
  record_event-IsCurated hub now_ms d c = record {
    positive = c.positive;
    sorted = c.sorted;
    valid = c.valid;
    bounded = c.bounded;
  }

  store_observation-IsCurated :
      (hub : FleetHub V S) (o : DeviceObservation V S) (now_ms : ℤ)
      → IsCurated hub
      → IsCurated (store_observation hub o now_ms)
  unfolding store_observation
  store_observation-IsCurated hub o now_ms c = record {
    positive = c.positive;
    sorted = c.sorted;
    valid = c.valid;
    bounded = c.bounded;
  }

  store_observation-IsLogged :
      (hub : FleetHub V S) (o : DeviceObservation V S) (now_ms : ℤ)
      → IsLogged hub
      → IsLogged (store_observation hub o now_ms)
  unfolding store_observation
  store_observation-IsLogged hub o now_ms w = record {
    start = w.start;
    numbered = w.numbered;
    reaches = w.reaches;
    bounded = w.bounded;
    counted = w.counted;
  }

  store_observation-room :
      (hub : FleetHub V S) (o : DeviceObservation V S) (now_ms : ℤ)
      → hub.event_sequence < u64_max
      → (store_observation hub o now_ms).event_sequence < u64_max
  unfolding store_observation
  store_observation-room hub o now_ms room = room

  log_decision :
      (hub : FleetHub V S) (now_ms : ℤ) (d : ObservationDecision)
      → IsWellFormed hub
      → hub.event_sequence < u64_max
      → IsWellFormed (record_event hub now_ms d)
  log_decision hub now_ms d w room = record {
    filed = record_event-IsFiled hub now_ms d w.filed;
    logged = record_event-IsLogged hub now_ms d w.logged room;
    curated = record_event-IsCurated hub now_ms d w.curated;
  }

  -- From a well-formed Hub, at a time that is not negative and below the limit of the event
  -- counter, every observation, accepted or not, leaves a well-formed Hub: each record satisfies
  -- what `restore` checks of it, the log is numbered without a gap up to the counter and within
  -- its limit, and the saved views are valid and in order.
  pub observe-IsWellFormed :
      (hub : FleetHub V S) (o : DeviceObservation V S) (now_ms : ℤ)
      → IsWellFormed hub
      → pos 0 ≤ℤ now_ms
      → hub.event_sequence < u64_max
      → IsWellFormed (accept_observation hub o now_ms).0
  observe-IsWellFormed hub o now_ms w time room =
      elim (view_decision (accept_observation hub o now_ms).1) [
        | was_rejected {r} {d} {s} {why} {details} q ↦
            rw (rejected_inv hub o now_ms q)
              (log_decision hub now_ms (rejected r d s why details) w room)
        | was_accepted {r} {s} {d} q ↦
            let (valid, _, _, p, _, stored) = accepted_inv hub o now_ms q in
            let after = store_observation hub o now_ms in
            let kept : IsWellFormed after = record {
              filed =
                  store_observation-IsFiled hub o now_ms w.filed time valid
                    (λ e found. accepted_not_rejected hub o now_ms q (rw p found));
              logged = store_observation-IsLogged hub o now_ms w.logged;
              curated = store_observation-IsCurated hub o now_ms w.curated;
            } in
            rw stored (
              log_decision after now_ms (accepted r d s) kept
                (store_observation-room hub o now_ms room))
      ]

  -- The Hub that `new` starts with.
  abbrev started : HubPolicy → FleetHub V S
  started p = record {
    policy = p;
    devices = [];
    result_revision = 1;
    event_sequence = 0;
    events = [];
    saved_view_revision = 1;
    saved_views = [];
    kiosk_operations = [];
  }

  new_inv :
      (p : HubPolicy) {hub : FleetHub V S}
      → new p ≡ some hub
      → (started p ≡ hub) × (0 < p.source_epoch_limit_per_device)
  unfolding new policy_is_ordered
  new_inv p h = ground arith

  -- `new` panics on a policy that is out of order, and gives a well-formed Hub on any other.
  pub new-IsWellFormed : (p : HubPolicy) {hub : FleetHub V S} → new p ≡ some hub → IsWellFormed hub
  new-IsWellFormed p h =
      let (same, room) = new_inv p h in
      subst IsWellFormed same (record {
        filed = record {
          positive = omega arith;
          counted = omega arith;
          epochs_kept = room;
          sorted = tt;
          valid = tt;
        };
        logged = record {
          start = 1;
          numbered = tt;
          reaches = refl;
          bounded = omega arith;
          counted = omega arith;
        };
        curated = record { positive = omega arith; sorted = tt; valid = tt; bounded = omega arith };
      })
