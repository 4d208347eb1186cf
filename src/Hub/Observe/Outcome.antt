-- ===== src/Hub/Observe/Outcome.antt =====
-- What an observation does to the Hub, on each of its branches: crates/fleet-hub/src/lib.rs,
-- `accept_observation`.
use Prim.Native.String.{String}
use rusty_fleet.Prelude.{
  ℕ, ◌≡◌, refl, ◌≢◌, Option, none, some, List, [], arith, ℤ, saturating_add, ok, str_eq_refl,
}
use rusty_fleet.BTreeMap
use rusty_fleet.BTreeMap.{BTreeMap}
use rusty_fleet.BTreeMap.Laws.{get-insert_self, get-insert_ne}
use rusty_fleet.Order.{text_ord}
use rusty_fleet.Contracts.Violation.{ValidateContract, Serialize}
use rusty_fleet.Contracts.Identity.{DeviceObservation, validate_observation}
use rusty_fleet.Hub.State.{FleetHub, DeviceRecord, HubPolicy, RejectionReason, accepted, rejected}
use rusty_fleet.Hub.Observe.{
  record_event, rejection_reason, rejection, accepted_record, store_observation, decision_for,
  settle, invalid_decision, accept_validated, accept_observation,
}

module _ {V S : Type 0} where
  -- An observation is never newer than itself.
  rejection_reason_self :
      (policy : HubPolicy) (existing : DeviceRecord V S)
      → rejection_reason policy existing existing.observation
        ≡ some RejectionReason.duplicate_revision
  unfolding rejection_reason
  rejection_reason_self policy existing =
      let o = existing.observation in
      ground (
        arith,
        str_eq_refl o.identity.display_name,
        str_eq_refl o.identity.model,
        str_eq_refl o.identity.hardware_class,
        str_eq_refl o.source_epoch,
      )

  module _ ⦃streams : ValidateContract S⦄ ⦃json : Serialize (DeviceObservation V S)⦄ where
    -- The code's two tests, and what is done on each answer.
    pub accepted_inv :
        (hub : FleetHub V S) (o : DeviceObservation V S) (now_ms : ℤ) {r s : ℕ} {d : String}
        → (accept_observation hub o now_ms).1 ≡ accepted r d s
        → (validate_observation o ≡ ok tt)
          × (rejection hub o ≡ none)
          × (r ≡ saturating_add hub.result_revision 1)
          × (d ≡ o.identity.device_id)
          × (s ≡ o.source_revision)
          × ((accept_observation hub o now_ms).0
              ≡ record_event (store_observation hub o now_ms) now_ms (accepted r d s))
    unfolding accept_observation accept_validated settle decision_for invalid_decision
    accepted_inv hub o now_ms h = ground arith

    -- If an observation is accepted, it satisfies its contract and the decision names its device
    -- and revision. It becomes its device's record under the next result revision; every other
    -- device, the saved views and the kiosk operations stay as they were.
    pub accepted_effect :
        (hub : FleetHub V S) (o : DeviceObservation V S) (now_ms : ℤ) {r s : ℕ} {d : String}
        → (accept_observation hub o now_ms).1 ≡ accepted r d s
        → let next = (accept_observation hub o now_ms).0 in
          (d ≡ o.identity.device_id)
          × (s ≡ o.source_revision)
          × (validate_observation o ≡ ok tt)
          × (next.result_revision ≡ r)
          × (r ≡ saturating_add hub.result_revision 1)
          × (BTreeMap.get d next.devices
              ≡ some (accepted_record hub.policy (BTreeMap.get d hub.devices) o now_ms r))
          × ((j : String) → j ≢ d → BTreeMap.get j next.devices ≡ BTreeMap.get j hub.devices)
          × (next.saved_views ≡ hub.saved_views)
          × (next.kiosk_operations ≡ hub.kiosk_operations)
    unfolding record_event store_observation
    accepted_effect hub o now_ms {r} {s} {d} h =
        let (valid, free, e, p, q, stored) = accepted_inv hub o now_ms h in
        let id = o.identity.device_id in
        rw (stored, p, e)
          (
            refl,
            q,
            valid,
            refl,
            refl,
            get-insert_self id _ hub.devices,
            (λ j ne. get-insert_ne id j _ hub.devices ne),
            refl,
            refl,
          )

    pub rejected_inv :
        (hub : FleetHub V S) (o : DeviceObservation V S) (now_ms : ℤ) {r : ℕ} {d : Option String}
        {s : Option ℕ} {why : RejectionReason} {details : List String}
        → (accept_observation hub o now_ms).1 ≡ rejected r d s why details
        → (accept_observation hub o now_ms).0 ≡ record_event hub now_ms (rejected r d s why details)
    unfolding accept_observation accept_validated settle decision_for invalid_decision
    rejected_inv hub o now_ms h = ground arith

    -- A rejected observation changes nothing but the event log.
    pub rejected_keeps :
        (hub : FleetHub V S) (o : DeviceObservation V S) (now_ms : ℤ) {r : ℕ} {d : Option String}
        {s : Option ℕ} {why : RejectionReason} {details : List String}
        → (accept_observation hub o now_ms).1 ≡ rejected r d s why details
        → let next = (accept_observation hub o now_ms).0 in
          (next.devices ≡ hub.devices)
          × (next.result_revision ≡ hub.result_revision)
          × (next.saved_view_revision ≡ hub.saved_view_revision)
          × (next.saved_views ≡ hub.saved_views)
          × (next.kiosk_operations ≡ hub.kiosk_operations)
          × (next.policy ≡ hub.policy)
    unfolding record_event
    rejected_keeps hub o now_ms h =
        rw (rejected_inv hub o now_ms h) (refl, refl, refl, refl, refl, refl)

    -- The observation that a device's record holds is a duplicate.
    current_is_duplicate :
        (hub : FleetHub V S) (existing : DeviceRecord V S) (now_ms : ℤ)
        → validate_observation existing.observation ≡ ok tt
        → BTreeMap.get existing.observation.identity.device_id hub.devices ≡ some existing
        → (accept_observation hub existing.observation now_ms).1
          ≡ rejected hub.result_revision
              (some existing.observation.identity.device_id)
              (some existing.observation.source_revision)
              RejectionReason.duplicate_revision
              []
    unfolding accept_observation accept_validated rejection settle decision_for
    current_is_duplicate hub existing now_ms valid e =
        ground (arith, rejection_reason_self hub.policy existing)

    -- An observation that was just accepted is a duplicate when it comes again.
    pub resubmission_is_duplicate :
        (hub : FleetHub V S) (o : DeviceObservation V S) (now_ms later_ms : ℤ) {r s : ℕ}
        {d : String}
        → (accept_observation hub o now_ms).1 ≡ accepted r d s
        → (accept_observation (accept_observation hub o now_ms).0 o later_ms).1
          ≡ rejected r (some d) (some s) RejectionReason.duplicate_revision []
    unfolding accepted_record
    resubmission_is_duplicate hub o now_ms later_ms {r} {s} {d} h =
        let (p, q, valid, at, _, found, _, _, _) = accepted_effect hub o now_ms h in
        let next = (accept_observation hub o now_ms).0 in
        let id = o.identity.device_id in
        let kept = accepted_record hub.policy (BTreeMap.get id hub.devices) o now_ms r in
        rw (q, ← at, p) (current_is_duplicate next kept later_ms valid (rw p at found))

    pub accepted_not_rejected :
        (hub : FleetHub V S) (o : DeviceObservation V S) (now_ms : ℤ) {r s : ℕ} {d : String}
        {existing : DeviceRecord V S}
        → (accept_observation hub o now_ms).1 ≡ accepted r d s
        → BTreeMap.get d hub.devices ≡ some existing
        → rejection_reason hub.policy existing o ≡ none
    unfolding rejection
    accepted_not_rejected hub o now_ms h e =
        let (valid, free, x, p, q, stored) = accepted_inv hub o now_ms h in ground arith
