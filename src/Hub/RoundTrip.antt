-- ===== src/Hub/RoundTrip.antt =====
-- `restore` takes back what `snapshot` gives: crates/fleet-hub/src/lib.rs.
use Prim.Native.String.{String}
use rusty_fleet.Prelude.{
  ℕ, suc, ◌+◌, ◌≡◌, refl, true, false, List, [], ◌∷◌, arith, ltb, is_some_and, length, any, last,
  ok, str_eq, str_eq_iff, not,
}
use rusty_fleet.BTreeMap.{BTreeMap}
use rusty_fleet.Contracts.Violation.{ValidateContract, Serialize}
use rusty_fleet.Contracts.Identity.{DeviceObservation}
use rusty_fleet.Contracts.SavedView.{SavedView}
use rusty_fleet.Hub.State.{FleetHub, DeviceRecord, HubPolicy, WatchEvent}
use rusty_fleet.Hub.Observe.{watch_event_schema}
use rusty_fleet.Hub.SavedViews.{saved_views}
use rusty_fleet.Hub.Events.{Numbered}
use rusty_fleet.Hub.Records.{RecordIsValid-record_is_invalid}
use rusty_fleet.Hub.ViewLaws.{saved_views-valid}
use rusty_fleet.Hub.WellFormed.{IsWellFormed, RecordsAreValid}
use rusty_fleet.Hub.Restore.{
  snapshot, hub_of, any_window_bad, limits_are_invalid, events_are_invalid, saved_views_are_invalid,
  kiosk_operations_are_invalid, check_devices, restore_core, policies_differ, policy_discrete,
}
use rusty_fleet.Contracts.SavedViewFacts.{ViewsAreValid}

Numbered-windows :
    (start : ℕ) (es : List WatchEvent) → Numbered start es → any_window_bad es ≡ false
unfolding any_window_bad
Numbered-windows start [] h = refl
Numbered-windows start (e ∷ []) h = refl
Numbered-windows start (e ∷ f ∷ rest) h = ground (
  arith,
  Numbered-windows (suc start) (f ∷ rest) h.2,
  (str_eq_iff e.schema watch_event_schema).1 h.1,
)

-- The last of a run of numbered events has the last number and the schema of all.
Numbered-last :
    (start : ℕ) (es : List WatchEvent) (sequence : ℕ)
    → Numbered start es
    → start + length es ≡ sequence + 1
    → (is_some_and (last es) (λ e. ltb sequence e.event_sequence) ≡ false)
      × (is_some_and (last es) (λ e. not (str_eq e.schema watch_event_schema)) ≡ false)
Numbered-last start [] sequence h r = (refl, refl)
Numbered-last start (e ∷ []) sequence h r =
    (ground arith, ground (arith, (str_eq_iff e.schema watch_event_schema).1 h.1))
Numbered-last start (e ∷ f ∷ rest) sequence h r =
    Numbered-last (suc start) (f ∷ rest) sequence h.2 (omega arith)

views_filed :
    (m : BTreeMap String SavedView)
    → ViewsAreValid m
    → any (λ e. not (str_eq e.1.view_id e.0)) m ≡ false
views_filed [] h = refl
views_filed ((id, view) ∷ rest) h =
    ground (arith, (str_eq_iff view.view_id id).1 h.0.0, views_filed rest h.1)

decided {ℓ} :
    {A : Type ℓ} (a : A) (d : Dec (a ≡ a)) → elim d [ yes _ ↦ false | no _ ↦ true ] ≡ false
decided a (yes _) = refl
decided a (no n) = absurd (n refl)

policy_matches : (p : HubPolicy) → policies_differ p p ≡ false
policy_matches p = decided p (policy_discrete p p)

module _ {V S : Type 0} ⦃streams : ValidateContract S⦄
    ⦃json : Serialize (DeviceObservation V S)⦄ where
  devices_pass :
      (p : HubPolicy) (n : ℕ) (m : BTreeMap String (DeviceRecord V S))
      → RecordsAreValid p n m
      → check_devices p n m ≡ ok tt
  unfolding check_devices
  devices_pass p n [] h = refl
  devices_pass p n ((id, r) ∷ rest) h =
      rw (RecordIsValid-record_is_invalid p n id r h.0) (devices_pass p n rest h.1)

  limits_pass :
      (hub : FleetHub V S) → IsWellFormed hub → limits_are_invalid hub.policy (snapshot hub) ≡ false
  unfolding limits_are_invalid snapshot
  limits_pass hub w =
      let log = w.logged in
      ground (
        arith,
        w.filed.positive,
        log.bounded,
        (Numbered-last log.start hub.events hub.event_sequence log.numbered log.reaches).0,
      )

  events_pass : (hub : FleetHub V S) → IsWellFormed hub → events_are_invalid (snapshot hub) ≡ false
  unfolding events_are_invalid snapshot
  events_pass hub w =
      let log = w.logged in
      ground (
        arith,
        Numbered-windows log.start hub.events log.numbered,
        (Numbered-last log.start hub.events hub.event_sequence log.numbered log.reaches).1,
      )

  views_pass :
      (hub : FleetHub V S) → IsWellFormed hub → saved_views_are_invalid (snapshot hub) ≡ false
  unfolding saved_views_are_invalid snapshot saved_views
  views_pass hub w =
      let valid = saved_views-valid hub w.curated in
      rw valid (ground (arith, views_filed hub.saved_views w.curated.valid, w.curated.bounded))

  -- Under the policy it was taken with, `restore` takes back the snapshot of a well-formed Hub whose
  -- Kiosk operations pass the test of `restore`, and gives that Hub again.
  pub restore_snapshot :
      (hub : FleetHub V S)
      → IsWellFormed hub
      → kiosk_operations_are_invalid (snapshot hub) ≡ false
      → restore_core hub.policy (snapshot hub) ≡ ok hub
  unfolding restore_core snapshot hub_of
  restore_snapshot hub w k =
      rw
        (
          policy_matches hub.policy,
          limits_pass hub w,
          events_pass hub w,
          devices_pass hub.policy hub.result_revision hub.devices w.filed.valid,
          views_pass hub w,
          k,
        )
        refl
