-- ===== src/Hub/Steps.antt =====
-- Runs of the Hub, as sequences of its operations from `FleetHub::new`: crates/fleet-hub/src/lib.rs.
use Prim.Native.String.{String}
use rusty_fleet.Prelude.{
  ℕ, ◌<◌, ◌≡◌, refl, ◌∙◌, [], arith, Bool, true, false, some, ℤ, pos, ◌≤ℤ◌, u64_max, ok,
}
use rusty_fleet.Contracts.Violation.{ValidateContract, Serialize}
use rusty_fleet.Contracts.Identity.{DeviceObservation}
use rusty_fleet.Contracts.SavedView.{SavedViewMutationRequest, SavedViewMutationReceipt}
use rusty_fleet.Hub.State.{FleetHub, HubPolicy, new}
use rusty_fleet.Hub.Observe.{
  accept_observation, accept_validated, settle, record_event, store_observation,
}
use rusty_fleet.Hub.SavedViews.{upsert_saved_view, delete_saved_view, store_if_changed}
use rusty_fleet.Hub.Restore.{snapshot, kiosk_operations_are_invalid, restore_core}
use rusty_fleet.Hub.ViewLaws.{upsert_keeps, upsert_inv, delete_inv, store_view_inv, IsCurated}
use rusty_fleet.Hub.ViewDeletion.{delete_effect}
use rusty_fleet.Hub.WellFormed.{IsWellFormed, observe-IsWellFormed, new-IsWellFormed}
use rusty_fleet.Hub.RoundTrip.{restore_snapshot}
use mathlib.Core.Path.{subst}

module _ {V S : Type 0} ⦃streams : ValidateContract S⦄
    ⦃json : Serialize (DeviceObservation V S)⦄ where
  -- One call of the Hub, below the limits of its counters and at a time that is not negative.
  pub data Step : FleetHub V S → FleetHub V S → Type 0 where
    observe :
        (hub : FleetHub V S) (o : DeviceObservation V S) (now_ms : ℤ)
        → pos 0 ≤ℤ now_ms
        → hub.event_sequence < u64_max
        → Step hub (accept_observation hub o now_ms).0
    upsert :
        (hub next : FleetHub V S) (request : SavedViewMutationRequest)
        (receipt : SavedViewMutationReceipt)
        → hub.saved_view_revision < u64_max
        → upsert_saved_view hub request ≡ ok (next, receipt)
        → Step hub next
    delete :
        (hub next : FleetHub V S) (view_id : String) (expected : ℕ)
        (receipt : SavedViewMutationReceipt)
        → hub.saved_view_revision < u64_max
        → delete_saved_view hub view_id expected ≡ ok (next, receipt)
        → Step hub next

  -- A Hub that a run of the operations reaches from a new one.
  pub data IsReached : FleetHub V S → Type 0 where
    started : (policy : HubPolicy) (hub : FleetHub V S) → new policy ≡ some hub → IsReached hub
    stepped : (hub next : FleetHub V S) → IsReached hub → Step hub next → IsReached next

  -- A mutation of the saved views leaves the directory and the log alone.
  IsUntouched : FleetHub V S → FleetHub V S → Type 0
  IsUntouched hub next =
      (next.policy ≡ hub.policy)
      × (next.devices ≡ hub.devices)
      × (next.result_revision ≡ hub.result_revision)
      × (next.event_sequence ≡ hub.event_sequence)
      × (next.events ≡ hub.events)
      × (next.kiosk_operations ≡ hub.kiosk_operations)

  store_if_changed-IsUntouched :
      (changed : Bool) (hub next : FleetHub V S) (request : SavedViewMutationRequest)
      → store_if_changed changed hub request.view ≡ ok next
      → IsUntouched hub next
  unfolding store_if_changed IsUntouched
  store_if_changed-IsUntouched true hub next request h =
      rw ((store_view_inv hub request.view h).0) (refl, refl, refl, refl, refl, refl)
  store_if_changed-IsUntouched false hub next request h =
      let same : hub ≡ next = cc in
      subst (IsUntouched hub) same (refl, refl, refl, refl, refl, refl)

  IsUntouched-IsWellFormed :
      (hub next : FleetHub V S)
      → IsUntouched hub next
      → IsCurated next
      → IsWellFormed hub
      → IsWellFormed next
  unfolding IsUntouched
  IsUntouched-IsWellFormed hub next (p, d, n, s, e, _) c w = record {
    filed = record {
      positive = rw n w.filed.positive;
      counted = rw n w.filed.counted;
      epochs_kept = rw p w.filed.epochs_kept;
      sorted = rw d w.filed.sorted;
      valid = rw (p, d, n) w.filed.valid;
    };
    logged = record {
      start = w.logged.start;
      numbered = rw e w.logged.numbered;
      reaches = rw (e, s) w.logged.reaches;
      bounded = rw (e, p) w.logged.bounded;
      counted = rw s w.logged.counted;
    };
    curated = c;
  }

  pub Step-IsWellFormed :
      (hub next : FleetHub V S) → Step hub next → IsWellFormed hub → IsWellFormed next
  unfolding IsUntouched
  Step-IsWellFormed _ _ (observe hub o now_ms time room) w =
      observe-IsWellFormed hub o now_ms w time room
  Step-IsWellFormed _ _ (upsert hub next request receipt room h) w =
      let (_, _, stored, _) = upsert_inv hub request h in
      IsUntouched-IsWellFormed hub next (store_if_changed-IsUntouched _ hub next request stored)
        (upsert_keeps hub request w.curated room h).0 w
  Step-IsWellFormed _ _ (delete hub next view_id expected receipt room h) w =
      let (_, _, _, _, left, _) = delete_inv hub view_id expected h in
      let (_, _, _, _, _, curated, _) = delete_effect hub view_id expected w.curated room h in
      IsUntouched-IsWellFormed hub next (rw left (refl, refl, refl, refl, refl, refl)) curated w

  -- Every Hub that is reached is well-formed.
  pub reached-IsWellFormed : (hub : FleetHub V S) → IsReached hub → IsWellFormed hub
  reached-IsWellFormed _ (started policy hub h) = new-IsWellFormed policy h
  reached-IsWellFormed _ (stepped hub next before step) =
      Step-IsWellFormed hub next step (reached-IsWellFormed hub before)

  pub observe_keeps_operations :
      (hub : FleetHub V S) (o : DeviceObservation V S) (now_ms : ℤ)
      → (accept_observation hub o now_ms).0.kiosk_operations ≡ hub.kiosk_operations
  unfolding accept_observation accept_validated settle record_event store_observation
  observe_keeps_operations hub o now_ms = ground arith

  pub upsert_keeps_operations :
      (hub next : FleetHub V S) (request : SavedViewMutationRequest)
      (receipt : SavedViewMutationReceipt)
      → upsert_saved_view hub request ≡ ok (next, receipt)
      → next.kiosk_operations ≡ hub.kiosk_operations
  unfolding IsUntouched
  upsert_keeps_operations hub next request receipt h =
      let (_, _, stored, _) = upsert_inv hub request h in
      (store_if_changed-IsUntouched _ hub next request stored).5

  pub delete_keeps_operations :
      (hub next : FleetHub V S) (view_id : String) (expected : ℕ)
      (receipt : SavedViewMutationReceipt)
      → delete_saved_view hub view_id expected ≡ ok (next, receipt)
      → next.kiosk_operations ≡ hub.kiosk_operations
  delete_keeps_operations hub next view_id expected receipt h =
      let (_, _, _, _, left, _) = delete_inv hub view_id expected h in rw left refl

  Step-operations :
      (hub next : FleetHub V S) → Step hub next → next.kiosk_operations ≡ hub.kiosk_operations
  Step-operations _ _ (observe hub o now_ms time room) = observe_keeps_operations hub o now_ms
  Step-operations _ _ (upsert hub next request receipt room h) =
      upsert_keeps_operations hub next request receipt h
  Step-operations _ _ (delete hub next view_id expected receipt room h) =
      delete_keeps_operations hub next view_id expected receipt h

  -- These runs make no Kiosk operation.
  no_operations : (hub : FleetHub V S) → IsReached hub → hub.kiosk_operations ≡ []
  unfolding new
  no_operations _ (started policy hub h) = ground arith
  no_operations _ (stepped hub next before step) =
      Step-operations hub next step ∙ no_operations hub before

  operations_pass :
      (hub : FleetHub V S)
      → hub.kiosk_operations ≡ []
      → kiosk_operations_are_invalid (snapshot hub) ≡ false
  unfolding kiosk_operations_are_invalid snapshot
  operations_pass hub h = rw h refl

  -- Whatever run of observations and saved-view mutations a Hub is reached by from a new one, at
  -- times that are not negative and below the limits of the counters, `restore` under its policy
  -- takes its snapshot back and gives that Hub again.
  pub reached_snapshot_restores :
      (hub : FleetHub V S) → IsReached hub → restore_core hub.policy (snapshot hub) ≡ ok hub
  reached_snapshot_restores hub r =
      restore_snapshot hub (reached-IsWellFormed hub r) (operations_pass hub (no_operations hub r))
