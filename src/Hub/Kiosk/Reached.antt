-- ===== src/Hub/Kiosk/Reached.antt =====
-- crates/fleet-hub: runs that mix observations, saved-view mutations and Kiosk calls.
use Prim.Native.String.{String}
use rusty_fleet.Prelude.{◌≡◌, some, [], arith, ℤ, ok, ℕ}
use rusty_fleet.Contracts.Violation.{ValidateContract, Serialize}
use rusty_fleet.Contracts.Identity.{DeviceObservation}
use rusty_fleet.Contracts.Kiosk.{KioskShowControlsOperation}
use rusty_fleet.Hub.State.{FleetHub, HubPolicy, new}
use rusty_fleet.Contracts.SavedView.{SavedViewMutationRequest, SavedViewMutationReceipt}
use rusty_fleet.Hub.Observe.{accept_observation}
use rusty_fleet.Hub.SavedViews.{upsert_saved_view, delete_saved_view}
use rusty_fleet.Hub.Steps.{
  observe_keeps_operations, upsert_keeps_operations, delete_keeps_operations,
}
use rusty_fleet.Hub.Kiosk.Steps.{KioskStep}
use rusty_fleet.Hub.Kiosk.Soundness.{IsSound, KioskStep-IsSound}

module _ {V S : Type 0} ⦃streams : ValidateContract S⦄
    ⦃json : Serialize (DeviceObservation V S)⦄ where
  -- A Hub that a mix of calls reaches from a new one: observations at any time, accepted or not, and
  -- the saved-view mutations and Kiosk calls that succeed.
  pub data IsReachedBy : FleetHub V S → Type 0 where
    started : (policy : HubPolicy) (hub : FleetHub V S) → new policy ≡ some hub → IsReachedBy hub
    observed :
        (hub : FleetHub V S) (o : DeviceObservation V S) (now_ms : ℤ)
        → IsReachedBy hub
        → IsReachedBy (accept_observation hub o now_ms).0
    upserted :
        (hub next : FleetHub V S) (request : SavedViewMutationRequest)
        (receipt : SavedViewMutationReceipt)
        → IsReachedBy hub
        → upsert_saved_view hub request ≡ ok (next, receipt)
        → IsReachedBy next
    deleted :
        (hub next : FleetHub V S) (view_id : String) (expected : ℕ)
        (receipt : SavedViewMutationReceipt)
        → IsReachedBy hub
        → delete_saved_view hub view_id expected ≡ ok (next, receipt)
        → IsReachedBy next
    called :
        (hub next : FleetHub V S) (o : KioskShowControlsOperation)
        → IsReachedBy hub
        → KioskStep hub next o
        → IsReachedBy next

  empty-IsSound : (hub : FleetHub V S) → hub.kiosk_operations ≡ [] → IsSound hub
  empty-IsSound hub e = record { filed = rw e tt; sorted = rw e tt; bounded = rw e (omega arith) }

  same-IsSound :
      (hub next : FleetHub V S)
      → next.kiosk_operations ≡ hub.kiosk_operations
      → IsSound hub
      → IsSound next
  same-IsSound hub next e s = record {
    filed = rw e s.filed;
    sorted = rw e s.sorted;
    bounded = rw e s.bounded;
  }

  new_operations :
      (policy : HubPolicy) (hub : FleetHub V S) → new policy ≡ some hub → hub.kiosk_operations ≡ []
  unfolding new
  new_operations policy hub h = ground arith

  -- In every Hub that a mix of observations at any times and of successful saved-view mutations and
  -- Kiosk calls reaches from a new one, each Kiosk operation is valid and filed under its own identifier, the operations are in the
  -- order of the identifiers, and there are at most 1000 of them.
  pub reached-IsSound : (hub : FleetHub V S) → IsReachedBy hub → IsSound hub
  reached-IsSound _ (started policy hub h) = empty-IsSound hub (new_operations policy hub h)
  reached-IsSound _ (observed hub o now_ms before) =
      same-IsSound hub _ (observe_keeps_operations hub o now_ms) (reached-IsSound hub before)
  reached-IsSound _ (upserted hub next request receipt before h) =
      same-IsSound hub next (upsert_keeps_operations hub next request receipt h)
        (reached-IsSound hub before)
  reached-IsSound _ (deleted hub next view_id expected receipt before h) =
      same-IsSound hub next (delete_keeps_operations hub next view_id expected receipt h)
        (reached-IsSound hub before)
  reached-IsSound _ (called hub next o before step) =
      KioskStep-IsSound hub next o step (reached-IsSound hub before)
