-- ===== src/Hub/ViewDeletion.antt =====
-- Deletion of a saved view: crates/fleet-hub/src/lib.rs, `delete_saved_view`.
use Prim.Native.String.{String}
use rusty_fleet.Prelude.{
  ℕ, ◌+◌, ◌<◌, ◌≡◌, refl, ◌≢◌, true, none, arith, is_some, u64_max, saturating_add_below, ok,
}
use rusty_fleet.BTreeMap
use rusty_fleet.BTreeMap.{BTreeMap, values, Sorted, contains_key}
use rusty_fleet.BTreeMap.Laws.{
  remove-Sorted, get-remove_self, get-remove_ne, length-remove, All-remove,
}
use rusty_fleet.Order.{text_ord}
use rusty_fleet.Contracts.ViewId.{valid_id_not_blank}
use rusty_fleet.Contracts.SavedView.{
  SavedViewMutationReceipt, validate_receipt, receipt_is_inconsistent,
}
use rusty_fleet.Contracts.SavedViewFacts.{receipt_ok}
use rusty_fleet.Hub.State.{FleetHub}
use rusty_fleet.Hub.SavedViews.{delete_saved_view}
use rusty_fleet.Hub.ViewLaws.{IsCurated, delete_inv}

module _ {V S : Type 0} where
  -- What a successful `delete` leaves when the saved views are valid and in order and the revision
  -- is below the limit of its counter: the revision it expected was current and it counts one
  -- further, the view was there and is gone, and no other view is touched. The saved views stay
  -- valid and in order, and the receipt is valid.
  pub delete_effect :
      (hub : FleetHub V S) (view_id : String) (expected : ℕ) {next : FleetHub V S}
      {receipt : SavedViewMutationReceipt}
      → IsCurated hub
      → hub.saved_view_revision < u64_max
      → delete_saved_view hub view_id expected ≡ ok (next, receipt)
      → (expected ≡ hub.saved_view_revision)
        × (next.saved_view_revision ≡ hub.saved_view_revision + 1)
        × (is_some (BTreeMap.get view_id hub.saved_views) ≡ true)
        × (BTreeMap.get view_id next.saved_views ≡ none)
        × ((j : String)
            → j ≢ view_id
            → BTreeMap.get j next.saved_views ≡ BTreeMap.get j hub.saved_views)
        × IsCurated next
        × (validate_receipt receipt ≡ ok tt)
  unfolding receipt_is_inconsistent
  delete_effect hub view_id expected c room h =
      let (id_valid, positive, current, there, left, got) = delete_inv hub view_id expected h in
      let views = hub.saved_views in
      rw (left, got)
        (
          current,
          refl,
          there,
          get-remove_self view_id views c.sorted,
          (λ j ne. get-remove_ne view_id j views ne),
          record {
            positive = omega arith;
            sorted = remove-Sorted view_id views c.sorted;
            valid = All-remove _ view_id views c.valid;
            bounded = omega (arith, length-remove view_id views, c.bounded);
          },
          receipt_ok _ refl id_valid (valid_id_not_blank view_id id_valid)
              (ground (arith, id_valid, c.positive, saturating_add_below hub.saved_view_revision 1))
              refl,
        )
