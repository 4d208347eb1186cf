-- ===== src/Hub/ViewWriters.antt =====
-- Concurrent writers of the saved views: crates/fleet-hub/src/lib.rs, `upsert_saved_view`.
use rusty_fleet.Prelude.{◌+◌, ◌≡◌, ◌≢◌, Bool, true, arith, if◌then◌else◌, ok, is_err, ℕ}
use rusty_fleet.Order.{text_ord}
use rusty_fleet.Contracts.SavedView.{SavedViewMutationRequest, SavedViewMutationReceipt}
use rusty_fleet.Hub.State.{FleetHub}
use rusty_fleet.Hub.SavedViews.{upsert_saved_view}
use rusty_fleet.Hub.ViewLaws.{upsert_effect}

racing_numbers :
    {mine theirs before after : ℕ} {changed : Bool}
    → mine ≡ before
    → after ≡ (if changed then before + 1 else before)
    → changed ≡ true
    → theirs ≡ mine
    → theirs ≡ after
    → ⊥
racing_numbers a b c d e = ground arith

module _ {V S : Type 0} where
  other_revision_refused :
      (hub : FleetHub V S) (request : SavedViewMutationRequest)
      → request.expected_revision ≢ hub.saved_view_revision
      → is_err (upsert_saved_view hub request) ≡ true
  unfolding upsert_saved_view
  other_revision_refused hub request h = ground arith

  -- Of two writers that expect the same revision, the second is refused once the first has changed
  -- something.
  pub racing_writer_refused :
      (hub : FleetHub V S) (request rival : SavedViewMutationRequest) {next : FleetHub V S}
      {receipt : SavedViewMutationReceipt}
      → upsert_saved_view hub request ≡ ok (next, receipt)
      → receipt.changed ≡ true
      → rival.expected_revision ≡ request.expected_revision
      → is_err (upsert_saved_view next rival) ≡ true
  racing_writer_refused hub request rival {next} h changed same =
      let (current, _, _, counted, _, _, _, _) = upsert_effect hub request h in
      let ahead : rival.expected_revision ≢ next.saved_view_revision =
        λ e. absurd (racing_numbers current counted changed same e) in
      other_revision_refused next rival ahead
