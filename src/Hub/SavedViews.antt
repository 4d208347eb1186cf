-- ===== src/Hub/SavedViews.antt =====
-- crates/fleet-hub/src/lib.rs: the revisioned collection of saved views. A mutation names the revision
-- that it expects.
use Prim.Native.String.{String, ◌++◌ as concat}
use rusty_fleet.Prelude.{
  ℕ, Bool, true, false, ◌&&◌, ◌||◌, Option, none, some, leb, ◌==◌, is_none, is_none_or, checked_add,
  length, Result, ok, err, ◌>>=◌, ◌>>◌, fail_if, decimal, not,
}
use rusty_fleet.BTreeMap
use rusty_fleet.BTreeMap.{BTreeMap, values, contains_key}
use rusty_fleet.Order.{text_ord}
use rusty_fleet.Contracts.Violation.{Validation}
use rusty_fleet.Contracts.SavedView.{
  SavedView, SavedViewCollection, SavedViewMutationRequest, SavedViewMutationReceipt, view_discrete,
  validate_request,
}
use rusty_fleet.Contracts.ViewId.{is_valid_saved_view_id}
use rusty_fleet.Hub.State.{FleetHub, HubError}
use rusty_fleet.Hub.List.{joined_codes}

abbrev pub max_saved_views : ℕ
max_saved_views = 128

abbrev differs : SavedView → SavedView → Bool
differs existing view = elim (view_discrete existing view) [ yes _ ↦ false | no _ ↦ true ]

abbrev revision_conflict : ℕ → ℕ → HubError
revision_conflict expected current = record {
  code = "saved_view_revision_conflict";
  message =
      concat "expected saved-view revision "
        (concat (decimal expected) (concat ", current revision is " (decimal current)));
}

abbrev revision_exhausted : HubError
revision_exhausted = record {
  code = "saved_view_revision_exhausted";
  message = "saved-view revision is exhausted";
}

abbrev not_found : String → HubError
not_found view_id = record {
  code = "saved_view_not_found";
  message = concat "unknown saved view " view_id;
}

-- `checked_add(1).ok_or_else(..)`.
abbrev next_revision : Option ℕ → Result ℕ HubError
next_revision none = err revision_exhausted
next_revision (some n) = ok n

abbrev request_checked : Validation → Result (Unit {0}) HubError
request_checked (ok _) = ok tt
request_checked (err failures) =
    err (record { code = "invalid_saved_view"; message = joined_codes failures })

abbrev pub mutation_receipt :
    String → ℕ → ℕ → Bool → Bool → Option SavedView → SavedViewMutationReceipt
mutation_receipt view_id previous current changed deleted view = record {
  schema = "rusty.fleet.saved_view_mutation_receipt.v1";
  view_id = view_id;
  previous_revision = previous;
  current_revision = current;
  changed = changed;
  deleted = deleted;
  view = view;
}

module _ {V S : Type 0} where
  unfoldable pub saved_views : FleetHub V S → SavedViewCollection
  saved_views hub = record {
    schema = "rusty.fleet.saved_view_collection.v1";
    revision = hub.saved_view_revision;
    views = values hub.saved_views;
  }

  unfoldable pub saved_view : FleetHub V S → String → Result SavedView HubError
  saved_view hub view_id = elim (BTreeMap.get view_id hub.saved_views) [
    | none ↦ err (not_found view_id)
    | some view ↦ ok view
  ]

  unfoldable pub view_changed : FleetHub V S → SavedView → Bool
  view_changed hub view =
      is_none_or (BTreeMap.get view.view_id hub.saved_views) (λ existing. differs existing view)

  -- The body of `if changed { .. }`.
  unfoldable pub store_view : FleetHub V S → SavedView → Result (FleetHub V S) HubError
  store_view hub view = do
    fail_if
        (not (contains_key view.view_id hub.saved_views)
          && leb max_saved_views (length hub.saved_views))
        (record {
          code = "saved_view_limit_exceeded";
          message = "Fleet Hub supports at most 128 saved views";
        })
    revision ← next_revision (checked_add hub.saved_view_revision 1)
    ok (record hub {
      saved_view_revision = revision;
      saved_views = BTreeMap.insert view.view_id view hub.saved_views;
    })

  unfoldable pub store_if_changed : Bool → FleetHub V S → SavedView → Result (FleetHub V S) HubError
  store_if_changed true hub view = store_view hub view
  store_if_changed false hub view = ok hub

  unfoldable pub upsert_saved_view :
      FleetHub V S
      → SavedViewMutationRequest
      → Result (FleetHub V S × SavedViewMutationReceipt) HubError
  upsert_saved_view hub request = do
    request_checked (validate_request request)
    fail_if (not (request.expected_revision == hub.saved_view_revision))
        (revision_conflict request.expected_revision hub.saved_view_revision)
    let changed = view_changed hub request.view
    next ← store_if_changed changed hub request.view
    ok (
      next,
      mutation_receipt request.view.view_id hub.saved_view_revision next.saved_view_revision changed
          false (some request.view),
    )

  unfoldable pub delete_saved_view :
      FleetHub V S → String → ℕ → Result (FleetHub V S × SavedViewMutationReceipt) HubError
  delete_saved_view hub view_id expected_revision = do
    fail_if (not (is_valid_saved_view_id view_id) || expected_revision == 0) (record {
      code = "invalid_saved_view_delete";
      message = "saved-view deletion requires a bounded ID and positive expected revision";
    })
    fail_if (not (expected_revision == hub.saved_view_revision))
        (revision_conflict expected_revision hub.saved_view_revision)
    current ← next_revision (checked_add hub.saved_view_revision 1)
    fail_if (is_none (BTreeMap.get view_id hub.saved_views)) (not_found view_id)
    ok (
      record hub {
        saved_view_revision = current;
        saved_views = BTreeMap.remove view_id hub.saved_views;
      },
      mutation_receipt view_id hub.saved_view_revision current true true none,
    )
