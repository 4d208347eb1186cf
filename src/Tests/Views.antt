-- ===== src/Tests/Views.antt =====
-- The theorems on saved views, at the runs of the test data.
use Prim.Native.String.{String}
use rusty_fleet.Prelude.{
  ◌+◌, ◌≡◌, refl, ◌≢◌, true, false, none, some, arith, is_some, ok, is_err, ◌↔◌,
}
use rusty_fleet.BTreeMap
use rusty_fleet.Order.{text_ord}
use rusty_fleet.Contracts.SavedView.{validate_receipt}
use rusty_fleet.Hub.SavedViews.{upsert_saved_view, delete_saved_view, mutation_receipt}
use rusty_fleet.Hub.ViewLaws.{IsCurated, upsert_effect, upsert_keeps}
use rusty_fleet.Hub.ViewDeletion.{delete_effect}
use rusty_fleet.Hub.ViewWriters.{racing_writer_refused}
use rusty_fleet.Tests.Data.{program, empty_hub, hub_with_rooms, rooms, put_rooms, put_renamed}

rooms_put :
    upsert_saved_view empty_hub put_rooms
    ≡ ok (hub_with_rooms, mutation_receipt "ops.rooms" 1 2 true false (some rooms))
unfolding program
rooms_put = refl

rooms_deleted :
    delete_saved_view hub_with_rooms "ops.rooms" 2
    ≡ ok (
      record empty_hub { saved_view_revision = 3 },
      mutation_receipt "ops.rooms" 2 3 true true none,
    )
unfolding program
rooms_deleted = refl

empty-IsCurated : IsCurated empty_hub
empty-IsCurated = record { positive = omega arith; sorted = tt; valid = tt; bounded = omega arith }

racing_writer_refused_example : is_err (upsert_saved_view hub_with_rooms put_renamed) ≡ true
racing_writer_refused_example =
    racing_writer_refused empty_hub put_rooms put_renamed rooms_put refl refl

upsert_keeps_example :
    IsCurated hub_with_rooms
    × (validate_receipt (mutation_receipt "ops.rooms" 1 2 true false (some rooms)) ≡ ok tt)
upsert_keeps_example = upsert_keeps empty_hub put_rooms empty-IsCurated (omega arith) rooms_put

upsert_effect_example :
    (put_rooms.expected_revision ≡ 1)
    × (empty_hub.saved_view_revision ≡ 1)
    × (hub_with_rooms.saved_view_revision ≡ 2)
    × (hub_with_rooms.saved_view_revision ≡ 2)
    × (BTreeMap.get "ops.rooms" hub_with_rooms.saved_views ≡ some rooms)
    × ((j : String)
        → j ≢ "ops.rooms"
        → BTreeMap.get j hub_with_rooms.saved_views ≡ BTreeMap.get j empty_hub.saved_views)
    × (hub_with_rooms.devices ≡ empty_hub.devices)
    × ((true ≡ false) ↔ (BTreeMap.get "ops.rooms" empty_hub.saved_views ≡ some rooms))
upsert_effect_example = upsert_effect empty_hub put_rooms rooms_put

rooms-IsCurated : IsCurated hub_with_rooms
rooms-IsCurated = (upsert_keeps empty_hub put_rooms empty-IsCurated (omega arith) rooms_put).0

delete_effect_example :
    (hub_with_rooms.saved_view_revision ≡ 2)
    × (3 ≡ hub_with_rooms.saved_view_revision + 1)
    × (is_some (BTreeMap.get "ops.rooms" hub_with_rooms.saved_views) ≡ true)
    × (BTreeMap.get "ops.rooms" empty_hub.saved_views ≡ none)
    × ((j : String)
        → j ≢ "ops.rooms"
        → BTreeMap.get j empty_hub.saved_views ≡ BTreeMap.get j hub_with_rooms.saved_views)
    × IsCurated (record empty_hub { saved_view_revision = 3 })
    × (validate_receipt (mutation_receipt "ops.rooms" 2 3 true true none) ≡ ok tt)
delete_effect_example =
    delete_effect hub_with_rooms "ops.rooms" 2 rooms-IsCurated (omega arith) rooms_deleted
