-- ===== src/Hub/ViewLaws.antt =====
-- The saved views of the Hub as a compare-and-swap register: crates/fleet-hub/src/lib.rs,
-- `upsert_saved_view` and `delete_saved_view`.
use Prim.Native.String.{String}
use rusty_fleet.Prelude.{
  ℕ, ◌+◌, ◌≤◌, ◌<◌, ◌≡◌, refl, ap, ◌≢◌, ◌⊎◌, inl, inr, Bool, true, false, none, some, arith,
  if◌then◌else◌, is_some, Option-cases, u64_max, checked_add, saturating_add_below, length, ok,
  str_eq_refl, ◌↔◌,
}
use mathlib.Core.Path.{subst}
use rusty_fleet.BTreeMap
use rusty_fleet.BTreeMap.{BTreeMap, values, Sorted, contains_key}
use rusty_fleet.BTreeMap.Laws.{
  get-insert_self, get-insert_ne, insert-Sorted, length-insert_old, length-insert-le,
  All-insert_entry,
}
use rusty_fleet.Order.{text_ord}
use rusty_fleet.Contracts.ViewId.{is_valid_saved_view_id, valid_id_not_blank}
use rusty_fleet.Contracts.SavedView.{
  SavedView, SavedViewMutationRequest, SavedViewMutationReceipt, validate_view, validate_request,
  validate_receipt, validate_collection, receipt_is_inconsistent, view_discrete,
}
use rusty_fleet.Contracts.SavedViewFacts.{
  ViewsAreValid, validate_collection-ok, request_facts, view_id_valid, receipt_ok,
}
use rusty_fleet.Hub.State.{FleetHub}
use rusty_fleet.Hub.SavedViews.{
  saved_views, upsert_saved_view, delete_saved_view, store_view, store_if_changed, view_changed,
  mutation_receipt,
}

-- An insertion under a key that is there, or below the limit, stays within the limit.
insert_fits :
    (id : String) (view : SavedView) (m : BTreeMap String SavedView)
    → Sorted m
    → length m ≤ 128
    → (contains_key id m ≡ true) ⊎ (length m < 128)
    → length (BTreeMap.insert id view m) ≤ 128
insert_fits id view m s b (inr room) = omega (arith, length-insert-le id view m)
insert_fits id view m s b (inl old) = elim (Option-cases (BTreeMap.get id m)) [
  | inl absent ↦ cc (old, ap is_some absent)
  | inr (w, found) ↦ omega (arith, length-insert_old id view w m s found)
]

receipt_consistent :
    (id : String) (before after : ℕ) (changed : Bool) (view : SavedView)
    → is_valid_saved_view_id id ≡ true
    → 0 < before
    → before < u64_max
    → after ≡ (if changed then before + 1 else before)
    → receipt_is_inconsistent (mutation_receipt id before after changed false (some view)) ≡ false
unfolding receipt_is_inconsistent
receipt_consistent id before after changed view valid positive room h =
    ground (arith, saturating_add_below before 1)

module _ {V S : Type 0} where
  -- What holds of the saved views between two operations.
  pub record IsCurated (hub : FleetHub V S) : Type 0 where
    pub positive : 0 < hub.saved_view_revision
    pub sorted : Sorted hub.saved_views
    pub valid : ViewsAreValid hub.saved_views
    pub bounded : length hub.saved_views ≤ 128

  -- The collection that the Hub gives out is valid.
  pub saved_views-valid :
      (hub : FleetHub V S) → IsCurated hub → validate_collection (saved_views hub) ≡ ok tt
  unfolding saved_views
  saved_views-valid hub c =
      validate_collection-ok hub.saved_views hub.saved_view_revision c.valid c.sorted c.positive
        c.bounded

  pub store_view_inv :
      (hub : FleetHub V S) (view : SavedView) {next : FleetHub V S}
      → store_view hub view ≡ ok next
      → (next ≡ record hub {
        saved_view_revision = hub.saved_view_revision + 1;
        saved_views = BTreeMap.insert view.view_id view hub.saved_views;
      })
        × ((contains_key view.view_id hub.saved_views ≡ true) ⊎ (length hub.saved_views < 128))
  unfolding store_view checked_add
  store_view_inv hub view h = ground arith

  pub upsert_inv :
      (hub : FleetHub V S) (request : SavedViewMutationRequest) {next : FleetHub V S}
      {receipt : SavedViewMutationReceipt}
      → upsert_saved_view hub request ≡ ok (next, receipt)
      → (validate_request request ≡ ok tt)
        × (request.expected_revision ≡ hub.saved_view_revision)
        × (store_if_changed (view_changed hub request.view) hub request.view ≡ ok next)
        × (receipt
            ≡ mutation_receipt request.view.view_id hub.saved_view_revision next.saved_view_revision
                (view_changed hub request.view)
                false
                (some request.view))
  unfolding upsert_saved_view
  upsert_inv hub request h = ground arith

  pub delete_inv :
      (hub : FleetHub V S) (view_id : String) (expected : ℕ) {next : FleetHub V S}
      {receipt : SavedViewMutationReceipt}
      → delete_saved_view hub view_id expected ≡ ok (next, receipt)
      → (is_valid_saved_view_id view_id ≡ true)
        × (0 < expected)
        × (expected ≡ hub.saved_view_revision)
        × (is_some (BTreeMap.get view_id hub.saved_views) ≡ true)
        × (next ≡ record hub {
          saved_view_revision = hub.saved_view_revision + 1;
          saved_views = BTreeMap.remove view_id hub.saved_views;
        })
        × (receipt
            ≡ mutation_receipt view_id hub.saved_view_revision
                (hub.saved_view_revision + 1)
                true
                true
                none)
  unfolding delete_saved_view checked_add
  delete_inv hub view_id expected h = ground arith

  store-IsCurated :
      (hub : FleetHub V S) (view : SavedView) {next : FleetHub V S}
      → IsCurated hub
      → validate_view view ≡ ok tt
      → store_view hub view ≡ ok next
      → IsCurated next
  store-IsCurated hub view c valid h =
      let (stored, room) = store_view_inv hub view h in
      let id = view.view_id in
      rw stored (record {
        positive = omega arith;
        sorted = insert-Sorted id view hub.saved_views c.sorted;
        valid = All-insert_entry _ id view hub.saved_views (refl, valid) c.valid;
        bounded = insert_fits id view hub.saved_views c.sorted c.bounded room;
      })

  store_if_changed-IsCurated :
      (changed : Bool) (hub : FleetHub V S) (view : SavedView) {next : FleetHub V S}
      → IsCurated hub
      → validate_view view ≡ ok tt
      → store_if_changed changed hub view ≡ ok next
      → IsCurated next
  unfolding store_if_changed
  store_if_changed-IsCurated true hub view c valid h = store-IsCurated hub view c valid h
  store_if_changed-IsCurated false hub view {next} c valid h =
      let same : hub ≡ next = cc in subst IsCurated same c

  unchanged_found :
      (hub : FleetHub V S) (view : SavedView)
      → view_changed hub view ≡ false
      → BTreeMap.get view.view_id hub.saved_views ≡ some view
  unfolding view_changed
  unchanged_found hub view h = ground arith

  found_unchanged :
      (hub : FleetHub V S) (view : SavedView)
      → BTreeMap.get view.view_id hub.saved_views ≡ some view
      → view_changed hub view ≡ false
  unfolding view_changed
  found_unchanged hub view h =
      rw h
        (elim (view_discrete view view) as (λ d. elim d [ yes _ ↦ false | no _ ↦ true ] ≡ false) [
          | yes _ ↦ refl
          | no n ↦ absurd (n refl)
        ])

  -- What storing a view under its identifier comes to, whether it is new or there already.
  abbrev IsStored : Bool → FleetHub V S → SavedView → FleetHub V S → Type 0
  IsStored changed hub view next =
      (next.saved_view_revision
        ≡ (if changed then hub.saved_view_revision + 1 else hub.saved_view_revision))
      × (BTreeMap.get view.view_id next.saved_views ≡ some view)
      × ((j : String)
          → j ≢ view.view_id
          → BTreeMap.get j next.saved_views ≡ BTreeMap.get j hub.saved_views)
      × (next.devices ≡ hub.devices)

  store_if_changed-IsStored :
      (changed : Bool) (hub : FleetHub V S) (view : SavedView) {next : FleetHub V S}
      → (changed ≡ false → BTreeMap.get view.view_id hub.saved_views ≡ some view)
      → store_if_changed changed hub view ≡ ok next
      → IsStored changed hub view next
  unfolding store_if_changed
  store_if_changed-IsStored true hub view there h =
      let id = view.view_id in
      rw ((store_view_inv hub view h).0) (
        refl,
        get-insert_self id view hub.saved_views,
        (λ j ne. get-insert_ne id j view hub.saved_views ne),
        refl,
      )
  store_if_changed-IsStored false hub view {next} there h =
      let same : hub ≡ next = cc in
      subst (IsStored false hub view) same (refl, there refl, (λ j ne. refl), refl)

  -- What a successful `upsert` leaves: the revision it expected was current, the receipt says that
  -- nothing changed exactly if this very view was stored under its identifier already, the revision
  -- counts one further exactly if something changed, the view can be read back, no other view is
  -- touched and no device.
  pub upsert_effect :
      (hub : FleetHub V S) (request : SavedViewMutationRequest) {next : FleetHub V S}
      {receipt : SavedViewMutationReceipt}
      → upsert_saved_view hub request ≡ ok (next, receipt)
      → (request.expected_revision ≡ hub.saved_view_revision)
        × (receipt.previous_revision ≡ hub.saved_view_revision)
        × (receipt.current_revision ≡ next.saved_view_revision)
        × (next.saved_view_revision
            ≡ (if receipt.changed then hub.saved_view_revision + 1 else hub.saved_view_revision))
        × (BTreeMap.get request.view.view_id next.saved_views ≡ some request.view)
        × ((j : String)
            → j ≢ request.view.view_id
            → BTreeMap.get j next.saved_views ≡ BTreeMap.get j hub.saved_views)
        × (next.devices ≡ hub.devices)
        × ((receipt.changed ≡ false)
            ↔ (BTreeMap.get request.view.view_id hub.saved_views ≡ some request.view))
  upsert_effect hub request h =
      let (valid, current, stored, got) = upsert_inv hub request h in
      let (counted, found, others, devices) =
        store_if_changed-IsStored (view_changed hub request.view) hub request.view
          (unchanged_found hub request.view) stored in
      rw got (
        current,
        refl,
        refl,
        counted,
        found,
        others,
        devices,
        (unchanged_found hub request.view, found_unchanged hub request.view),
      )

  -- If the saved views are valid, in order and within their limit, and the revision is below the
  -- limit of its counter, they are so after a successful `upsert`, and its receipt is valid, as
  -- the source asserts in debug builds.
  pub upsert_keeps :
      (hub : FleetHub V S) (request : SavedViewMutationRequest) {next : FleetHub V S}
      {receipt : SavedViewMutationReceipt}
      → IsCurated hub
      → hub.saved_view_revision < u64_max
      → upsert_saved_view hub request ≡ ok (next, receipt)
      → IsCurated next × (validate_receipt receipt ≡ ok tt)
  upsert_keeps hub request c room h =
      let (valid, current, stored, got) = upsert_inv hub request h in
      let (positive, view_valid) = request_facts request valid in
      let id_valid = view_id_valid request.view view_valid in
      let counted =
        (store_if_changed-IsStored (view_changed hub request.view) hub request.view
          (unchanged_found hub request.view) stored).0 in
      (
        store_if_changed-IsCurated (view_changed hub request.view) hub request.view c view_valid
            stored,
        rw got (
            receipt_ok _ refl id_valid (valid_id_not_blank request.view.view_id id_valid)
              (receipt_consistent request.view.view_id hub.saved_view_revision _
                (view_changed hub request.view) request.view id_valid c.positive room counted)
              (ground (arith, str_eq_refl request.view.view_id, view_valid))),
      )
