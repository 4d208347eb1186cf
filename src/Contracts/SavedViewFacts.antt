-- ===== src/Contracts/SavedViewFacts.antt =====
-- What valid saved views and collections satisfy: crates/fleet-contracts/src/projection.rs.
use Prim.Native.String.{String, compare as compare_text}
use rusty_fleet.Prelude.{
  ℕ, suc, ◌≤◌, ◌<◌, Ordering, ◌≡◌, refl, ap, Bool, true, false, ◌&&◌, Option, none, some, List, [],
  ◌∷◌, arith, is_none_or, length, All, ok, is_ok, str_eq, str_eq_refl, is_blank, not,
}
use rusty_fleet.BTreeMap.{BTreeMap, values, Sorted}
use rusty_fleet.Order.{text_ord}
use rusty_fleet.Contracts.Violation.{
  ContractViolation, finish, require_nonempty, failures_of, prefixed, prefixed_nil, finish_iff,
  groups, groups_nil, violation_if_nil,
}
use rusty_fleet.Contracts.ViewId.{is_valid_saved_view_id}
use rusty_fleet.Contracts.SavedView.{
  SavedView, validate_view, validate_collection, collection_failures, view_groups, validate_request,
  SavedViewMutationRequest, SavedViewMutationReceipt, receipt_is_inconsistent, validate_receipt,
  request_groups,
}

length-values {ℓ κ} : {K : Type ℓ} {V : Type κ} (m : BTreeMap K V) → length (values m) ≡ length m
length-values [] = refl
length-values ((k, v) ∷ m) = ap suc (length-values m)

not-false : (b : Bool) → not b ≡ false → b ≡ true
not-false true h = refl
not-false false h = cc

-- The views of a map in which each view is valid and stands under its own identifier.
abbrev pub ViewsAreValid : BTreeMap String SavedView → Type 0
ViewsAreValid = All (λ e. (e.1.view_id ≡ e.0) × (validate_view e.1 ≡ ok tt))

-- The views come after the one before them, if there is one.
abbrev IsAfter : Option String → BTreeMap String SavedView → Type 0
IsAfter none m = Unit
IsAfter (some p) m = All (λ e. compare_text p e.0 ≡ Ordering.lt) m

-- Such views, in the order of the keys, raise no failure.
collection_failures_none :
    (prior : Option String) (index : ℕ) (m : BTreeMap String SavedView)
    → ViewsAreValid m
    → Sorted m
    → IsAfter prior m
    → collection_failures prior index (values m) ≡ []
unfolding collection_failures prefixed
collection_failures_none prior index [] v s b = refl
collection_failures_none none index ((k, view) ∷ m) v s b =
    rw (v.0.1, v.0.0) (collection_failures_none (some k) (suc index) m v.1 s.1 s.0)
collection_failures_none (some p) index ((k, view) ∷ m) v s b =
    rw (v.0.1, v.0.0, b.0) (collection_failures_none (some k) (suc index) m v.1 s.1 s.0)

-- The collection that a well-formed map of views gives is valid.
pub validate_collection-ok :
    (m : BTreeMap String SavedView) (revision : ℕ)
    → ViewsAreValid m
    → Sorted m
    → 0 < revision
    → length m ≤ 128
    → validate_collection (record {
      schema = "rusty.fleet.saved_view_collection.v1";
      revision = revision;
      views = values m;
    })
      ≡ ok tt
unfolding validate_collection finish
validate_collection-ok m revision v s positive bounded =
    ground (arith, collection_failures_none none 0 m v s tt, length-values m)

finish_ok : (fs : List ContractViolation) → failures_of (finish fs) ≡ [] → finish fs ≡ ok tt
unfolding finish
finish_ok [] h = refl
finish_ok (f ∷ fs) h = cc

view_ok : (v : SavedView) → failures_of (validate_view v) ≡ [] → validate_view v ≡ ok tt
unfolding validate_view
view_ok v h = finish_ok (groups (view_groups v)) h

-- A valid request carries a valid view and names a positive revision.
pub request_facts :
    (r : SavedViewMutationRequest)
    → validate_request r ≡ ok tt
    → (0 < r.expected_revision) × (validate_view r.view ≡ ok tt)
unfolding validate_request request_groups
request_facts r h =
    let facts = groups_nil (request_groups r) (finish_iff (groups (request_groups r)) h) in
    let positive = violation_if_nil _ _ _ _ facts.1.0 in
    (ground arith, view_ok r.view (prefixed_nil _ (failures_of (validate_view r.view)) facts.1.1.0))

-- A valid view has a valid identifier.
pub view_id_valid :
    (v : SavedView) → validate_view v ≡ ok tt → is_valid_saved_view_id v.view_id ≡ true
unfolding validate_view view_groups
view_id_valid v h =
    let facts = groups_nil (view_groups v) (finish_iff (groups (view_groups v)) h) in
    not-false (is_valid_saved_view_id v.view_id) (violation_if_nil _ _ _ _ facts.1.1.1.1.0)

-- A receipt that continues the revision, says truthfully whether something changed, and carries a
-- valid view exactly when nothing was deleted, is valid.
pub receipt_ok :
    (r : SavedViewMutationReceipt)
    → r.schema ≡ "rusty.fleet.saved_view_mutation_receipt.v1"
    → is_valid_saved_view_id r.view_id ≡ true
    → is_blank r.view_id ≡ false
    → receipt_is_inconsistent r ≡ false
    → is_none_or r.view (λ v. str_eq v.view_id r.view_id && is_ok (validate_view v)) ≡ true
    → validate_receipt r ≡ ok tt
unfolding validate_receipt finish require_nonempty prefixed
receipt_ok r schema id text consistent view = ground (arith, str_eq_refl r.schema)
