-- ===== src/Contracts/SavedView.antt =====
-- crates/fleet-contracts/src/projection.rs: saved views, their collection, and the requests and
-- receipts that change it.
use Prim.Native.String.{String, len, ◌++◌ as concat, compare as compare_text}
use native.Mathlib.Decide.{ℕ_discrete}
use rusty_fleet.Prelude.{
  text_discrete, ℕ, suc, Bool, ◌&&◌, ◌||◌, Option, none, some, List, [], ◌∷◌, ◌++◌, ltb, ◌==◌,
  bool_eq, is_none, is_some_and, saturating_add, length, any, str_eq, is_blank, decimal, not,
}
use rusty_fleet.Order.{is_lt, text_ord}
use rusty_fleet.BTreeMap.{collect_set}
use rusty_fleet.Contracts.Violation.{
  Validation, ContractViolation, groups, violation_if, require_nonempty, finish, failures_of,
  prefixed,
}
use rusty_fleet.Contracts.ViewId.{is_valid_saved_view_id}
use rusty_fleet.Contracts.Query.{FleetQuery, validate_query}

pub record NavigationRestoration : Type 0 where
  pub selected_device_id : Option String
  pub inspector_tab : Option String
  pub scroll_anchor_device_id : Option String
  pub focused_region : Option String
  pub collapsed_groups : List String

pub record SavedView : Type 0 where
  pub schema : String
  pub view_id : String
  pub name : String
  pub query : FleetQuery
  pub columns : List String
  pub density : String
  pub grouping : Option String
  pub restoration : NavigationRestoration
  pub schema_version : ℕ

query_discrete : Discrete FleetQuery
query_discrete = hlevel (text_discrete, ℕ_discrete)

-- The derived `PartialEq` of `SavedView`.
pub view_discrete : Discrete SavedView
view_discrete = hlevel (text_discrete, ℕ_discrete, query_discrete)

-- `any` over the four optional texts of a restoration.
abbrev any_restoration_text : (String → Bool) → NavigationRestoration → Bool
any_restoration_text p r =
    is_some_and r.selected_device_id p
    || (is_some_and r.inspector_tab p
        || (is_some_and r.scroll_anchor_device_id p || is_some_and r.focused_region p))

abbrev is_bad_item : String → Bool
is_bad_item value = is_blank value || ltb 128 (len value)

unfoldable pub view_groups : SavedView → List (List ContractViolation)
view_groups v =
    violation_if (not (str_eq v.schema "rusty.fleet.saved_view.v1")) "wrong_schema" "schema"
      "expected rusty.fleet.saved_view.v1"
    ∷ require_nonempty v.view_id "view_id"
    ∷ require_nonempty v.name "name"
    ∷ require_nonempty v.density "density"
    ∷ violation_if (not (is_valid_saved_view_id v.view_id)) "invalid_saved_view_id" "view_id"
        "saved-view ID must use lowercase dotted-ID grammar"
    ∷ violation_if
        (ltb 256 (len v.name)
          || (ltb 32 (len v.density)
              || (is_some_and v.grouping (λ value. ltb 128 (len value))
                  || any_restoration_text (λ value. ltb 128 (len value)) v.restoration)))
        "saved_view_text_too_large" "saved_view"
        "saved-view identity, display, grouping, and restoration text is bounded"
    ∷ violation_if (is_some_and v.grouping is_blank || any_restoration_text is_blank v.restoration)
        "invalid_saved_view_text" "saved_view"
        "optional saved-view grouping and restoration text must be nonempty when present"
    ∷ violation_if (ltb 64 (length v.columns) || ltb 512 (length v.restoration.collapsed_groups))
        "saved_view_too_large" "saved_view"
        "saved-view column and collapsed-group limits were exceeded"
    ∷ violation_if (any is_bad_item v.columns || any is_bad_item v.restoration.collapsed_groups)
        "invalid_saved_view_item" "saved_view"
        "saved-view columns and collapsed groups must contain bounded nonempty text"
    ∷ violation_if
        (not (length (collect_set v.columns) == length v.columns)
          || not (
              length (collect_set v.restoration.collapsed_groups)
              == length v.restoration.collapsed_groups))
        "duplicate_saved_view_item" "saved_view"
        "saved-view columns and collapsed groups must be unique"
    ∷ violation_if
        (not (
          str_eq v.density "compact"
          || (str_eq v.density "standard" || str_eq v.density "comfortable")))
        "invalid_saved_view_density" "density"
        "saved-view density must be compact, standard, or comfortable"
    ∷ violation_if (v.schema_version == 0) "invalid_schema_version" "schema_version"
        "schema version must be greater than zero"
    ∷ prefixed "query." (failures_of (validate_query v.query))
    ∷ []

unfoldable pub validate_view : SavedView → Validation
validate_view v = finish (groups (view_groups v))

pub record SavedViewCollection : Type 0 where
  pub schema : String
  pub revision : ℕ
  pub views : List SavedView

-- The loop over the views, with the identifier of the one before.
unfoldable pub collection_failures : Option String → ℕ → List SavedView → List ContractViolation
collection_failures prior index [] = []
collection_failures prior index (view ∷ views) =
    prefixed (concat "views[" (concat (decimal index) "].")) (failures_of (validate_view view))
    ++ (violation_if (is_some_and prior (λ p. not (is_lt (compare_text p view.view_id))))
          "saved_views_not_canonical" "views" "saved views must be unique and ordered by view_id"
        ++ collection_failures (some view.view_id) (suc index) views)

unfoldable pub validate_collection : SavedViewCollection → Validation
validate_collection c = finish (
    violation_if (not (str_eq c.schema "rusty.fleet.saved_view_collection.v1")) "wrong_schema"
      "schema" "expected rusty.fleet.saved_view_collection.v1"
    ++ (violation_if (c.revision == 0) "invalid_revision" "revision"
          "saved-view collection revision must be greater than zero"
        ++ (violation_if (ltb 128 (length c.views)) "saved_view_collection_too_large" "views"
              "saved-view collections are limited to 128 entries"
            ++ collection_failures none 0 c.views)))

pub record SavedViewMutationRequest : Type 0 where
  pub schema : String
  pub expected_revision : ℕ
  pub view : SavedView

unfoldable pub request_groups : SavedViewMutationRequest → List (List ContractViolation)
request_groups r =
    violation_if (not (str_eq r.schema "rusty.fleet.saved_view_mutation_request.v1")) "wrong_schema"
      "schema" "expected rusty.fleet.saved_view_mutation_request.v1"
    ∷ violation_if (r.expected_revision == 0) "invalid_revision" "expected_revision"
        "expected saved-view revision must be greater than zero"
    ∷ prefixed "view." (failures_of (validate_view r.view))
    ∷ []

unfoldable pub validate_request : SavedViewMutationRequest → Validation
validate_request r = finish (groups (request_groups r))

pub record SavedViewMutationReceipt : Type 0 where
  pub schema : String
  pub view_id : String
  pub previous_revision : ℕ
  pub current_revision : ℕ
  pub changed : Bool
  pub deleted : Bool
  pub view : Option SavedView

abbrev receipt_view_failures : String → Option SavedView → List ContractViolation
receipt_view_failures view_id none = []
receipt_view_failures view_id (some view) =
    violation_if (not (str_eq view.view_id view_id)) "saved_view_identity_mismatch" "view.view_id"
      "receipt view identity must match view_id"
    ++ prefixed "view." (failures_of (validate_view view))

-- The condition of `invalid_saved_view_receipt`.
unfoldable pub receipt_is_inconsistent : SavedViewMutationReceipt → Bool
receipt_is_inconsistent r =
    not (is_valid_saved_view_id r.view_id)
    || (r.previous_revision == 0
        || (ltb r.current_revision r.previous_revision
            || (ltb (saturating_add r.previous_revision 1) r.current_revision
                || ((r.changed && r.current_revision == r.previous_revision)
                    || ((not r.changed && not (r.current_revision == r.previous_revision))
                        || ((r.deleted && not r.changed)
                            || not (bool_eq r.deleted (is_none r.view))))))))

unfoldable pub validate_receipt : SavedViewMutationReceipt → Validation
validate_receipt r = finish (
    violation_if (not (str_eq r.schema "rusty.fleet.saved_view_mutation_receipt.v1")) "wrong_schema"
      "schema" "expected rusty.fleet.saved_view_mutation_receipt.v1"
    ++ (require_nonempty r.view_id "view_id"
        ++ (violation_if (receipt_is_inconsistent r) "invalid_saved_view_receipt" "receipt"
              "saved-view receipt revision, deletion, or payload state is inconsistent"
            ++ receipt_view_failures r.view_id r.view)))
