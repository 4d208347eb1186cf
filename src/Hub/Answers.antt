-- ===== src/Hub/Answers.antt =====
-- What the answers of the Hub amount to: crates/fleet-hub/src/lib.rs, `summary` and `list`.
use Prim.Native.String.{String}
use rusty_fleet.Prelude.{
  ℕ, zero, suc, ◌+◌, ◌-◌, ◌≤◌, ◌<◌, min, ◌≡◌, refl, sym, ap, ◌∙◌, ◌≢◌, ◌⊎◌, inl, inr, List, [], ◌∷◌,
  map, arith, ℤ, ◌≤ℤ◌, saturating_sub_mono, u64_max, saturating_add, saturating_add_below, length,
  take, drop, any, filter, All, length-take, length-drop, length-filter-le, ok,
}
use rusty_fleet.BTreeMap.{values, BTreeMap}
use rusty_fleet.Contracts.Violation.{finish}
use rusty_fleet.Contracts.Query.{FleetQuery, validate_query}
use rusty_fleet.Contracts.Projection.{
  ProjectionFreshness, DeviceRowProjection, FleetQueryResult, validate_summary,
  validate_query_result,
}
use rusty_fleet.Hub.State.{FleetHub, HubPolicy, DeviceRecord}
use rusty_fleet.Hub.Rows.{row, row_age, freshness_of, is_offline}
use mathlib.Core.Path.{subst}
use rusty_fleet.Hub.Sorting.{length-sort_by}
use rusty_fleet.Hub.Query.{freshness_rank}
use rusty_fleet.Hub.List.{
  all_rows, summary, count_if, is_fresh, is_stale, selects, sorted_rows, query_window, list,
  needs_attention, compare_rows,
}

take_all {ℓ} : {A : Type ℓ} (k : ℕ) (xs : List A) → length xs ≤ k → take k xs ≡ xs
take_all zero [] h = refl
take_all zero (x ∷ xs) h = ground arith
take_all (suc k) [] h = refl
take_all (suc k) (x ∷ xs) h = ap (◌∷◌ x) (take_all k xs (omega arith))

drop_all {ℓ} : {A : Type ℓ} (k : ℕ) (xs : List A) → length xs ≤ k → drop k xs ≡ []
drop_all zero [] h = refl
drop_all zero (x ∷ xs) h = ground arith
drop_all (suc k) [] h = refl
drop_all (suc k) (x ∷ xs) h = drop_all k xs (omega arith)

take_same {ℓ} :
    {A : Type ℓ} (j k : ℕ) (xs : List A)
    → (j ≡ k) ⊎ ((length xs ≤ j) × (length xs ≤ k))
    → take j xs ≡ take k xs
take_same j k xs (inl e) = rw e refl
take_same j k xs (inr (a, b)) = take_all j xs a ∙ sym (take_all k xs b)

drop_same {ℓ} :
    {A : Type ℓ} (j k : ℕ) (xs : List A)
    → (j ≡ k) ⊎ ((length xs ≤ j) × (length xs ≤ k))
    → drop j xs ≡ drop k xs
drop_same j k xs (inl e) = rw e refl
drop_same j k xs (inr (a, b)) = drop_all j xs a ∙ sym (drop_all k xs b)

-- The window of the source, with its clamped bounds, is the plain one.
abbrev window_length : ℕ → ℕ → ℕ → ℕ
window_length offset limit total =
    min (saturating_add (min offset total) limit) total - min offset total

window_bounds :
    (offset limit total : ℕ)
    → total ≤ u64_max
    → ((min offset total ≡ offset) ⊎ ((total ≤ min offset total) × (total ≤ offset)))
      × ((window_length offset limit total ≡ limit)
          ⊎ ((total - offset ≤ window_length offset limit total) × (total - offset ≤ limit)))
unfolding saturating_add
window_bounds offset limit total h = ground arith

clamped_window {ℓ} :
    {A : Type ℓ} (offset limit : ℕ) (xs : List A)
    → length xs ≤ u64_max
    → take (window_length offset limit (length xs)) (drop (min offset (length xs)) xs)
      ≡ take limit (drop offset xs)
clamped_window offset limit xs h =
    let (start, size) = window_bounds offset limit (length xs) h in
    ap (take (window_length offset limit (length xs)))
      (drop_same (min offset (length xs)) offset xs start)
    ∙ take_same (window_length offset limit (length xs)) limit (drop offset xs)
        (rw (length-drop offset xs) size)

-- Under a policy whose deadlines are in order, the freshness of a record only falls as time
-- passes.
pub freshness_falls :
    (policy : HubPolicy) (accepted_at_ms now_ms later_ms : ℤ)
    → policy.stale_after_ms ≤ℤ policy.offline_after_ms
    → now_ms ≤ℤ later_ms
    → freshness_rank (freshness_of policy (row_age accepted_at_ms now_ms))
      ≤ freshness_rank (freshness_of policy (row_age accepted_at_ms later_ms))
unfolding freshness_rank freshness_of row_age
freshness_falls policy accepted_at_ms now_ms later_ms ordered later =
    ground (arith, saturating_sub_mono now_ms later_ms accepted_at_ms)

-- A row's freshness is one of three.
freshness_known :
    (policy : HubPolicy) (age : ℤ) → freshness_of policy age ≢ ProjectionFreshness.unknown
unfolding freshness_of
freshness_known policy age h = ground arith

module _ {V : Type 0} where
  three_ways :
      (rows : List (DeviceRowProjection V))
      → All (λ r. r.freshness ≢ ProjectionFreshness.unknown) rows
      → count_if (λ r. is_fresh r.freshness) rows
          + count_if (λ r. is_stale r.freshness) rows
          + count_if (λ r. is_offline r.freshness) rows
        ≡ length rows
  unfolding count_if
  three_ways [] h = refl
  three_ways (r ∷ rows) h = ground (arith, three_ways rows h.1, h.0)

module _ {V S : Type 0} where
  rows_known :
      (hub : FleetHub V S) (now_ms : ℤ) (rs : List (DeviceRecord V S))
      → All (λ r. r.freshness ≢ ProjectionFreshness.unknown) (map (λ r. row hub r now_ms) rs)
  unfolding row
  rows_known hub now_ms [] = tt
  rows_known hub now_ms (r ∷ rs) = (freshness_known hub.policy _, rows_known hub now_ms rs)

  rows_of_devices :
      (hub : FleetHub V S) (now_ms : ℤ) (m : BTreeMap String (DeviceRecord V S))
      → length (map (λ r. row hub r now_ms) (values m)) ≡ length m
  rows_of_devices hub now_ms [] = refl
  rows_of_devices hub now_ms (e ∷ m) = ap suc (rows_of_devices hub now_ms m)

  -- A summary is valid, and each device counts as exactly one of fresh, stale and offline.
  pub summary_valid :
      (hub : FleetHub V S) (now_ms : ℤ)
      → (validate_summary (summary hub now_ms) ≡ ok tt)
        × ((summary hub now_ms).fresh + (summary hub now_ms).stale + (summary hub now_ms).offline
            ≡ (summary hub now_ms).total)
        × ((summary hub now_ms).total ≡ length hub.devices)
  unfolding summary validate_summary all_rows finish count_if
  summary_valid hub now_ms =
      let rows = all_rows hub now_ms in
      let ways = three_ways rows (rows_known hub now_ms (values hub.devices)) in
      let attention =
        length-filter-le (λ r. any (needs_attention now_ms) (values r.conditions)) rows in
      (ground arith, ways, rows_of_devices hub now_ms hub.devices)

  module _ (to_lowercase : String → String) where
    length-sorted_rows :
        (hub : FleetHub V S) (query : FleetQuery) (now_ms : ℤ)
        → length (sorted_rows to_lowercase hub query now_ms) ≤ length hub.devices
    unfolding sorted_rows all_rows
    length-sorted_rows hub query now_ms =
        let selected = filter (selects to_lowercase query.expression) (all_rows hub now_ms) in
        omega (
          arith,
          length-sort_by (compare_rows query) selected,
          length-filter-le (selects to_lowercase query.expression) (all_rows hub now_ms),
          rows_of_devices hub now_ms hub.devices,
        )

    -- What an answer promises.
    abbrev pub IsWindow : FleetHub V S → FleetQuery → ℤ → FleetQueryResult V → Type 0
    IsWindow hub query now_ms result =
        (validate_query_result result ≡ ok tt)
        × (result.rows
            ≡ take query.limit (drop query.offset (sorted_rows to_lowercase hub query now_ms)))
        × (result.total_count ≡ length (sorted_rows to_lowercase hub query now_ms))

    query_window-IsWindow :
        (hub : FleetHub V S) (query : FleetQuery) (now_ms : ℤ)
        → 0 < hub.result_revision
        → length hub.devices ≤ u64_max
        → validate_query query ≡ ok tt
        → IsWindow hub query now_ms (query_window to_lowercase hub query now_ms)
    unfolding query_window validate_query_result finish
    query_window-IsWindow hub query now_ms positive few valid =
        let rows = sorted_rows to_lowercase hub query now_ms in
        let total = length rows in
        let offset = min query.offset total in
        let size = window_length query.offset query.limit total in
        let fits : total ≤ u64_max = omega (arith, length-sorted_rows hub query now_ms) in
        let returned : length (take size (drop offset rows)) ≤ total - offset =
          omega (arith, length-take size (drop offset rows), length-drop offset rows) in
        (
          ground
              (arith, saturating_add_below offset (length (take size (drop offset rows))), valid),
          clamped_window query.offset query.limit rows fits,
          refl,
        )

    -- If the Hub has a positive result revision and at most 2 ^ 64 - 1 devices, the answer to a
    -- query that it accepts is valid: its rows are the window that the query asks for, at its
    -- offset and of at most its limit, of the sorted rows that the query selects, and its total is
    -- their number.
    pub list-IsWindow :
        (hub : FleetHub V S) (query : FleetQuery) (now_ms : ℤ) {result : FleetQueryResult V}
        → 0 < hub.result_revision
        → length hub.devices ≤ u64_max
        → list to_lowercase hub query now_ms ≡ ok result
        → IsWindow hub query now_ms result
    unfolding list
    list-IsWindow hub query now_ms {result} positive few h =
        let (valid, same) : (validate_query query ≡ ok tt)
            × (query_window to_lowercase hub query now_ms ≡ result) =
          ground arith in
        subst (IsWindow hub query now_ms) same
          (query_window-IsWindow hub query now_ms positive few valid)
