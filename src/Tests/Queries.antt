-- ===== src/Tests/Queries.antt =====
-- The theorems on queries, summaries and command lifecycles, at the test data.
use Prim.Native.String.{String}
use rusty_fleet.Prelude.{
  [], ◌∷◌, ◌+◌, ◌≤◌, ◌≡◌, refl, false, none, some, arith, pos, length, ok, All,
}
use mathlib.Core.List.{Perm}
use rusty_fleet.Contracts.Query.{
  QueryExpression, QueryField, Comparison, QueryValue, predicate, and, cons, nil, validate_query,
}
use rusty_fleet.Contracts.Projection.{validate_summary}
use rusty_fleet.Contracts.QueryShape.{nodes, levels, validated_query_is_small}
use rusty_fleet.Contracts.Command.{CommandLifecycle, can_transition_to}
use rusty_fleet.Contracts.Lifecycle.{
  Run, Passes, here, via, is_open, settled_stays, acceptance_comes_first,
}
use rusty_fleet.Hub.State.{default_policy}
use rusty_fleet.Hub.Rows.{newest_conditions, freshness_of, row_age}
use rusty_fleet.Hub.Query.{freshness_rank}
use rusty_fleet.Hub.List.{list, query_window, summary, sorted_rows, all_rows}
use rusty_fleet.Hub.Answers.{freshness_falls, summary_valid, list-IsWindow, IsWindow}
use rusty_fleet.Contracts.Condition.{StatusCondition}
use rusty_fleet.Hub.RowOrder.{InOrder, wanted, sorted_rows-InOrder}
use rusty_fleet.Hub.Newest.{IsFrom, IsShownOrNewer, newest_conditions-IsFrom}
use rusty_fleet.Tests.Data.{power_low, program, hub_two, rooms_query, Json}

freshness_falls_example :
    freshness_rank (freshness_of default_policy (row_age (pos 100) (pos 200)))
    ≤ freshness_rank (freshness_of default_policy (row_age (pos 100) (pos 99999)))
freshness_falls_example =
    freshness_falls default_policy (pos 100) (pos 200) (pos 99999) (omega arith) (omega arith)

small_valid : validate_query rooms_query ≡ ok tt
unfolding program
small_valid = refl

cleanup : Run CommandLifecycle.failed CommandLifecycle.cleaned
unfolding can_transition_to
cleanup =
    via CommandLifecycle.failed CommandLifecycle.cleaned CommandLifecycle.cleaned refl
      (here CommandLifecycle.cleaned)

settled_stays_example : is_open CommandLifecycle.cleaned ≡ false
settled_stays_example = settled_stays CommandLifecycle.failed CommandLifecycle.cleaned refl cleanup

proposed_to_dispatched : Run CommandLifecycle.proposed CommandLifecycle.dispatched
unfolding can_transition_to
proposed_to_dispatched =
    via CommandLifecycle.proposed CommandLifecycle.accepted CommandLifecycle.dispatched refl (
      via CommandLifecycle.accepted CommandLifecycle.dispatched CommandLifecycle.dispatched refl
        (here CommandLifecycle.dispatched))

acceptance_comes_first_example : Passes CommandLifecycle.accepted proposed_to_dispatched
acceptance_comes_first_example =
    acceptance_comes_first CommandLifecycle.dispatched proposed_to_dispatched refl

rooms_expression : QueryExpression
rooms_expression = and (
    cons (predicate QueryField.tag Comparison.exists none (some "room")) (
      cons
        (predicate QueryField.battery_percent Comparison.less_than
          (some (QueryValue.integer (pos 50))) none)
        nil))

validated_query_is_small_example : (nodes rooms_expression ≤ 256) × (levels rooms_expression ≤ 16)
unfolding rooms_expression
validated_query_is_small_example =
    validated_query_is_small rooms_query rooms_expression small_valid refl

summary_valid_example :
    (validate_summary (summary hub_two (pos 1000)) ≡ ok tt)
    × ((summary hub_two (pos 1000)).fresh
          + (summary hub_two (pos 1000)).stale
          + (summary hub_two (pos 1000)).offline
        ≡ (summary hub_two (pos 1000)).total)
    × ((summary hub_two (pos 1000)).total ≡ length hub_two.devices)
summary_valid_example = summary_valid hub_two (pos 1000)

-- The texts of the test data are in lower case already.
abbrev lower : String → String
lower s = s

sorted_rows-InOrder_example :
    InOrder rooms_query.sort (sorted_rows lower hub_two rooms_query (pos 1000))
    × Perm
        (sorted_rows lower hub_two rooms_query (pos 1000))
        (wanted lower rooms_query.expression (all_rows hub_two (pos 1000)))
sorted_rows-InOrder_example = sorted_rows-InOrder lower hub_two rooms_query (pos 1000)

rooms_listed :
    list lower hub_two rooms_query (pos 1000)
    ≡ ok (query_window lower hub_two rooms_query (pos 1000))
unfolding program
rooms_listed = refl

list-IsWindow_example :
    IsWindow lower hub_two rooms_query
      (pos 1000)
      (query_window lower hub_two rooms_query (pos 1000))
list-IsWindow_example =
    list-IsWindow lower hub_two rooms_query (pos 1000) (unfold program in omega arith)
      (unfold program in omega arith) rooms_listed

-- The headset, at 12 percent, is the one row that the query finds.
one_found : (query_window lower hub_two rooms_query (pos 1000)).total_count ≡ 1
unfolding program
one_found = refl

-- An older report of the same family, which the row does not show.
abbrev power_before : StatusCondition Json
power_before = record power_low { received_time_ms = pos 50 }

newest_conditions-IsFrom_example :
    All
      (IsFrom (pos 1000) (power_low ∷ power_before ∷ []))
      (newest_conditions (power_low ∷ power_before ∷ []) (pos 1000))
    × All
        (IsShownOrNewer (newest_conditions (power_low ∷ power_before ∷ []) (pos 1000)))
        (power_low ∷ power_before ∷ [])
newest_conditions-IsFrom_example =
    newest_conditions-IsFrom (power_low ∷ power_before ∷ []) (pos 1000)
