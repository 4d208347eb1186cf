-- ===== src/Tests/Runs.antt =====
-- The theorems on runs of the Hub, at the runs of the test data.
use rusty_fleet.Prelude.{◌-◌, min, ◌≡◌, refl, some, arith, pos, length, ok}
use rusty_fleet.Hub.State.{new, default_policy}
use rusty_fleet.Hub.Events.{IsLogged, Numbered, watch_consecutive}
use rusty_fleet.Hub.List.{watch}
use rusty_fleet.Hub.Restore.{snapshot, restore_core}
use rusty_fleet.Hub.WellFormed.{IsWellFormed, new-IsWellFormed, observe-IsWellFormed}
use rusty_fleet.Hub.Steps.{IsReached, started, stepped, observe, reached_snapshot_restores}
use rusty_fleet.Hub.Restored.{IsRestored, restore_core-IsRestored}
use rusty_fleet.Tests.Data.{
  program, empty_hub, hub_one, hub_two, first, restarted, stream_contract, json_encoder,
}

begins : new default_policy ≡ some empty_hub
unfolding program
begins = refl

empty-IsWellFormed : IsWellFormed empty_hub
empty-IsWellFormed = new-IsWellFormed default_policy begins

observe-IsWellFormed_example : IsWellFormed hub_one
observe-IsWellFormed_example =
    observe-IsWellFormed empty_hub first (pos 110) empty-IsWellFormed (omega arith) (omega arith)

one-IsReached : IsReached hub_one
one-IsReached =
    stepped empty_hub hub_one (started default_policy empty_hub begins)
      (observe empty_hub first (pos 110) (omega arith) (omega arith))

two-IsReached : IsReached hub_two
unfolding program
two-IsReached =
    stepped hub_one hub_two one-IsReached
      (observe hub_one restarted (pos 310) (omega arith) (omega arith))

reached_snapshot_restores_example : restore_core hub_two.policy (snapshot hub_two) ≡ ok hub_two
reached_snapshot_restores_example = reached_snapshot_restores hub_two two-IsReached

two-IsLogged : IsLogged hub_two
unfolding program
two-IsLogged = record {
  start = 1;
  numbered = (refl, refl, (refl, refl, tt));
  reaches = refl;
  bounded = omega arith;
  counted = omega arith;
}

watch_consecutive_example :
    Numbered 2 (watch hub_two 1 10)
    × (length (watch hub_two 1 10)
        ≡ min (min 10 hub_two.policy.event_limit) (hub_two.event_sequence - 1))
watch_consecutive_example =
    watch_consecutive hub_two two-IsLogged 1 10 (unfold two-IsLogged in omega arith)

restore_core-IsRestored_example : IsRestored hub_two.policy hub_two
restore_core-IsRestored_example =
    restore_core-IsRestored hub_two.policy (snapshot hub_two)
      (reached_snapshot_restores hub_two two-IsReached)
