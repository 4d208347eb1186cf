-- ===== src/Tests/Observations.antt =====
-- The theorems on observations, at the runs of the test data.
use rusty_fleet.Prelude.{◌≡◌, refl, ◌≢◌, none, some, [], ◌∷◌, pos, ok, str_eq_iff}
use rusty_fleet.BTreeMap
use rusty_fleet.Order.{text_ord}
use rusty_fleet.Contracts.Identity.{validate_observation}
use rusty_fleet.Hub.State.{DeviceRecord, accepted, rejected, RejectionReason, new, default_policy}
use rusty_fleet.Hub.Observe.{accept_observation, accepted_record}
use rusty_fleet.Hub.Observe.Outcome.{rejected_keeps, resubmission_is_duplicate}
use rusty_fleet.Hub.Observe.Stored.{Stores, accepted-Stores}
use rusty_fleet.Hub.Observe.Runs.{superseded_epoch_never_accepted, observe_all}
use rusty_fleet.Tests.Data.{
  program, empty_hub, hub_one, hub_two, first, second, restarted, Json, Stream, stream_contract,
  json_encoder,
}

starts_empty : new default_policy ≡ some empty_hub
unfolding program
starts_empty = refl

first_accepted : (accept_observation empty_hub first (pos 110)).1 ≡ accepted 2 "quest-1" 1
unfolding program
first_accepted = refl

resubmission_is_duplicate_example :
    (accept_observation hub_one first (pos 120)).1
    ≡ rejected 2 (some "quest-1") (some 1) RejectionReason.duplicate_revision []
resubmission_is_duplicate_example =
    resubmission_is_duplicate empty_hub first (pos 110) (pos 120) first_accepted

restarted_accepted : (accept_observation hub_one restarted (pos 310)).1 ≡ accepted 3 "quest-1" 1
unfolding program
restarted_accepted = refl

replayed :
    (accept_observation hub_two first (pos 400)).1
    ≡ rejected 3 (some "quest-1") (some 1) RejectionReason.source_epoch_replay []
unfolding program
replayed = refl

abbrev existing : DeviceRecord Json Stream
existing = accepted_record default_policy none first (pos 110) 2

not_same : restarted.source_epoch ≢ "epoch-a"
not_same e = cc ((str_eq_iff "epoch-b" "epoch-a").1 e)

accepted-Stores_example :
    (validate_observation first ≡ ok tt)
    × ("quest-1" ≡ first.identity.device_id)
    × (1 ≡ first.source_revision)
    × Stores empty_hub first (pos 110) 2 "quest-1" hub_one
accepted-Stores_example = accepted-Stores empty_hub first (pos 110) first_accepted

rejected_keeps_example :
    let next = (accept_observation hub_two first (pos 400)).0 in
    (next.devices ≡ hub_two.devices)
    × (next.result_revision ≡ hub_two.result_revision)
    × (next.saved_view_revision ≡ hub_two.saved_view_revision)
    × (next.saved_views ≡ hub_two.saved_views)
    × (next.kiosk_operations ≡ hub_two.kiosk_operations)
    × (next.policy ≡ hub_two.policy)
rejected_keeps_example = rejected_keeps hub_two first (pos 400) replayed

superseded_epoch_never_accepted_example :
    (accept_observation (observe_all hub_two ((second, pos 350) ∷ [])) second (pos 400)).1
    ≢ accepted 9 "quest-1" 2
unfolding observe_all
superseded_epoch_never_accepted_example =
    superseded_epoch_never_accepted empty_hub first restarted second (pos 110) (pos 310) (pos 400)
      [] ((second, pos 350) ∷ []) first_accepted restarted_accepted not_same refl 9 2
