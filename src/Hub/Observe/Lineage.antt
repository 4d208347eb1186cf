-- ===== src/Hub/Observe/Lineage.antt =====
-- Which observations of a known device are accepted: crates/fleet-hub/src/lib.rs, the chain of tests
-- of `accept_observation`.
use Prim.Native.String.{String}
use rusty_fleet.Prelude.{◌<◌, ◌≡◌, false, none, arith, ◌≤ℤ◌, length, str_eq, ◌≢◌, ◌⊎◌, All}
use rusty_fleet.BTreeMap
use rusty_fleet.BTreeMap.{BTreeMap}
use rusty_fleet.Order.{text_ord}
use rusty_fleet.Contracts.Identity.{DeviceObservation}
use rusty_fleet.Hub.State.{DeviceRecord, HubPolicy}
use rusty_fleet.Hub.Observe.{rejection_reason, contains}
use rusty_fleet.Hub.Observe.Labels.{SameLabels}

module _ {V S : Type 0} where
  -- A source epoch that the device was never seen under, while there is room to keep it.
  abbrev pub IsFreshEpoch : HubPolicy → DeviceRecord V S → String → Type 0
  IsFreshEpoch policy existing e =
      (e ≢ existing.observation.source_epoch)
      × All (λ x. e ≢ x) existing.seen_source_epochs
      × (length existing.seen_source_epochs < policy.source_epoch_limit_per_device)

  -- What may replace the observation that a device has.
  pub data Advances (policy : HubPolicy) (existing : DeviceRecord V S) (o : DeviceObservation V S)
      : Type 0 where
    -- A newer identity restarts its source, under the same epoch or a fresh one.
    new_identity :
        existing.observation.identity.identity_revision < o.identity.identity_revision
        → o.source_revision ≡ 1
        → (o.source_epoch ≡ existing.observation.source_epoch)
          ⊎ IsFreshEpoch policy existing o.source_epoch
        → Advances policy existing o
    -- Any later revision of the same source, not received earlier.
    later_revision :
        o.identity.identity_revision ≡ existing.observation.identity.identity_revision
        → SameLabels o.identity existing.observation.identity
        → o.source_epoch ≡ existing.observation.source_epoch
        → existing.observation.source_revision < o.source_revision
        → existing.observation.received_time_ms ≤ℤ o.received_time_ms
        → Advances policy existing o
    -- The first revision of a fresh epoch.
    new_epoch :
        o.identity.identity_revision ≡ existing.observation.identity.identity_revision
        → SameLabels o.identity existing.observation.identity
        → IsFreshEpoch policy existing o.source_epoch
        → o.source_revision ≡ 1
        → Advances policy existing o

  module _ (policy : HubPolicy) (existing : DeviceRecord V S) (o : DeviceObservation V S)
      (free : rejection_reason policy existing o ≡ none) where
    -- An epoch other than the current one was never seen before.
    pub other_epoch_unseen :
        str_eq o.source_epoch existing.observation.source_epoch ≡ false
        → (contains o.source_epoch existing.seen_source_epochs ≡ false)
          × (length existing.seen_source_epochs < policy.source_epoch_limit_per_device)
    unfolding rejection_reason
    other_epoch_unseen e = ground arith
