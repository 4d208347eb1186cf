-- ===== src/Hub/Observe/Seen.antt =====
-- The source epochs that a device has been seen under: crates/fleet-hub/src/lib.rs,
-- `accept_observation`.
use Prim.Native.String.{String}
use rusty_fleet.Prelude.{
  ℕ, ◌≡◌, sym, ◌∙◌, ◌≢◌, inl, inr, true, Option, none, some, List, [], ◌∷◌, ◌++◌, arith, Bool-cases,
  ℤ, str_eq, str_eq_iff,
}
use rusty_fleet.BTreeMap
use rusty_fleet.BTreeMap.{BTreeMap}
use rusty_fleet.Order.{text_ord}
use rusty_fleet.Contracts.Identity.{DeviceObservation}
use rusty_fleet.Hub.State.{FleetHub, DeviceRecord, HubPolicy}
use rusty_fleet.Hub.Observe.{rejection_reason, accepted_record, contains, epochs_of}
use rusty_fleet.Hub.Epochs.{contains_self}
use rusty_fleet.Hub.Observe.Lineage.{other_epoch_unseen}

contains_append :
    (e : String) (xs ys : List String) → contains e xs ≡ true → contains e (xs ++ ys) ≡ true
contains_append e [] ys h = cc
contains_append e (x ∷ xs) ys h = ground (arith, contains_append e xs ys)

module _ {V S : Type 0} where
  -- The device has been seen under the epoch, and is under another one now.
  pub record Superseded (e : String) (r : DeviceRecord V S) : Type 0 where
    pub seen : contains e r.seen_source_epochs ≡ true
    pub left : r.observation.source_epoch ≢ e

  abbrev pub SupersededIn : String → String → FleetHub V S → Type 0
  SupersededIn d e hub =
      (r : DeviceRecord V S) × (BTreeMap.get d hub.devices ≡ some r) × Superseded e r

  -- The device is in the directory and has been seen under the epoch.
  abbrev pub SeenIn : String → String → FleetHub V S → Type 0
  SeenIn d e hub =
      (r : DeviceRecord V S) × (BTreeMap.get d hub.devices ≡ some r)
      × (contains e r.seen_source_epochs ≡ true)

  -- Such an epoch cannot pass the checks against the record.
  pub left_epoch_not_free :
      (policy : HubPolicy) (e : String) (existing : DeviceRecord V S) (o : DeviceObservation V S)
      → Superseded e existing
      → rejection_reason policy existing o ≡ none
      → o.source_epoch ≢ e
  left_epoch_not_free policy e existing o sup free same =
      elim (Bool-cases (str_eq o.source_epoch existing.observation.source_epoch)) [
        | inl t ↦ sup.left (sym ((str_eq_iff _ _).0 t) ∙ same)
        | inr f ↦ cc ((other_epoch_unseen policy existing o free f).0, sup.seen, same)
      ]

  pub epochs_grow :
      (policy : HubPolicy) (e : String) (existing : DeviceRecord V S) (o : DeviceObservation V S)
      (now_ms : ℤ) (n : ℕ)
      → contains e existing.seen_source_epochs ≡ true
      → contains e (accepted_record policy (some existing) o now_ms n).seen_source_epochs ≡ true
  unfolding accepted_record
  epochs_grow policy e existing o now_ms n h =
      ground (arith, contains_append e existing.seen_source_epochs (o.source_epoch ∷ []))

  -- A record has seen the epoch of the observation that it holds.
  pub own_epoch_seen :
      (policy : HubPolicy) (existing : Option (DeviceRecord V S)) (o : DeviceObservation V S)
      (now_ms : ℤ) (n : ℕ)
      → contains o.source_epoch (accepted_record policy existing o now_ms n).seen_source_epochs
        ≡ true
  unfolding accepted_record
  own_epoch_seen policy existing o now_ms n =
      elim (Bool-cases (contains o.source_epoch (epochs_of existing))) [
        | inl old ↦ rw old old
        | inr new ↦ rw new (contains_self o.source_epoch (epochs_of existing))
      ]
