-- ===== src/Hub/Records.antt =====
-- Which device records `restore` accepts, and that an accepted observation leaves such a record:
-- crates/fleet-hub/src/lib.rs.
use Prim.Native.String.{String}
use rusty_fleet.Prelude.{
  ℕ, ◌≤◌, ◌<◌, ◌≡◌, refl, sym, ◌∙◌, inl, inr, Bool, true, false, Option, none, some, List, [], ◌∷◌,
  ◌++◌, arith, Bool-cases, ℤ, pos, ◌≤ℤ◌, u64_max, saturating_add, length, any, All, length-append,
  All-append, length-keep_last, All-keep_last, ok, is_err, str_eq, str_eq_iff, saturating_add_pos,
}
use mathlib.Core.Bool.{false≢true}
use rusty_fleet.Order.{text_ord}
use rusty_fleet.Contracts.Violation.{ValidateContract, Serialize}
use rusty_fleet.Contracts.Condition.{validate_condition}
use rusty_fleet.Contracts.Identity.{DeviceObservation, validate_observation}
use rusty_fleet.Contracts.Identity.Facts.{conditions_valid}
use rusty_fleet.Hub.State.{DeviceRecord, HubPolicy}
use rusty_fleet.Hub.Observe.{contains, accepted_record, rejection_reason, epochs_of, history_of}
use rusty_fleet.Hub.Observe.Lineage.{other_epoch_unseen}
use rusty_fleet.Hub.Restore.{record_is_invalid}
use rusty_fleet.Hub.Epochs.{Distinct, length-collect_set, push_epoch}

any-false {ℓ} :
    {A : Type ℓ} (p : A → Bool) (xs : List A) → All (λ x. p x ≡ false) xs → any p xs ≡ false
any-false p [] h = refl
any-false p (x ∷ xs) h = ground (arith, any-false p xs h.1, h.0)

seen_nonempty : (e : String) (xs : List String) → contains e xs ≡ true → 0 < length xs
seen_nonempty e [] h = cc
seen_nonempty e (x ∷ xs) h = omega arith

module _ {V S : Type 0} ⦃streams : ValidateContract S⦄
    ⦃json : Serialize (DeviceObservation V S)⦄ where
  pub record RecordIsValid (policy : HubPolicy) (revision : ℕ) (device_id : String)
      (r : DeviceRecord V S) : Type 0 where
    pub own : r.observation.identity.device_id ≡ device_id
    pub contract : validate_observation r.observation ≡ ok tt
    pub timed : pos 0 ≤ℤ r.accepted_at_ms
    pub positive : 0 < r.accepted_revision
    pub reached : r.accepted_revision ≤ revision
    pub history_bounded : length r.condition_history ≤ policy.history_limit_per_device
    pub epochs_bounded : length r.seen_source_epochs ≤ policy.source_epoch_limit_per_device
    pub current_seen : contains r.observation.source_epoch r.seen_source_epochs ≡ true
    pub distinct : Distinct r.seen_source_epochs
    pub history_valid : All (λ c. is_err (validate_condition c) ≡ false) r.condition_history

  pub RecordIsValid-record_is_invalid :
      (policy : HubPolicy) (revision : ℕ) (device_id : String) (r : DeviceRecord V S)
      → RecordIsValid policy revision device_id r
      → record_is_invalid policy revision device_id r ≡ false
  unfolding record_is_invalid
  RecordIsValid-record_is_invalid policy revision device_id r v = ground (
    arith,
    (str_eq_iff r.observation.identity.device_id device_id).1 v.own,
    v.contract,
    v.timed,
    v.positive,
    v.reached,
    v.history_bounded,
    v.epochs_bounded,
    v.current_seen,
    length-collect_set r.seen_source_epochs v.distinct,
    any-false (λ c. is_err (validate_condition c)) r.condition_history v.history_valid,
    seen_nonempty r.observation.source_epoch r.seen_source_epochs v.current_seen,
  )

  -- A record stays valid under a later revision.
  pub RecordIsValid-later :
      (policy : HubPolicy) (revision later : ℕ) (device_id : String) (r : DeviceRecord V S)
      → revision ≤ later
      → RecordIsValid policy revision device_id r
      → RecordIsValid policy later device_id r
  RecordIsValid-later policy revision later device_id r h v = record {
    own = v.own;
    contract = v.contract;
    timed = v.timed;
    positive = v.positive;
    reached = omega (arith, v.reached);
    history_bounded = v.history_bounded;
    epochs_bounded = v.epochs_bounded;
    current_seen = v.current_seen;
    distinct = v.distinct;
    history_valid = v.history_valid;
  }

  -- What the record that is replaced, if there is one, contributes.
  abbrev pub PriorIsValid :
      HubPolicy → ℕ → String → DeviceObservation V S → Option (DeviceRecord V S) → Type 0
  PriorIsValid policy revision device_id o none = Unit
  PriorIsValid policy revision device_id o (some r) =
      RecordIsValid policy revision device_id r × (rejection_reason policy r o ≡ none)

  epochs-Distinct :
      (policy : HubPolicy) (n : ℕ) (id : String) (o : DeviceObservation V S)
      (prior : Option (DeviceRecord V S))
      → PriorIsValid policy n id o prior
      → Distinct (epochs_of prior)
  epochs-Distinct policy n id o none h = tt
  epochs-Distinct policy n id o (some r) h = h.0.distinct

  prior_history_valid :
      (policy : HubPolicy) (n : ℕ) (id : String) (o : DeviceObservation V S)
      (prior : Option (DeviceRecord V S))
      → PriorIsValid policy n id o prior
      → All (λ c. is_err (validate_condition c) ≡ false) (history_of prior)
  prior_history_valid policy n id o none h = tt
  prior_history_valid policy n id o (some r) h = h.0.history_valid

  epochs_within :
      (policy : HubPolicy) (n : ℕ) (id : String) (o : DeviceObservation V S)
      (prior : Option (DeviceRecord V S))
      → PriorIsValid policy n id o prior
      → length (epochs_of prior) ≤ policy.source_epoch_limit_per_device
  epochs_within policy n id o none h = omega arith
  epochs_within policy n id o (some r) h = h.0.epochs_bounded

  epochs_fit :
      (policy : HubPolicy) (n : ℕ) (id : String) (o : DeviceObservation V S)
      (prior : Option (DeviceRecord V S))
      → 0 < policy.source_epoch_limit_per_device
      → PriorIsValid policy n id o prior
      → contains o.source_epoch (epochs_of prior) ≡ false
      → length (epochs_of prior) < policy.source_epoch_limit_per_device
  epochs_fit policy n id o none room h new = room
  epochs_fit policy n id o (some r) room h new =
      elim (Bool-cases (str_eq o.source_epoch r.observation.source_epoch)) [
        | inl same ↦
            let equal : o.source_epoch ≡ r.observation.source_epoch = (str_eq_iff _ _).0 same in
            absurd (false≢true (sym new ∙ (rw equal h.0.current_seen)))
        | inr other ↦ (other_epoch_unseen policy r o h.1 other).1
      ]

  -- The record that `accept_observation` stores is one that `restore` takes back.
  pub accepted_record-IsValid :
      (policy : HubPolicy) (n : ℕ) (o : DeviceObservation V S) (prior : Option (DeviceRecord V S))
      (now_ms : ℤ)
      → 0 < policy.source_epoch_limit_per_device
      → n ≤ u64_max
      → pos 0 ≤ℤ now_ms
      → validate_observation o ≡ ok tt
      → PriorIsValid policy n o.identity.device_id o prior
      → RecordIsValid policy
          (saturating_add n 1)
          o.identity.device_id
          (accepted_record policy prior o now_ms (saturating_add n 1))
  unfolding accepted_record
  accepted_record-IsValid policy n o prior now_ms room cap time valid h =
      let id = o.identity.device_id in
      let epochs = epochs_of prior in
      let (distinct, seen) =
        push_epoch o.source_epoch epochs (epochs-Distinct policy n id o prior h) in
      let history = history_of prior ++ o.conditions in
      record {
        own = refl;
        contract = valid;
        timed = time;
        positive = saturating_add_pos n cap;
        reached = omega arith;
        history_bounded = omega (arith, length-keep_last policy.history_limit_per_device history);
        epochs_bounded = elim (Bool-cases (contains o.source_epoch epochs)) [
          | inl old ↦ rw old (epochs_within policy n id o prior h)
          | inr new ↦ rw new (
              omega (
                arith,
                length-append epochs (o.source_epoch ∷ []),
                epochs_fit policy n id o prior room h new,
              ))
        ];
        current_seen = seen;
        distinct = distinct;
        history_valid = All-keep_last _ policy.history_limit_per_device history (
            All-append _ (history_of prior) o.conditions (prior_history_valid policy n id o prior h)
              (conditions_valid o valid));
      }
