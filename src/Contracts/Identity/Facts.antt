-- ===== src/Contracts/Identity/Facts.antt =====
-- What a valid observation is known to satisfy: crates/fleet-contracts/src/identity.rs.
use Prim.Native.String.{String}
use rusty_fleet.Prelude.{ℕ, suc, ◌≡◌, refl, Bool, true, false, List, [], ◌∷◌, All, ok, is_err}
use rusty_fleet.Contracts.Violation.{
  ContractViolation, Validation, ValidateContract, Serialize, violation_if, finish, failures_of,
  prefixed, each_indexed, finish_iff, append_nil_inv, groups, groups_nil, prefixed_nil, groups_nil,
}
use rusty_fleet.Contracts.Condition.{StatusCondition, validate_condition}
use rusty_fleet.Contracts.Identity.{DeviceObservation, validate_observation, observation_groups}

violation_if_nil : (b : Bool) (c p m : String) → violation_if b c p m ≡ [] → b ≡ false
violation_if_nil false c p m h = refl
violation_if_nil true c p m h = cc

finish_ok :
    (failures : List ContractViolation)
    → failures_of (finish failures) ≡ []
    → is_err (finish failures) ≡ false
unfolding finish
finish_ok [] h = refl
finish_ok (f ∷ fs) h = cc

condition_ok :
    {V : Type 0} (c : StatusCondition V)
    → failures_of (validate_condition c) ≡ []
    → is_err (validate_condition c) ≡ false
unfolding validate_condition
condition_ok c h = finish_ok _ h

All-map {ℓ κ μ} :
    {A : Type ℓ} (P : A → Type κ) (Q : A → Type μ)
    → ((a : A) → P a → Q a)
    → (xs : List A) → All P xs
    → All Q xs
All-map P Q f [] h = tt
All-map P Q f (x ∷ xs) h = (f x h.0, All-map P Q f xs h.1)

each_indexed_nil {ℓ} :
    {A : Type ℓ} (name : String) (validate : A → Validation) (index : ℕ) (items : List A)
    → each_indexed name validate index items ≡ []
    → All (λ item. failures_of (validate item) ≡ []) items
unfolding each_indexed
each_indexed_nil name validate index [] h = tt
each_indexed_nil name validate index (item ∷ items) h =
    let (here, rest) =
      append_nil_inv (prefixed _ (failures_of (validate item)))
        (each_indexed name validate (suc index) items) h in
    (
      prefixed_nil _ (failures_of (validate item)) here,
      each_indexed_nil name validate (suc index) items rest,
    )

module _ {V S : Type 0} ⦃streams : ValidateContract S⦄
    ⦃json : Serialize (DeviceObservation V S)⦄ where
  no_failures :
      (o : DeviceObservation V S)
      → validate_observation o ≡ ok tt
      → All (λ g. g ≡ []) (observation_groups o)
  unfolding validate_observation
  no_failures o h = groups_nil (observation_groups o) (finish_iff (groups (observation_groups o)) h)

  pub conditions_valid :
      (o : DeviceObservation V S)
      → validate_observation o ≡ ok tt
      → All (λ c. is_err (validate_condition c) ≡ false) o.conditions
  unfolding observation_groups
  conditions_valid o h = All-map _ _ condition_ok o.conditions (
      each_indexed_nil "conditions" validate_condition 0 o.conditions
        (no_failures o h).1.1.1.1.1.1.1.1.1.1.0)
