-- ===== src/Contracts/Condition.antt =====
-- crates/fleet-contracts/src/condition.rs: status conditions, their families and states.
use Prim.Native.String.{String}
use Prim.Native.Nat.{compare as compare_nat}
use rusty_fleet.Prelude.{
  ℕ, Ordering, ◌≡◌, Bool, true, false, ◌||◌, ◌++◌, arith, ltb, ◌==◌, ℤ, pos, ltb_ℤ, max_ℤ,
  saturating_sub, length,
}
use rusty_fleet.Order.{Ord, IsComparison, pull_back-IsComparison, compare_nat-IsComparison}
use rusty_fleet.BTreeMap.{BTreeMap}
use rusty_fleet.Contracts.Violation.{
  Validation, violation_if, require_nonempty, finish, ValidateContract,
}

pub data ConditionFamily : Type 0 where
  identity freshness power application control privileged media work alert : ConditionFamily

pub data ConditionState : Type 0 where
  current in_progress busy stale unknown unsupported disabled unauthorized : ConditionState
  disconnected unavailable degraded failed critical restricted : ConditionState

pub data Sensitivity : Type 0 where
  public operator restricted : Sensitivity

-- The derived order of `ConditionFamily`: the order of declaration.
family_rank : ConditionFamily → ℕ
family_rank ConditionFamily.identity = 0
family_rank ConditionFamily.freshness = 1
family_rank ConditionFamily.power = 2
family_rank ConditionFamily.application = 3
family_rank ConditionFamily.control = 4
family_rank ConditionFamily.privileged = 5
family_rank ConditionFamily.media = 6
family_rank ConditionFamily.work = 7
family_rank ConditionFamily.alert = 8

unfoldable pub compare_family : ConditionFamily → ConditionFamily → Ordering
unfolding family_rank
compare_family a b = compare_nat (family_rank a) (family_rank b)

pub compare_family-IsComparison : IsComparison compare_family
unfolding compare_family
compare_family-IsComparison = pull_back-IsComparison family_rank compare_nat-IsComparison

pub family_eq_of_cmp : (a b : ConditionFamily) → compare_family a b ≡ Ordering.eq → a ≡ b
unfolding compare_family
family_eq_of_cmp a b h = ground arith

instance abbrev pub family_ord : Ord ConditionFamily
family_ord = record {
  cmp = compare_family;
  lawful = compare_family-IsComparison;
  eq_of_cmp = family_eq_of_cmp;
}

pub record StatusSource : Type 0 where
  pub adapter_id : String
  pub owner : String
  pub authority_revision : ℕ

-- `V` is the type of JSON values, of the package serde_json.
pub record StatusCondition (V : Type 0) : Type 0 where
  pub family : ConditionFamily
  pub state : ConditionState
  pub reason : String
  pub message : String
  pub source_time_ms : ℤ
  pub received_time_ms : ℤ
  pub accepted_revision : ℕ
  pub fresh_until_ms : ℤ
  pub source : StatusSource
  pub sensitivity : Sensitivity
  pub extensions : BTreeMap String V

abbrev pub is_stale : ConditionState → Bool
is_stale ConditionState.stale = true
is_stale _ = false

module _ {V : Type 0} where
  unfoldable pub age_ms : StatusCondition V → ℤ → ℤ
  age_ms c now_ms = max_ℤ (saturating_sub now_ms c.received_time_ms) (pos 0)

  unfoldable pub is_stale_at : StatusCondition V → ℤ → Bool
  is_stale_at c now_ms = ltb_ℤ c.fresh_until_ms now_ms || is_stale c.state

  unfoldable pub validate_condition : StatusCondition V → Validation
  validate_condition c = finish (
      require_nonempty c.reason "reason"
      ++ (require_nonempty c.message "message"
          ++ (require_nonempty c.source.adapter_id "source.adapter_id"
              ++ (require_nonempty c.source.owner "source.owner"
                  ++ (violation_if (c.accepted_revision == 0 || c.source.authority_revision == 0)
                        "invalid_revision" "accepted_revision"
                        "accepted and authority revisions must be greater than zero"
                      ++ (violation_if (ltb_ℤ c.fresh_until_ms c.received_time_ms)
                            "invalid_freshness" "fresh_until_ms"
                            "freshness deadline must not precede receive time"
                          ++ violation_if (ltb 32 (length c.extensions)) "condition_too_large"
                              "extensions"
                              "status conditions support at most 32 extension fields"))))))

  instance abbrev pub condition_contract : ValidateContract (StatusCondition V)
  condition_contract = record { validate = validate_condition }
