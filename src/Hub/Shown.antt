-- ===== src/Hub/Shown.antt =====
-- How a row shows a condition at a time: crates/fleet-hub/src/lib.rs, `newest_conditions`.
use rusty_fleet.Prelude.{
  ◌≡◌, refl, ap, ◌⊎◌, inl, inr, true, false, arith, Bool-cases, ℤ, ◌≤ℤ◌, ◌<ℤ◌, ltb_ℤ,
}
use rusty_fleet.Contracts.Condition.{StatusCondition, ConditionState, is_stale_at, is_stale}
use rusty_fleet.Hub.Rows.{projected, is_severe}

-- The states that a row shows even when the condition is stale.
abbrev pub IsSevere : ConditionState → Type 0
IsSevere s =
    (s ≡ ConditionState.failed) ⊎ ((s ≡ ConditionState.critical) ⊎ (s ≡ ConditionState.restricted))

is_severe-IsSevere : (s : ConditionState) → is_severe s ≡ true → IsSevere s
is_severe-IsSevere ConditionState.failed h = inl refl
is_severe-IsSevere ConditionState.critical h = inr (inl refl)
is_severe-IsSevere ConditionState.restricted h = inr (inr refl)
is_severe-IsSevere _ h = ground arith

mild-not_IsSevere : (s : ConditionState) → is_severe s ≡ false → ¬ IsSevere s
mild-not_IsSevere s h (inl e) = ground arith
mild-not_IsSevere s h (inr (inl e)) = ground arith
mild-not_IsSevere s h (inr (inr e)) = ground arith

stale_state : (s : ConditionState) → is_stale s ≡ true → ConditionState.stale ≡ s
stale_state ConditionState.stale h = refl
stale_state _ h = ground arith

module _ {V : Type 0} where
  -- How a condition is shown at a time.
  pub data IsShownAs (now_ms : ℤ) (c : StatusCondition V) : StatusCondition V → Type 0 where
    turned_stale :
        c.fresh_until_ms <ℤ now_ms
        → ¬ IsSevere c.state
        → IsShownAs now_ms c (record c { state = ConditionState.stale })
    in_time : now_ms ≤ℤ c.fresh_until_ms → IsShownAs now_ms c c
    kept_severe : IsSevere c.state → IsShownAs now_ms c c

  passed_as_stale :
      (now_ms : ℤ) (c : StatusCondition V)
      → ltb_ℤ c.fresh_until_ms now_ms ≡ true
      → is_severe c.state ≡ false
      → projected now_ms c ≡ record c { state = ConditionState.stale }
  unfolding projected is_stale_at
  passed_as_stale now_ms c late mild = rw (late, mild) refl

  severe_as_is :
      (now_ms : ℤ) (c : StatusCondition V) → is_severe c.state ≡ true → projected now_ms c ≡ c
  unfolding projected is_stale_at
  severe_as_is now_ms c loud = ground arith

  in_time_as_is :
      (now_ms : ℤ) (c : StatusCondition V)
      → ltb_ℤ c.fresh_until_ms now_ms ≡ false
      → projected now_ms c ≡ c
  unfolding projected is_stale_at
  in_time_as_is now_ms c early = elim (Bool-cases (is_stale c.state)) [
    | inr alive ↦ ground arith
    | inl gone ↦ elim (Bool-cases (is_severe c.state)) [
      | inl loud ↦ ground arith
      | inr mild ↦
          rw (early, gone, mild) (ap (λ s. record c { state = s }) (stale_state c.state gone))
    ]
  ]

  pub shown_as : (now_ms : ℤ) (c : StatusCondition V) → IsShownAs now_ms c (projected now_ms c)
  shown_as now_ms c = elim (Bool-cases (is_severe c.state)) [
    | inl loud ↦ rw (severe_as_is now_ms c loud) (kept_severe (is_severe-IsSevere c.state loud))
    | inr mild ↦ elim (Bool-cases (ltb_ℤ c.fresh_until_ms now_ms)) [
      | inl late ↦
          rw (passed_as_stale now_ms c late mild)
            (turned_stale (ground arith) (mild-not_IsSevere c.state mild))
      | inr early ↦ rw (in_time_as_is now_ms c early) (in_time (ground arith))
    ]
  ]

  -- A condition is shown under its own family, revision and receive time.
  pub shown_family : (now_ms : ℤ) (c : StatusCondition V) → (projected now_ms c).family ≡ c.family
  unfolding projected
  shown_family now_ms c = ground arith

  pub shown_revision :
      (now_ms : ℤ) (c : StatusCondition V)
      → (projected now_ms c).accepted_revision ≡ c.accepted_revision
  unfolding projected
  shown_revision now_ms c = ground arith

  pub shown_time :
      (now_ms : ℤ) (c : StatusCondition V)
      → (projected now_ms c).received_time_ms ≡ c.received_time_ms
  unfolding projected
  shown_time now_ms c = ground arith
