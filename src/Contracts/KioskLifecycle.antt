-- ===== src/Contracts/KioskLifecycle.antt =====
-- The lifecycle of a kiosk operation against those of its targets: crates/fleet-contracts/src/kiosk.rs,
-- `derived_lifecycle`.
use rusty_fleet.Prelude.{
  ◌≡◌, refl, Bool, true, false, ◌&&◌, ◌||◌, List, [], ◌∷◌, arith, ◌==◌, length, any, all, filter,
  not,
}
use rusty_fleet.Contracts.Command.{CommandLifecycle}
use rusty_fleet.Contracts.Lifecycle.{is_open}
use rusty_fleet.Contracts.Kiosk.{
  KioskShowControlsTargetLedger, KioskShowControlsOperation, is_inflight, is_cancellation_requested,
  is_proposed, is_accepted, is_applied, lifecycle_of_eligible, derived_lifecycle,
}

-- The targets that an operation counts.
abbrev pub eligible_targets : KioskShowControlsOperation → List KioskShowControlsTargetLedger
eligible_targets operation = filter (λ t. t.preflight.eligible) operation.targets

abbrev some_target : (CommandLifecycle → Bool) → List KioskShowControlsTargetLedger → Bool
some_target p = any (λ t. p t.lifecycle)

one_open :
    (s : CommandLifecycle)
    → is_open s
      ≡ (is_inflight s || (is_cancellation_requested s || (is_proposed s || is_accepted s)))
one_open s = ground arith

open_targets :
    (ts : List KioskShowControlsTargetLedger)
    → some_target is_open ts ≡ (
        some_target is_inflight ts
        || (some_target is_cancellation_requested ts
            || (some_target is_proposed ts || some_target is_accepted ts)))
open_targets [] = refl
open_targets (t ∷ ts) = ground (arith, one_open t.lifecycle, open_targets ts)

one_applied : (s : CommandLifecycle) → is_applied s ≡ true → is_open s ≡ false
one_applied s h = ground arith

applied_targets :
    (ts : List KioskShowControlsTargetLedger)
    → all (λ t. is_applied t.lifecycle) ts ≡ true
    → some_target is_open ts ≡ false
applied_targets [] h = refl
applied_targets (t ∷ ts) h = ground (arith, one_applied t.lifecycle, applied_targets ts)

derived_open :
    (ts : List KioskShowControlsTargetLedger)
    → (is_open (lifecycle_of_eligible ts) ≡ some_target is_open ts)
      × (is_applied (lifecycle_of_eligible ts)
          ≡ (not (length ts == 0) && all (λ t. is_applied t.lifecycle) ts))
unfolding lifecycle_of_eligible
derived_open [] = (refl, refl)
derived_open (t ∷ ts) =
    let split = open_targets (t ∷ ts) in
    let applied = applied_targets (t ∷ ts) in (ground arith, ground arith)

-- A kiosk operation is still open exactly if one of its eligible targets is, and it is applied
-- exactly if it has eligible targets and all of them are.
pub derived_lifecycle_exact :
    (operation : KioskShowControlsOperation)
    → (is_open (derived_lifecycle operation)
        ≡ any (λ t. is_open t.lifecycle) (eligible_targets operation))
      × (is_applied (derived_lifecycle operation) ≡ (
          not (length (eligible_targets operation) == 0)
          && all (λ t. is_applied t.lifecycle) (eligible_targets operation)))
unfolding derived_lifecycle
derived_lifecycle_exact operation = derived_open (eligible_targets operation)
