-- ===== src/Hub/Kiosk/Refinement.antt =====
-- crates/fleet-hub/src/kiosk.rs: the calls of the Hub refine the protocol of the targets.
use Prim.Native.String.{String}
use rusty_fleet.Prelude.{ℕ, ◌≤◌, ◌≡◌, refl, ◌∙◌, ◌≢◌, some, List, arith, All, ok, text_discrete}
use mathlib.Core.Path.{subst}
use rusty_fleet.BTreeMap
use rusty_fleet.BTreeMap.Laws.{get-insert_self, get-insert_ne}
use rusty_fleet.Order.{text_ord}
use rusty_fleet.Contracts.Kiosk.{KioskShowControlsOperation, KioskShowControlsTargetLedger}
use rusty_fleet.Contracts.KioskFacts.{validate_kiosk_operation-IsValid}
use rusty_fleet.Contracts.KioskLedgerFacts.{LedgerIsValid}
use rusty_fleet.Hub.State.{FleetHub}
use rusty_fleet.Hub.Kiosk.Guards.{kiosk_operation, relifed}
use rusty_fleet.Hub.Kiosk.Changes.{Changed, Pairwise, Pairwise-same}
use rusty_fleet.Hub.Kiosk.Effects.{KioskEffect}
use rusty_fleet.Hub.Kiosk.Steps.{KioskStep, KioskStep-effect}
use rusty_fleet.Hub.Kiosk.Protocol.{Moved, Changed-Moved, unmoved}
use rusty_fleet.Hub.Kiosk.Soundness.{IsSound, KioskStep-IsSound, sound_filed, found, valid_ledgers}

Changed-Moved-All :
    (id : String) (max : ℕ) (ts next : List KioskShowControlsTargetLedger)
    → max ≤ 8
    → All (LedgerIsValid id max) ts
    → All (LedgerIsValid id max) next
    → Pairwise (Changed max) ts next
    → Pairwise (Moved max) ts next
Changed-Moved-All id max _ _ b v w Pairwise.done = Pairwise.done
Changed-Moved-All id max _ _ b v w (Pairwise.both x y xs ys r rest) =
    Pairwise.both x y xs ys (Changed-Moved id max x y b v.0 w.0 r)
      (Changed-Moved-All id max xs ys b v.1 w.1 rest)

-- The operation after a call: its preview and limits are as they were, and each target stands still
-- or makes one move of the protocol.
pub record Refines (o next : KioskShowControlsOperation) : Type 0 where
  pub same_preview : next.preview ≡ o.preview
  pub same_attempts : next.max_attempts_per_target ≡ o.max_attempts_per_target
  pub same_parallelism : next.max_parallelism ≡ o.max_parallelism
  pub moved : Pairwise (Moved o.max_attempts_per_target) o.targets next.targets

Refines-same : (o : KioskShowControlsOperation) → Refines o o
Refines-same o = record {
  same_preview = refl;
  same_attempts = refl;
  same_parallelism = refl;
  moved =
      Pairwise-same (Moved o.max_attempts_per_target)
        (λ t. unmoved o.max_attempts_per_target t t refl) o.targets;
}

module _ {V S : Type 0} where
  -- The operation that a call leaves under the identifier of an earlier one.
  abbrev pub Kept : FleetHub V S → String → KioskShowControlsOperation → Type 0
  Kept next id o = (u : KioskShowControlsOperation) × (kiosk_operation next id ≡ ok u) × Refines o u

  found_after :
      (next : FleetHub V S) (id : String) (o u : KioskShowControlsOperation)
      → BTreeMap.get id next.kiosk_operations ≡ some u
      → Refines o u
      → Kept next id o
  unfolding kiosk_operation
  found_after next id o u h r = (u, rw h refl, r)

  effect-Refines :
      (hub next : FleetHub V S) (id : String) (o : KioskShowControlsOperation)
      → IsSound hub
      → IsSound next
      → KioskEffect hub next
      → BTreeMap.get id hub.kiosk_operations ≡ some o
      → Kept next id o
  effect-Refines hub next id o s z (KioskEffect.replayed same) h =
      found_after next id o o (rw same h) (Refines-same o)
  effect-Refines hub next id o s z (KioskEffect.created plan ps frozen free room (valid, made)) h =
      let other : id ≢ plan.operation_id = λ e. ground (arith, free, h, e) in
      found_after next id o o
        (rw made (get-insert_ne plan.operation_id id _ hub.kiosk_operations other ∙ h))
        (Refines-same o)
  effect-Refines hub next id o s z (KioskEffect.changed j p ts known moved (valid, made)) h =
      elim (text_discrete id j) [
        | no other ↦
            found_after next id o o (rw made (get-insert_ne j id _ hub.kiosk_operations other ∙ h))
              (Refines-same o)
        | yes e ↦
            let same : p ≡ o = ground (arith, known, h, e) in
            let u = relifed (record p { targets = ts }) in
            let v = (sound_filed hub j s known).1 in
            found_after next id o u (rw (made, e) (get-insert_self j u hub.kiosk_operations)) (
              subst (λ q. Refines q u) same
                (record {
                  same_preview = refl;
                  same_attempts = refl;
                  same_parallelism = refl;
                  moved =
                      Changed-Moved-All p.operation_id p.max_attempts_per_target p.targets ts
                        (validate_kiosk_operation-IsValid p v).attempts.1 (valid_ledgers p v)
                        (valid_ledgers u valid) moved;
                }))
      ]

  -- A call of the Kiosk operations on a sound Hub keeps every operation that it holds, with its
  -- preview and its limits, and each target of it stands still or makes one move of the protocol.
  pub KioskStep-Refines :
      (hub next : FleetHub V S) (changed : KioskShowControlsOperation) (id : String)
      {o : KioskShowControlsOperation}
      → IsSound hub
      → KioskStep hub next changed
      → kiosk_operation hub id ≡ ok o
      → Kept next id o
  KioskStep-Refines hub next changed id {o} s step h =
      effect-Refines hub next id o s (KioskStep-IsSound hub next changed step s)
        (KioskStep-effect hub next changed step) (found hub id h)
