-- ===== src/Hub/Kiosk/Limits.antt =====
-- crates/fleet-hub/src/kiosk.rs: the bounds on owner attempts, after any sequence of calls.
use Prim.Native.String.{String}
use rusty_fleet.Prelude.{
  ℕ, suc, ◌≤◌, ◌≡◌, refl, ◌∙◌, ◌≢◌, inl, inr, true, some, List, [], ◌∷◌, arith, Bool-cases, length,
  All, ok, str_eq, str_eq_iff,
}
use rusty_fleet.BTreeMap
use rusty_fleet.BTreeMap.{BTreeMap, Sorted, collect_set}
use rusty_fleet.BTreeMap.Laws.{
  get-insert_self, get-insert_ne, insert-Sorted, length-insert_old, length-insert-le,
}
use rusty_fleet.Order.{text_ord}
use rusty_fleet.Contracts.Violation.{ValidateContract, Serialize}
use rusty_fleet.Contracts.Command.{CommandLifecycle}
use rusty_fleet.Contracts.Identity.{DeviceObservation}
use rusty_fleet.Contracts.Kiosk.{KioskShowControlsOperation, KioskShowControlsTargetLedger}
use rusty_fleet.Contracts.KioskOperation.{inflight_count}
use rusty_fleet.Contracts.KioskFacts.{validate_kiosk_operation-IsValid}
use rusty_fleet.Contracts.KioskLedgerFacts.{LedgerIsValid}
use rusty_fleet.Hub.State.{FleetHub}
use rusty_fleet.Hub.Observe.{contains}
use rusty_fleet.Hub.Observe.Labels.{not_among}
use rusty_fleet.Hub.Kiosk.Guards.{kiosk_operation}
use rusty_fleet.Hub.Kiosk.Soundness.{found, sound_filed, valid_ledgers}
use rusty_fleet.Hub.Kiosk.Reached.{IsReachedBy, reached-IsSound}

-- Pairwise different texts.
abbrev pub AllDifferent : List String → Type 0
AllDifferent [] = Unit
AllDifferent (x ∷ xs) = All (λ y. x ≢ y) xs × AllDifferent xs

collect_set-Sorted : (xs : List String) → Sorted (collect_set xs)
unfolding collect_set
collect_set-Sorted [] = tt
collect_set-Sorted (x ∷ xs) = insert-Sorted x tt (collect_set xs) (collect_set-Sorted xs)

-- What is in the list is in its set.
in_collect_set :
    (x : String) (xs : List String)
    → contains x xs ≡ true
    → BTreeMap.get x (collect_set xs) ≡ some tt
unfolding collect_set
in_collect_set x [] h = ground arith
in_collect_set x (y ∷ ys) h = elim (Bool-cases (str_eq x y)) [
  | inl same ↦ rw (← (str_eq_iff x y).0 same) (get-insert_self x tt (collect_set ys))
  | inr other ↦
      get-insert_ne y x tt (collect_set ys) (λ e. cc ((str_eq_iff x y).1 e, other))
      ∙ in_collect_set x ys (ground arith)
]

length-collect_set-le : (xs : List String) → length (collect_set xs) ≤ length xs
unfolding collect_set
length-collect_set-le [] = omega arith
length-collect_set-le (x ∷ xs) =
    omega (arith, length-insert-le x tt (collect_set xs), length-collect_set-le xs)

-- A list whose set is as large as the list holds no text twice.
full_set-AllDifferent : (xs : List String) → length (collect_set xs) ≡ length xs → AllDifferent xs
unfolding collect_set
full_set-AllDifferent [] h = tt
full_set-AllDifferent (x ∷ xs) h = elim (Bool-cases (contains x xs)) [
  | inl twice ↦ absurd (
      omega (
        arith,
        h,
        length-insert_old x tt tt (collect_set xs) (collect_set-Sorted xs)
            (in_collect_set x xs twice),
        length-collect_set-le xs,
      ))
  | inr once ↦ (
    not_among x xs once,
    full_set-AllDifferent xs
        (omega (arith, h, length-insert-le x tt (collect_set xs), length-collect_set-le xs)),
  )
]

-- The owner attempts in flight: those dispatched and those running.
abbrev pub attempts_in_flight : List KioskShowControlsTargetLedger → ℕ
attempts_in_flight [] = 0
attempts_in_flight (t ∷ ts) = elim t.lifecycle [
  | CommandLifecycle.dispatched ↦ suc (attempts_in_flight ts)
  | CommandLifecycle.running ↦ suc (attempts_in_flight ts)
  | _ ↦ attempts_in_flight ts
]

counted_in_flight :
    (ts : List KioskShowControlsTargetLedger) → inflight_count ts ≡ attempts_in_flight ts
counted_in_flight [] = refl
counted_in_flight (t ∷ ts) = ground (arith, counted_in_flight ts)

-- The attempts of one target.
abbrev pub IsWithin : ℕ → KioskShowControlsTargetLedger → Type 0
IsWithin max_attempts t =
    (t.attempt_count ≤ max_attempts)
    × (length t.owner_request_ids ≡ t.attempt_count)
    × AllDifferent t.owner_request_ids

ledger-IsWithin :
    (id : String) (max_attempts : ℕ) (t : KioskShowControlsTargetLedger)
    → LedgerIsValid id max_attempts t
    → IsWithin max_attempts t
ledger-IsWithin id max_attempts t l =
    (l.bounded, l.recorded, full_set-AllDifferent t.owner_request_ids l.fresh)

ledgers-IsWithin :
    (id : String) (max_attempts : ℕ) (ts : List KioskShowControlsTargetLedger)
    → All (LedgerIsValid id max_attempts) ts
    → All (IsWithin max_attempts) ts
ledgers-IsWithin id max_attempts [] h = tt
ledgers-IsWithin id max_attempts (t ∷ ts) h =
    (ledger-IsWithin id max_attempts t h.0, ledgers-IsWithin id max_attempts ts h.1)

module _ {V S : Type 0} ⦃streams : ValidateContract S⦄
    ⦃json : Serialize (DeviceObservation V S)⦄ where
  -- In every Hub that a mix of observations at any times and of successful saved-view mutations and
  -- Kiosk calls reaches from a new one, a stored operation has at most as many targets dispatched or
  -- running as its parallelism, which is at most 64; and each of its targets has had at most as many
  -- attempts as the operation allows, which is at most 8, each under another request ID.
  pub attempts_limited :
      (hub : FleetHub V S) (id : String) {o : KioskShowControlsOperation}
      → IsReachedBy hub
      → kiosk_operation hub id ≡ ok o
      → (attempts_in_flight o.targets ≤ o.max_parallelism)
        × (o.max_parallelism ≤ 64)
        × (o.max_attempts_per_target ≤ 8)
        × All (IsWithin o.max_attempts_per_target) o.targets
  attempts_limited hub id {o} reached known =
      let valid = (sound_filed hub id (reached-IsSound hub reached) (found hub id known)).1 in
      let v = validate_kiosk_operation-IsValid o valid in
      (
        rw (counted_in_flight o.targets) at v.within,
        v.parallelism.1,
        v.attempts.1,
        ledgers-IsWithin o.operation_id o.max_attempts_per_target o.targets (valid_ledgers o valid),
      )
