-- ===== src/Hub/Kiosk/EndedOperation.antt =====
-- crates/fleet-hub/src/kiosk.rs: an operation of which one attempt is ended satisfies its contract.
use Prim.Native.String.{String}
use rusty_fleet.Prelude.{
  ℕ, suc, ◌≤◌, ◌≡◌, refl, sym, inl, inr, true, false, Option, none, some, List, [], ◌∷◌, arith,
  Bool-cases, Option-cases, ℤ, ◌≤ℤ◌, length, filter, find, ok, err, is_err, is_blank,
}
use mathlib.Core.Path.{subst}
use rusty_fleet.Contracts.Violation.{
  Validation, groups, groups_nil, finish-is_err, failures-is_err, failures_of, prefixed,
}
use rusty_fleet.Contracts.Command.{CommandLifecycle}
use rusty_fleet.Contracts.Kiosk.{
  KioskShowControlsOperation, KioskShowControlsTargetLedger, is_inflight, derived_lifecycle,
  lifecycle_of_eligible,
}
use rusty_fleet.Contracts.KioskLedger.{is_cleanup}
use rusty_fleet.Contracts.KioskOperation.{
  validate_kiosk_operation, operation_groups, operation_target_failures, inflight_count,
}
use rusty_fleet.Contracts.KioskFacts.{TargetsAreValid, validate_kiosk_operation-IsValid}
use rusty_fleet.Hub.Kiosk.Guards.{change_first, has_device, relifed}
use rusty_fleet.Hub.Kiosk.Attempt.{finished_ledger}
use rusty_fleet.Hub.Kiosk.Changes.{is_ended}
use rusty_fleet.Hub.Kiosk.EndedLedger.{finished_ledger-validates, violation_if_of, groups_of_nil}

failures_of_valid : (v : Validation) → is_err v ≡ false → failures_of v ≡ []
failures_of_valid (ok _) h = refl
failures_of_valid (err _) h = cc

TargetsAreValid-failures :
    (o : KioskShowControlsOperation) (prior : Option String) (index : ℕ)
    (ts : List KioskShowControlsTargetLedger)
    → TargetsAreValid o prior ts
    → operation_target_failures o prior index ts ≡ []
unfolding operation_target_failures prefixed
TargetsAreValid-failures o prior index [] h = refl
TargetsAreValid-failures o prior index (t ∷ ts) h =
    let (valid, same, ordered, rest) = h in
    rw
      (
        failures_of_valid _ valid,
        same,
        ordered,
        TargetsAreValid-failures o (some t.device_id) (suc index) ts rest,
      )
      refl

derived_not_cleanup :
    (ts : List KioskShowControlsTargetLedger) → is_cleanup (lifecycle_of_eligible ts) ≡ false
unfolding lifecycle_of_eligible
derived_not_cleanup [] = refl
derived_not_cleanup (t ∷ ts) = ground arith

-- The check of the targets reads only what a change of the targets leaves.
TargetsAreValid-copy :
    (o : KioskShowControlsOperation) (zs : List KioskShowControlsTargetLedger)
    (prior : Option String) (ts : List KioskShowControlsTargetLedger)
    → TargetsAreValid o prior ts
    → TargetsAreValid (relifed (record o { targets = zs })) prior ts
TargetsAreValid-copy o zs prior [] h = tt
TargetsAreValid-copy o zs prior (t ∷ ts) h =
    (h.0, h.1, h.2, TargetsAreValid-copy o zs (some t.device_id) ts h.3)

-- The attempt of a target is in flight and was not touched after a time.
pub record IsEndable (now_ms : ℤ) (t : KioskShowControlsTargetLedger) : Type 0 where
  pub flying : is_inflight t.lifecycle ≡ true
  pub in_time : t.last_transition_ms ≤ℤ now_ms

module _ (o : KioskShowControlsOperation) (now_ms : ℤ) (l : CommandLifecycle)
    (reason message : String) (ended : is_ended l ≡ true) (reason_given : is_blank reason ≡ false)
    (message_given : is_blank message ≡ false) where
  abbrev end_of : KioskShowControlsTargetLedger → KioskShowControlsTargetLedger
  end_of = finished_ledger now_ms l reason message o.max_attempts_per_target

  end_here :
      (zs : List KioskShowControlsTargetLedger) (prior : Option String)
      (x : KioskShowControlsTargetLedger) (xs : List KioskShowControlsTargetLedger)
      → IsEndable now_ms x
      → TargetsAreValid o prior (x ∷ xs)
      → TargetsAreValid (relifed (record o { targets = zs })) prior (end_of x ∷ xs)
  unfolding finished_ledger
  end_here zs prior x xs k v = (
    finished_ledger-validates o.operation_id o.max_attempts_per_target o.preview.created_at_ms
        o.preview.expires_at_ms x now_ms l reason message v.0 k.flying ended reason_given
        message_given k.in_time,
    v.1,
    v.2,
    TargetsAreValid-copy o zs (some x.device_id) xs v.3,
  )

  ended_targets :
      (zs : List KioskShowControlsTargetLedger) (d : String) (prior : Option String)
      (ts : List KioskShowControlsTargetLedger) {t : KioskShowControlsTargetLedger}
      {next : List KioskShowControlsTargetLedger}
      → find (has_device d) ts ≡ some t
      → IsEndable now_ms t
      → change_first d end_of ts ≡ some next
      → TargetsAreValid o prior ts
      → TargetsAreValid (relifed (record o { targets = zs })) prior next
  unfolding change_first
  ended_targets zs d prior [] h c e v = cc
  ended_targets zs d prior (x ∷ xs) {t} {next} h c e v = elim (Bool-cases (has_device d x)) [
    | inl here ↦
        let at : x ≡ t = ground arith in
        let made : end_of x ∷ xs ≡ next = ground arith in
        let k = subst (IsEndable now_ms) (sym at) c in
        subst (TargetsAreValid (relifed (record o { targets = zs })) prior) made
          (end_here zs prior x xs k v)
    | inr other ↦ elim (Option-cases (change_first d end_of xs)) [
      | inl missing ↦ absurd (ground arith)
      | inr (ys, kept) ↦
          let made : x ∷ ys ≡ next = ground arith in
          let later : find (has_device d) xs ≡ some t = ground arith in
          subst (TargetsAreValid (relifed (record o { targets = zs })) prior) made
            (v.0, v.1, v.2, ended_targets zs d (some x.device_id) xs later c kept v.3)
    ]
  ]

  ended_count :
      (d : String) (ts : List KioskShowControlsTargetLedger)
      {next : List KioskShowControlsTargetLedger}
      → change_first d end_of ts ≡ some next
      → (length next ≡ length ts) × (inflight_count next ≤ inflight_count ts)
  unfolding change_first finished_ledger
  ended_count d [] h = cc
  ended_count d (x ∷ xs) {next} h = elim (Option-cases (change_first d end_of xs)) [
    | inl missing ↦ (ground (arith, ended), ground (arith, ended))
    | inr (ys, kept) ↦
        let (same, fewer) = ended_count d xs kept in
        (ground (arith, ended, same, fewer), ground (arith, ended, same, fewer))
  ]

  -- A valid operation stays valid when an attempt of it that is in flight is ended.
  pub ended_operation-validates :
      (d : String) {t : KioskShowControlsTargetLedger} {next : List KioskShowControlsTargetLedger}
      → is_err (validate_kiosk_operation o) ≡ false
      → find (has_device d) o.targets ≡ some t
      → IsEndable now_ms t
      → change_first d (finished_ledger now_ms l reason message o.max_attempts_per_target) o.targets
        ≡ some next
      → is_err (validate_kiosk_operation (relifed (record o { targets = next }))) ≡ false
  unfolding validate_kiosk_operation operation_groups derived_lifecycle
  ended_operation-validates d {t} {next} h at endable changed =
      let u = relifed (record o { targets = next }) in
      let facts = groups_nil (operation_groups o) (finish-is_err (groups (operation_groups o)) h) in
      let v = validate_kiosk_operation-IsValid o h in
      let middle = facts.1.1.1.1.1.1.1 in
      let (same, fewer) = ended_count d o.targets changed in
      let targets = ended_targets next d none o.targets at endable changed v.targets_valid in
      let clean = derived_not_cleanup (filter (λ t. t.preflight.eligible) next) in
      failures-is_err (groups (operation_groups u)) (
        groups_of_nil (operation_groups u) (
          facts.0,
          (
            facts.1.0,
            (
              facts.1.1.0,
              (
                facts.1.1.1.0,
                (
                  facts.1.1.1.1.0,
                  (
                    facts.1.1.1.1.1.0,
                    (
                      violation_if_of _ _ _ _ clean,
                      (
                        middle.0,
                        (
                          middle.1.0,
                          (
                            violation_if_of _ _ _ _ (ground (arith, same, v.same_count)),
                            (
                              TargetsAreValid-failures u none 0 next targets,
                              (
                                violation_if_of _ _ _ _ (ground arith),
                                (violation_if_of _ _ _ _ (ground (arith, fewer, v.within)), tt),
                              ),
                            ),
                          ),
                        ),
                      ),
                    ),
                  ),
                ),
              ),
            ),
          ),
        ))
