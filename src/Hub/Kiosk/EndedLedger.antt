-- ===== src/Hub/Kiosk/EndedLedger.antt =====
-- crates/fleet-hub/src/kiosk.rs: a ledger whose attempt is ended satisfies its contract.
use Prim.Native.String.{String}
use rusty_fleet.Prelude.{
  ℕ, ◌≡◌, refl, inl, inr, Bool, true, false, Option, none, some, List, [], ◌∷◌, arith, Option-cases,
  ℤ, ◌≤ℤ◌, All, is_err, is_blank,
}
use rusty_fleet.Contracts.Violation.{
  ContractViolation, violation_if, require_nonempty, groups, groups_nil, append_nil_inv,
  violation_if_nil, finish-is_err, failures-is_err,
}
use rusty_fleet.Contracts.Command.{CommandLifecycle}
use rusty_fleet.Contracts.Kiosk.{KioskShowControlsTargetLedger, is_inflight}
use rusty_fleet.Contracts.KioskLedger.{
  validate_for_operation, ledger_groups, state_failures, lifecycle_failures, receipt_failures,
  is_dispatch_outside, is_inflight_invalid, is_ended_invalid,
}
use rusty_fleet.Hub.Kiosk.Attempt.{finished_ledger}
use rusty_fleet.Hub.Kiosk.Changes.{is_ended}

pub violation_if_of :
    (b : Bool) (code path message : String) → b ≡ false → violation_if b code path message ≡ []
violation_if_of true code path message h = cc
violation_if_of false code path message h = refl

pub groups_of_nil : (gs : List (List ContractViolation)) → All (λ g. g ≡ []) gs → groups gs ≡ []
groups_of_nil [] h = refl
groups_of_nil (g ∷ gs) h = rw (h.0, groups_of_nil gs h.1) refl

is_dispatch_outside-later :
    (created expires before later : ℤ) (dispatched : Option ℤ)
    → before ≤ℤ later
    → is_dispatch_outside created expires before dispatched ≡ false
    → is_dispatch_outside created expires later dispatched ≡ false
is_dispatch_outside-later created expires before later none l h = refl
is_dispatch_outside-later created expires before later (some d) l h = ground (arith, l)

inflight_valid :
    (l : CommandLifecycle) (max : ℕ) (t : KioskShowControlsTargetLedger)
    → is_inflight l ≡ true
    → lifecycle_failures l max t ≡ []
    → is_inflight_invalid t ≡ false
unfolding lifecycle_failures
inflight_valid CommandLifecycle.dispatched max t f h = violation_if_nil _ _ _ _ h
inflight_valid CommandLifecycle.running max t f h = violation_if_nil _ _ _ _ h
inflight_valid CommandLifecycle.proposed max t f h = cc
inflight_valid CommandLifecycle.accepted max t f h = cc
inflight_valid CommandLifecycle.rejected max t f h = cc
inflight_valid CommandLifecycle.applied max t f h = cc
inflight_valid CommandLifecycle.failed max t f h = cc
inflight_valid CommandLifecycle.expired max t f h = cc
inflight_valid CommandLifecycle.cancellation_requested max t f h = cc
inflight_valid CommandLifecycle.cancelled max t f h = cc
inflight_valid CommandLifecycle.cleanup_pending max t f h = cc
inflight_valid CommandLifecycle.cleaned max t f h = cc

ended_failures_nil :
    (l : CommandLifecycle) (max : ℕ) (t : KioskShowControlsTargetLedger)
    → is_ended l ≡ true
    → is_ended_invalid max t ≡ false
    → lifecycle_failures l max t ≡ []
unfolding lifecycle_failures
ended_failures_nil CommandLifecycle.failed max t e h = violation_if_of _ _ _ _ h
ended_failures_nil CommandLifecycle.expired max t e h = violation_if_of _ _ _ _ h
ended_failures_nil CommandLifecycle.proposed max t e h = cc
ended_failures_nil CommandLifecycle.accepted max t e h = cc
ended_failures_nil CommandLifecycle.rejected max t e h = cc
ended_failures_nil CommandLifecycle.dispatched max t e h = cc
ended_failures_nil CommandLifecycle.running max t e h = cc
ended_failures_nil CommandLifecycle.applied max t e h = cc
ended_failures_nil CommandLifecycle.cancellation_requested max t e h = cc
ended_failures_nil CommandLifecycle.cancelled max t e h = cc
ended_failures_nil CommandLifecycle.cleanup_pending max t e h = cc
ended_failures_nil CommandLifecycle.cleaned max t e h = cc

ended_state :
    (eligible : Bool) (id : String) (max : ℕ) (t : KioskShowControlsTargetLedger) (now_ms : ℤ)
    (l : CommandLifecycle) (reason message : String)
    → is_inflight t.lifecycle ≡ true
    → is_ended l ≡ true
    → state_failures eligible id max t ≡ []
    → state_failures eligible id max (finished_ledger now_ms l reason message max t) ≡ []
unfolding state_failures receipt_failures finished_ledger
ended_state false id max t now_ms l reason message f e h = absurd (ground arith)
ended_state true id max t now_ms l reason message f e h =
    let (before, _) = append_nil_inv (lifecycle_failures t.lifecycle max t) _ h in
    let flying = inflight_valid t.lifecycle max t f before in
    let u = finished_ledger now_ms l reason message max t in
    let here : lifecycle_failures l max u ≡ [] =
      ended_failures_nil l max u e (ground (arith, flying)) in
    elim (Option-cases t.effective_receipt) [
      | inl missing ↦ rw (here, missing) refl
      | inr (r, kept) ↦ absurd (ground (arith, flying, kept))
    ]

-- The ledger of an attempt in flight stays valid when the attempt ends later with a reason.
pub finished_ledger-validates :
    (id : String) (max : ℕ) (created expires : ℤ) (t : KioskShowControlsTargetLedger) (now_ms : ℤ)
    (l : CommandLifecycle) (reason message : String)
    → is_err (validate_for_operation id max created expires t) ≡ false
    → is_inflight t.lifecycle ≡ true
    → is_ended l ≡ true
    → is_blank reason ≡ false
    → is_blank message ≡ false
    → t.last_transition_ms ≤ℤ now_ms
    → is_err (
        validate_for_operation id max created expires
          (finished_ledger now_ms l reason message max t))
      ≡ false
unfolding validate_for_operation ledger_groups finished_ledger require_nonempty
finished_ledger-validates id max created expires t now_ms l reason message h f e r m later =
    let gs = ledger_groups id max created expires t in
    let us = ledger_groups id max created expires (finished_ledger now_ms l reason message max t) in
    let facts = groups_nil gs (finish-is_err (groups gs) h) in
    let more = facts.1.1.1 in
    let times = more.1.1.1 in
    let rest = times.1.1.1.1.1.1 in
    let dispatched =
      is_dispatch_outside-later created expires t.last_transition_ms now_ms t.dispatched_at_ms later
        (violation_if_nil _ _ _ _ times.0) in
    failures-is_err (groups us) (
      groups_of_nil us (
        facts.0,
        (
          violation_if_of _ _ _ _ r,
          (
            violation_if_of _ _ _ _ m,
            (
              more.0,
              (
                more.1.0,
                (
                  more.1.1.0,
                  (
                    violation_if_of _ _ _ _ dispatched,
                    (
                      times.1.0,
                      (
                        times.1.1.0,
                        (
                          times.1.1.1.0,
                          (
                            times.1.1.1.1.0,
                            (
                              times.1.1.1.1.1.0,
                              (
                                violation_if_of _ _ _ _ (ground (arith, e)),
                                (
                                  ended_state t.preflight.eligible id max t now_ms l reason message
                                      f e rest.1.0,
                                  tt,
                                ),
                              ),
                            ),
                          ),
                        ),
                      ),
                    ),
                  ),
                ),
              ),
            ),
          ),
        ),
      ))
