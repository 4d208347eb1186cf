-- ===== src/Hub/Kiosk/Protocol.antt =====
-- crates/fleet-hub/src/kiosk.rs: the protocol that the ledger of a target follows, as a state machine
-- on its lifecycle and its number of owner attempts.
use Prim.Native.String.{String}
use rusty_fleet.Prelude.{
  ℕ, ◌+◌, ◌≤◌, ◌<◌, min, ◌≡◌, refl, sym, ap, ◌∙◌, ◌⊎◌, inl, inr, true, false, [], arith, Bool-cases,
  ℤ,
}
use rusty_fleet.Contracts.Violation.{append_nil_inv, violation_if_nil}
use rusty_fleet.Contracts.Command.{CommandLifecycle}
use rusty_fleet.Contracts.Kiosk.{KioskShowControlsTargetLedger, KioskCancelDisposition, is_inflight}
use rusty_fleet.Contracts.KioskLedger.{
  lifecycle_failures, state_failures, is_cleanup, shows_attempt,
}
use rusty_fleet.Contracts.KioskLedgerFacts.{LedgerIsValid, LedgerIsValid-attempts, is_unattempted}
use rusty_fleet.Hub.Kiosk.Confirm.{accepted_ledger}
use rusty_fleet.Hub.Kiosk.Dispatch.{dispatched_ledger, is_dispatchable}
use rusty_fleet.Hub.Kiosk.Attempt.{inflight_ledger, applied_ledger, finished_ledger}
use rusty_fleet.Hub.Kiosk.Cancel.{cancelling_ledger, cancelled_ledger}
use rusty_fleet.Hub.Kiosk.Changes.{Change, Changed, is_ended}

-- The moves of a target that may have `max` owner attempts.
pub data Moves (max : ℕ) : CommandLifecycle → ℕ → CommandLifecycle → ℕ → Type 0 where
  accept : Moves max CommandLifecycle.proposed 0 CommandLifecycle.accepted 0
  begin : 0 < max → Moves max CommandLifecycle.accepted 0 CommandLifecycle.dispatched 1
  retry :
      (l : CommandLifecycle) (n : ℕ)
      → is_ended l ≡ true
      → n < max
      → Moves max l n CommandLifecycle.dispatched (n + 1)
  run : (n : ℕ) → Moves max CommandLifecycle.dispatched n CommandLifecycle.running n
  apply :
      (l : CommandLifecycle) (n : ℕ)
      → is_inflight l ≡ true
      → Moves max l n CommandLifecycle.applied n
  finish :
      (l k : CommandLifecycle) (n : ℕ)
      → is_inflight l ≡ true
      → is_ended k ≡ true
      → Moves max l n k n
  ask_cancel : Moves max CommandLifecycle.accepted 0 CommandLifecycle.cancellation_requested 0
  cancel : Moves max CommandLifecycle.cancellation_requested 0 CommandLifecycle.cancelled 0

-- The frozen part of a ledger stays, and its state is as it was or has made one move.
pub record Moved (max : ℕ) (t next : KioskShowControlsTargetLedger) : Type 0 where
  pub device : next.device_id ≡ t.device_id
  pub identity : next.identity_revision ≡ t.identity_revision
  pub frozen : next.preflight ≡ t.preflight
  pub move :
      ((next.lifecycle ≡ t.lifecycle) × (next.attempt_count ≡ t.attempt_count))
      ⊎ Moves max t.lifecycle t.attempt_count next.lifecycle next.attempt_count

waiting_state :
    (l : CommandLifecycle) (max : ℕ) (t : KioskShowControlsTargetLedger)
    → is_cleanup l ≡ false
    → lifecycle_failures l max t ≡ []
    → shows_attempt t KioskCancelDisposition.cancelable_before_dispatch ≡ false
    → (l ≡ CommandLifecycle.proposed) ⊎ (l ≡ CommandLifecycle.accepted)
unfolding lifecycle_failures
waiting_state CommandLifecycle.proposed max t c h s = inl refl
waiting_state CommandLifecycle.accepted max t c h s = inr refl
waiting_state CommandLifecycle.rejected max t c h s = cc
waiting_state CommandLifecycle.dispatched max t c h s = absurd (ground arith)
waiting_state CommandLifecycle.running max t c h s = absurd (ground arith)
waiting_state CommandLifecycle.applied max t c h s = absurd (ground arith)
waiting_state CommandLifecycle.failed max t c h s = absurd (ground arith)
waiting_state CommandLifecycle.expired max t c h s = absurd (ground arith)
waiting_state CommandLifecycle.cancellation_requested max t c h s = absurd (ground arith)
waiting_state CommandLifecycle.cancelled max t c h s = absurd (ground arith)
waiting_state CommandLifecycle.cleanup_pending max t c h s = cc
waiting_state CommandLifecycle.cleaned max t c h s = cc

-- The failures of an eligible ledger, of which there are none.
eligible_state :
    (id : String) (max : ℕ) (t : KioskShowControlsTargetLedger)
    → LedgerIsValid id max t
    → t.preflight.eligible ≡ true
    → lifecycle_failures t.lifecycle max t ≡ []
unfolding state_failures
eligible_state id max t v e =
    let state : state_failures true id max t ≡ [] =
      sym (ap (λ b. state_failures b id max t) e) ∙ v.state in
    (append_nil_inv (lifecycle_failures t.lifecycle max t) _ state).0

-- The move of a ledger whose state was computed and whose frozen part is untouched.
pub unmoved : (max : ℕ) (t next : KioskShowControlsTargetLedger) → next ≡ t → Moved max t next
unmoved max t next e = record {
  device = ap (λ x. x.device_id) e;
  identity = ap (λ x. x.identity_revision) e;
  frozen = ap (λ x. x.preflight) e;
  move = inl (ap (λ x. x.lifecycle) e, ap (λ x. x.attempt_count) e);
}

confirm-move :
    (id : String) (max : ℕ) (t : KioskShowControlsTargetLedger) (now_ms : ℤ)
    → t.preflight.eligible ≡ true
    → LedgerIsValid id max t
    → LedgerIsValid id max (accepted_ledger now_ms t)
    → ((CommandLifecycle.accepted ≡ t.lifecycle) × (t.attempt_count ≡ t.attempt_count))
      ⊎ Moves max t.lifecycle t.attempt_count CommandLifecycle.accepted t.attempt_count
unfolding accepted_ledger lifecycle_failures
confirm-move id max t now_ms eligible v w =
    let count : t.attempt_count ≡ 0 =
      (LedgerIsValid-attempts id max (accepted_ledger now_ms t) w).0 refl in
    let now = eligible_state id max (accepted_ledger now_ms t) w eligible in
    let before = eligible_state id max t v eligible in
    let free : shows_attempt t KioskCancelDisposition.cancelable_before_dispatch ≡ false =
      violation_if_nil _ _ _ _ now in
    elim (waiting_state t.lifecycle max t v.no_cleanup before free) [
      | inl proposed ↦ rw (proposed, count) (inr Moves.accept)
      | inr accepted ↦ inl (sym accepted, refl)
    ]

dispatchable_state :
    (l : CommandLifecycle)
    → is_dispatchable l ≡ true
    → is_ended l ≡ false
    → l ≡ CommandLifecycle.accepted
dispatchable_state l h k = ground arith

dispatch-move :
    (id : String) (max : ℕ) (t : KioskShowControlsTargetLedger)
    → max ≤ 8
    → LedgerIsValid id max t
    → is_dispatchable t.lifecycle ≡ true
    → t.attempt_count < max
    → Moves max t.lifecycle t.attempt_count CommandLifecycle.dispatched
        (min (t.attempt_count + 1) 255)
dispatch-move id max t bound v h below =
    let next : min (t.attempt_count + 1) 255 ≡ t.attempt_count + 1 = omega arith in
    rw next (elim (Bool-cases (is_ended t.lifecycle)) [
      | inl ended ↦ Moves.retry t.lifecycle t.attempt_count ended below
      | inr other ↦
          let accepted : t.lifecycle ≡ CommandLifecycle.accepted =
            dispatchable_state t.lifecycle h other in
          let count : t.attempt_count ≡ 0 =
            (LedgerIsValid-attempts id max t v).0 (ap is_unattempted accepted) in
          rw (accepted, count) (Moves.begin (omega (arith, below)))
    ])

-- Every change of a valid ledger into a valid one is a move of the protocol.
pub Changed-Moved :
    (id : String) (max : ℕ) (t next : KioskShowControlsTargetLedger)
    → max ≤ 8
    → LedgerIsValid id max t
    → LedgerIsValid id max next
    → Changed max t next
    → Moved max t next
unfolding accepted_ledger dispatched_ledger inflight_ledger applied_ledger finished_ledger
    cancelling_ledger cancelled_ledger
Changed-Moved id max t next b v w (inl same) = unmoved max t next same
Changed-Moved id max _ _ b v w (inr (Change.confirm t now_ms e)) = record {
  device = refl;
  identity = refl;
  frozen = refl;
  move = confirm-move id max t now_ms e v w;
}
Changed-Moved id max _ _ b v w (inr (Change.dispatch t request_id now_ms deadline d below new)) =
    record {
      device = refl;
      identity = refl;
      frozen = refl;
      move = inr (dispatch-move id max t b v d below);
    }
Changed-Moved id max _ _ b v w (inr (Change.run t now_ms reason message state)) = record {
  device = refl;
  identity = refl;
  frozen = refl;
  move = inr (rw state (Moves.run t.attempt_count));
}
Changed-Moved id max _ _ b v w (inr (Change.apply t receipt now_ms flying _ _)) = record {
  device = refl;
  identity = refl;
  frozen = refl;
  move = inr (Moves.apply t.lifecycle t.attempt_count flying);
}
Changed-Moved id max _ _ b v w (inr (Change.finish t now_ms l reason message flying ended)) =
    record {
      device = refl;
      identity = refl;
      frozen = refl;
      move = inr (Moves.finish t.lifecycle l t.attempt_count flying ended);
    }
Changed-Moved id max _ _ b v w (inr (Change.ask_cancel t now_ms state)) =
    let count : t.attempt_count ≡ 0 =
      (LedgerIsValid-attempts id max t v).0 (ap is_unattempted state) in
    record {
      device = refl;
      identity = refl;
      frozen = refl;
      move = inr (rw (state, count) Moves.ask_cancel);
    }
Changed-Moved id max _ _ b v w (inr (Change.cancel t now_ms state)) =
    let count : t.attempt_count ≡ 0 =
      (LedgerIsValid-attempts id max t v).0 (ap is_unattempted state) in
    record {
      device = refl;
      identity = refl;
      frozen = refl;
      move = inr (rw (state, count) Moves.cancel);
    }
