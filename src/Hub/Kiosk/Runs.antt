-- ===== src/Hub/Kiosk/Runs.antt =====
-- crates/fleet-hub/src/kiosk.rs: what becomes of a target over any sequence of calls.
use Prim.Native.String.{String}
use rusty_fleet.Prelude.{
  ℕ, suc, ◌+◌, ◌*◌, ◌≤◌, ◌<◌, ◌≡◌, refl, ap, ◌∙◌, inl, inr, true, false, some, List, arith,
  Bool-cases, find, ok, str_eq,
}
use mathlib.Core.Path.{subst}
use rusty_fleet.Order.{text_ord}
use rusty_fleet.Contracts.Kiosk.{KioskShowControlsOperation, KioskShowControlsTargetLedger}
use rusty_fleet.Contracts.KioskLedgerFacts.{LedgerIsValid, LedgerIsValid-attempts, is_unattempted}
use rusty_fleet.Hub.State.{FleetHub}
use rusty_fleet.Hub.Kiosk.Guards.{has_device, kiosk_operation, target}
use rusty_fleet.Hub.Kiosk.Changes.{Pairwise, Pairwise-same}
use rusty_fleet.Hub.Kiosk.Steps.{KioskStep}
use rusty_fleet.Hub.Kiosk.Protocol.{Moved}
use rusty_fleet.Hub.Kiosk.Soundness.{
  IsSound, KioskStep-IsSound, sound_filed, found, valid_ledgers, find-All, target_inv,
}
use rusty_fleet.Hub.Kiosk.Refinement.{KioskStep-Refines}
use rusty_fleet.Hub.Kiosk.Paths.{Moving, Moving-bound, Moving-final, Moving-attempts, is_final}

-- A target after some moves: its frozen part stays.
pub record Later (max : ℕ) (t next : KioskShowControlsTargetLedger) : Type 0 where
  pub device : next.device_id ≡ t.device_id
  pub identity : next.identity_revision ≡ t.identity_revision
  pub frozen : next.preflight ≡ t.preflight
  pub moves : ℕ
  pub path : Moving max t.lifecycle t.attempt_count next.lifecycle next.attempt_count moves

Later-same : (max : ℕ) (t : KioskShowControlsTargetLedger) → Later max t t
Later-same max t = record {
  device = refl;
  identity = refl;
  frozen = refl;
  moves = 0;
  path = Moving.stay;
}

Later-Moved :
    (max : ℕ) (t u v : KioskShowControlsTargetLedger)
    → Later max t u
    → Moved max u v
    → Later max t v
Later-Moved max t u v a b = elim b.move [
  | inl (same, count) ↦ record {
    device = b.device ∙ a.device;
    identity = b.identity ∙ a.identity;
    frozen = b.frozen ∙ a.frozen;
    moves = a.moves;
    path = rw (same, count) a.path;
  }
  | inr move ↦ record {
    device = b.device ∙ a.device;
    identity = b.identity ∙ a.identity;
    frozen = b.frozen ∙ a.frozen;
    moves = suc a.moves;
    path =
        Moving.then_move u.lifecycle v.lifecycle u.attempt_count v.attempt_count a.moves a.path
          move;
  }
]

Pairwise-Later :
    (max : ℕ) (ts us vs : List KioskShowControlsTargetLedger)
    → Pairwise (Later max) ts us
    → Pairwise (Moved max) us vs
    → Pairwise (Later max) ts vs
Pairwise-Later max _ _ _ Pairwise.done Pairwise.done = Pairwise.done
Pairwise-Later max _ _ _ (Pairwise.both x _ xs _ a rest) (Pairwise.both y z ys zs b more) =
    Pairwise.both x z xs zs (Later-Moved max x y z a b) (Pairwise-Later max xs ys zs rest more)

find-Later :
    (max : ℕ) (d : String) (ts us : List KioskShowControlsTargetLedger)
    {t u : KioskShowControlsTargetLedger}
    → Pairwise (Later max) ts us
    → find (has_device d) ts ≡ some t
    → find (has_device d) us ≡ some u
    → Later max t u
find-Later max d _ _ Pairwise.done h k = cc
find-Later max d _ _ {t} {u} (Pairwise.both x y xs ys a rest) h k =
    elim (Bool-cases (has_device d x)) [
      | inl here ↦
          let there : has_device d y ≡ true = ap (λ i. str_eq i d) a.device ∙ here in
          let same : x ≡ t = ground arith in
          let also : y ≡ u = ground arith in
          subst (λ v. Later max v u) same (subst (Later max x) also a)
      | inr other ↦
          let there : has_device d y ≡ false = ap (λ i. str_eq i d) a.device ∙ other in
          find-Later max d xs ys rest (ground arith) (ground arith)
    ]

-- The operation at the end of a run, with the same preview and limits, each target of it later.
pub record IsLater (o u : KioskShowControlsOperation) : Type 0 where
  pub same_preview : u.preview ≡ o.preview
  pub same_attempts : u.max_attempts_per_target ≡ o.max_attempts_per_target
  pub targets_later : Pairwise (Later o.max_attempts_per_target) o.targets u.targets

module _ {V S : Type 0} where
  -- Any number of successful calls, one after the other.
  pub data KioskRun (hub : FleetHub V S) : FleetHub V S → Type 0 where
    here : KioskRun hub hub
    via :
        (mid next : FleetHub V S) (o : KioskShowControlsOperation)
        → KioskRun hub mid
        → KioskStep mid next o
        → KioskRun hub next

  pub KioskRun-IsSound : (hub next : FleetHub V S) → KioskRun hub next → IsSound hub → IsSound next
  KioskRun-IsSound hub _ here s = s
  KioskRun-IsSound hub _ (via mid next o before step) s =
      KioskStep-IsSound mid next o step (KioskRun-IsSound hub mid before s)

  run-IsLater :
      (hub next : FleetHub V S) (id : String) {o : KioskShowControlsOperation}
      → IsSound hub
      → KioskRun hub next
      → kiosk_operation hub id ≡ ok o
      → (u : KioskShowControlsOperation) × (kiosk_operation next id ≡ ok u) × IsLater o u
  run-IsLater hub _ id {o} s here h = (
    o,
    h,
    record {
      same_preview = refl;
      same_attempts = refl;
      targets_later =
          Pairwise-same (Later o.max_attempts_per_target) (Later-same o.max_attempts_per_target)
            o.targets;
    },
  )
  run-IsLater hub _ id {o} s (via mid next changed before step) h =
      let (u, at, later) = run-IsLater hub mid id s before h in
      let (v, kept, r) =
        KioskStep-Refines mid next changed id (KioskRun-IsSound hub mid before s) step at in
      (
        v,
        kept,
        record {
          same_preview = r.same_preview ∙ later.same_preview;
          same_attempts = r.same_attempts ∙ later.same_attempts;
          targets_later =
              Pairwise-Later o.max_attempts_per_target o.targets u.targets v.targets
                later.targets_later
                (subst (λ m. Pairwise (Moved m) u.targets v.targets) later.same_attempts r.moved);
        },
      )

  -- A target at the end of a run, later than it was at its beginning.
  target-Later :
      (hub next : FleetHub V S) (id device_id : String) {o u : KioskShowControlsOperation}
      {t v : KioskShowControlsTargetLedger}
      → IsSound hub
      → KioskRun hub next
      → kiosk_operation hub id ≡ ok o
      → kiosk_operation next id ≡ ok u
      → target o device_id ≡ ok t
      → target u device_id ≡ ok v
      → Later o.max_attempts_per_target t v
  target-Later hub next id device_id {o} {u} {t} {v} s run h k at later_at =
      let (w, kept, later) = run-IsLater hub next id s run h in
      let same : w ≡ u = ground (arith, kept, k) in
      find-Later o.max_attempts_per_target device_id o.targets u.targets
        (subst (λ x. Pairwise (Later o.max_attempts_per_target) o.targets x.targets) same
          later.targets_later)
        (target_inv o device_id at) (target_inv u device_id later_at)

  -- However many calls follow on a sound Hub, a target makes at most three moves for each attempt that
  -- it may have and three more, and its preflight and identity revision stay frozen.
  pub target_settles :
      (hub next : FleetHub V S) (id device_id : String) {o u : KioskShowControlsOperation}
      {t v : KioskShowControlsTargetLedger}
      → IsSound hub
      → KioskRun hub next
      → kiosk_operation hub id ≡ ok o
      → kiosk_operation next id ≡ ok u
      → target o device_id ≡ ok t
      → target u device_id ≡ ok v
      → (v.preflight ≡ t.preflight)
        × (v.identity_revision ≡ t.identity_revision)
        × ((moves : ℕ) × Moving o.max_attempts_per_target t.lifecycle t.attempt_count v.lifecycle
              v.attempt_count moves
            × (moves ≤ 3 * o.max_attempts_per_target + 3))
  target_settles hub next id device_id {o} s run h k at later_at =
      let l = target-Later hub next id device_id s run h k at later_at in
      (
        l.frozen,
        l.identity,
        (l.moves, l.path, Moving-bound o.max_attempts_per_target _ _ _ _ l.moves l.path),
      )

  -- Once an owner attempt was begun for a target of a sound Hub, no later call takes it back: the number of
  -- its attempts never falls, and it is never again proposed, accepted, rejected, being cancelled or
  -- cancelled.
  pub begun_never_cancelled :
      (hub next : FleetHub V S) (id device_id : String) {o u : KioskShowControlsOperation}
      {t v : KioskShowControlsTargetLedger}
      → IsSound hub
      → KioskRun hub next
      → kiosk_operation hub id ≡ ok o
      → kiosk_operation next id ≡ ok u
      → target o device_id ≡ ok t
      → target u device_id ≡ ok v
      → 0 < t.attempt_count
      → (t.attempt_count ≤ v.attempt_count) × (is_unattempted v.lifecycle ≡ false)
  begun_never_cancelled hub next id device_id {o} {u} {t} {v} s run h k at later_at begun =
      let l = target-Later hub next id device_id s run h k at later_at in
      let more = Moving-attempts o.max_attempts_per_target _ _ _ _ l.moves l.path in
      let z = KioskRun-IsSound hub next run s in
      let valid = (sound_filed next id z (found next id k)).1 in
      let ledger : LedgerIsValid u.operation_id u.max_attempts_per_target v =
        find-All _ device_id u.targets (valid_ledgers u valid) (target_inv u device_id later_at) in
      let none_made =
        (LedgerIsValid-attempts u.operation_id u.max_attempts_per_target v ledger).0 in
      (more, ground (arith, none_made, more, begun))

  -- A target of a sound Hub that is applied, rejected or cancelled stays so, with the same number of
  -- attempts, whatever calls follow.
  pub final_target_stays :
      (hub next : FleetHub V S) (id device_id : String) {o u : KioskShowControlsOperation}
      {t v : KioskShowControlsTargetLedger}
      → IsSound hub
      → KioskRun hub next
      → kiosk_operation hub id ≡ ok o
      → kiosk_operation next id ≡ ok u
      → target o device_id ≡ ok t
      → target u device_id ≡ ok v
      → is_final t.lifecycle ≡ true
      → (v.lifecycle ≡ t.lifecycle) × (v.attempt_count ≡ t.attempt_count)
  final_target_stays hub next id device_id {o} s run h k at later_at final_state =
      let l = target-Later hub next id device_id s run h k at later_at in
      Moving-final o.max_attempts_per_target _ _ _ _ l.moves final_state l.path
