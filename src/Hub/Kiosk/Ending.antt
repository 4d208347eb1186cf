-- ===== src/Hub/Kiosk/Ending.antt =====
-- crates/fleet-hub/src/kiosk.rs: an owner attempt in flight can always be ended.
use Prim.Native.String.{String}
use rusty_fleet.Prelude.{
  ◌≡◌, refl, sym, ap, ◌∙◌, inl, inr, Bool, true, false, some, List, [], ◌∷◌, arith, Bool-cases, ℤ,
  ltb_ℤ, any, find, Result, ok, err, ◌>>=◌, is_err, str_eq, is_blank,
}
use mathlib.Core.Path.{subst}
use rusty_fleet.Contracts.Violation.{Validation}
use rusty_fleet.Contracts.Command.{CommandLifecycle}
use rusty_fleet.Contracts.Kiosk.{
  KioskShowControlsOperation, KioskShowControlsTargetLedger, is_inflight,
}
use rusty_fleet.Contracts.KioskLedger.{same_lifecycle}
use rusty_fleet.Contracts.KioskOperation.{validate_kiosk_operation}
use rusty_fleet.Hub.State.{FleetHub, HubError}
use rusty_fleet.BTreeMap
use rusty_fleet.Order.{text_ord}
use rusty_fleet.Hub.Kiosk.Guards.{
  change_first, has_device, relifed, kiosk_operation, target, target_mut, require_monotonic_time,
  store_operation, validate_operation, checked,
}
use rusty_fleet.Hub.Kiosk.Attempt.{
  finished_ledger, finish_owner_attempt, fail_kiosk_show_controls, expire_kiosk_show_controls,
}
use rusty_fleet.Hub.Kiosk.Changes.{is_ended}
use rusty_fleet.Hub.Kiosk.Soundness.{IsSound, sound_filed, found, target_inv}
use rusty_fleet.Hub.Kiosk.EndedOperation.{IsEndable, ended_operation-validates}

find-any :
    (d : String) (p : KioskShowControlsTargetLedger → Bool)
    (ts : List KioskShowControlsTargetLedger) {t : KioskShowControlsTargetLedger}
    → any p ts ≡ false
    → find (has_device d) ts ≡ some t
    → p t ≡ false
find-any d p [] a h = cc
find-any d p (x ∷ xs) {t} a h = elim (Bool-cases (has_device d x)) [
  | inl here ↦ let same : x ≡ t = ground arith in subst (λ y. p y ≡ false) same (ground arith)
  | inr other ↦ find-any d p xs (ground arith) (ground arith)
]

-- A target that is found can be changed.
change_first-some :
    (d : String) (change : KioskShowControlsTargetLedger → KioskShowControlsTargetLedger)
    (ts : List KioskShowControlsTargetLedger) {t : KioskShowControlsTargetLedger}
    → find (has_device d) ts ≡ some t
    → (change t).device_id ≡ t.device_id
    → (next : List KioskShowControlsTargetLedger) × (change_first d change ts ≡ some next)
      × (find (has_device d) next ≡ some (change t))
unfolding change_first
change_first-some d f [] h same = cc
change_first-some d f (x ∷ xs) {t} h same = elim (Bool-cases (has_device d x)) [
  | inl here ↦
      let at : x ≡ t = ground arith in
      let own : has_device d (f t) ≡ true =
        ap (λ i. str_eq i d) same ∙ (sym (ap (has_device d) at) ∙ here) in
      (
        f x ∷ xs,
        rw here refl,
        subst (λ y. find (has_device d) (f y ∷ xs) ≡ some (f t)) (sym at) (rw own refl),
      )
  | inr other ↦
      let (ys, kept, found_there) = change_first-some d f xs (ground arith) same in
      (x ∷ ys, rw (other, kept) refl, rw other found_there)
]

monotonic_times :
    (o : KioskShowControlsOperation) (now_ms : ℤ)
    → require_monotonic_time o now_ms ≡ ok tt
    → any (λ t. ltb_ℤ now_ms t.last_transition_ms) o.targets ≡ false
unfolding require_monotonic_time
monotonic_times o now_ms h = ground arith

checked_ok :
    (v : Validation) (code subject : String) → is_err v ≡ false → checked v code subject ≡ ok tt
checked_ok (ok _) code subject h = refl
checked_ok (err _) code subject h = cc

target_is :
    (o : KioskShowControlsOperation) (device_id : String) (t : KioskShowControlsTargetLedger)
    → find (has_device device_id) o.targets ≡ some t
    → target o device_id ≡ ok t
unfolding target
target_is o device_id t h = rw h refl

target_mut_is :
    (o : KioskShowControlsOperation) (device_id : String)
    (change : KioskShowControlsTargetLedger → KioskShowControlsTargetLedger)
    (ts : List KioskShowControlsTargetLedger)
    → change_first device_id change o.targets ≡ some ts
    → target_mut o device_id change ≡ ok (record o { targets = ts })
unfolding target_mut
target_mut_is o device_id change ts h = rw (h, target_mut) refl

flying_not_ended :
    (k l : CommandLifecycle) → is_inflight k ≡ true → is_ended l ≡ true → same_lifecycle k l ≡ false
flying_not_ended k l f e = ground arith

bind_to {ℓ κ μ} :
    {T : Type ℓ} {U : Type μ} {F : Type κ} (r : Result T F) (f : T → Result U F) {t : T}
    → r ≡ ok t
    → r >>= f ≡ f t
bind_to r f h = rw h refl

module _ {V S : Type 0} where
  store_is :
      (hub : FleetHub V S) (id : String) (o : KioskShowControlsOperation)
      → is_err (validate_kiosk_operation (relifed o)) ≡ false
      → store_operation hub id o
        ≡ ok (
          record hub { kiosk_operations = BTreeMap.insert id (relifed o) hub.kiosk_operations },
          relifed o,
        )
  unfolding store_operation validate_operation
  store_is hub id o valid =
      rw (checked_ok _ "kiosk_operation_invalid" "Kiosk show-controls operation" valid) refl

  -- The call, when each of its tests passes.
  finish_call :
      (hub : FleetHub V S) (id device_id reason message : String) (now_ms : ℤ)
      (l : CommandLifecycle) (o : KioskShowControlsOperation) (t : KioskShowControlsTargetLedger)
      (ts : List KioskShowControlsTargetLedger)
      → is_ended l ≡ true
      → kiosk_operation hub id ≡ ok o
      → target o device_id ≡ ok t
      → is_inflight t.lifecycle ≡ true
      → require_monotonic_time o now_ms ≡ ok tt
      → is_blank reason ≡ false
      → is_blank message ≡ false
      → change_first device_id
          (finished_ledger now_ms l reason message o.max_attempts_per_target)
          o.targets
        ≡ some ts
      → is_err (validate_kiosk_operation (relifed (record o { targets = ts }))) ≡ false
      → let u = relifed (record o { targets = ts }) in
        finish_owner_attempt hub id device_id reason message now_ms l
        ≡ ok (record hub { kiosk_operations = BTreeMap.insert id u hub.kiosk_operations }, u)
  unfolding finish_owner_attempt
  finish_call hub id device_id reason message now_ms l o t ts e known at flying time r m changed
        valid =
      let change = finished_ledger now_ms l reason message o.max_attempts_per_target in
      rw (r, m, known, time, at, flying_not_ended t.lifecycle l flying e, flying)
        (bind_to (target_mut o device_id change) _ (target_mut_is o device_id change ts changed)
          ∙ store_is hub id (record o { targets = ts }) valid)

  -- The ending call gives an operation in which the target has ended so.
  abbrev pub Ends :
      Result (FleetHub V S × KioskShowControlsOperation) HubError
      → String
      → CommandLifecycle
      → Type 0
  Ends call device_id l =
      (next : FleetHub V S) × (u : KioskShowControlsOperation) × (v : KioskShowControlsTargetLedger)
      × (call ≡ ok (next, u))
      × (target u device_id ≡ ok v)
      × (v.lifecycle ≡ l)

  finish-Ends :
      (hub : FleetHub V S) (id device_id reason message : String) (now_ms : ℤ)
      (l : CommandLifecycle) {o : KioskShowControlsOperation} {t : KioskShowControlsTargetLedger}
      → is_ended l ≡ true
      → IsSound hub
      → kiosk_operation hub id ≡ ok o
      → target o device_id ≡ ok t
      → is_inflight t.lifecycle ≡ true
      → require_monotonic_time o now_ms ≡ ok tt
      → is_blank reason ≡ false
      → is_blank message ≡ false
      → Ends (finish_owner_attempt hub id device_id reason message now_ms l) device_id l
  unfolding finished_ledger
  finish-Ends hub id device_id reason message now_ms l {o} {t} e s known at flying time r m =
      let first = target_inv o device_id at in
      let late = find-any device_id _ o.targets (monotonic_times o now_ms time) first in
      let endable : IsEndable now_ms t = record {
        flying = flying;
        in_time = ground (arith, late);
      } in
      let change = finished_ledger now_ms l reason message o.max_attempts_per_target in
      let (ts, changed, there) = change_first-some device_id change o.targets first refl in
      let u = relifed (record o { targets = ts }) in
      let valid =
        ended_operation-validates o now_ms l reason message e r m device_id
          (sound_filed hub id s (found hub id known)).1 first endable changed in
      let call =
        finish_call hub id device_id reason message now_ms l o t ts e known at flying time r m
          changed valid in
      (_, u, change t, call, target_is u device_id (change t) there, refl)

  -- In a sound Hub, an owner attempt that is in flight can always be ended: at any time that is not
  -- before a transition, with a reason and a message that are not blank, both fail and expire
  -- succeed, and leave the target failed or expired.
  pub attempt_can_end :
      (hub : FleetHub V S) (id device_id reason message : String) (now_ms : ℤ)
      {o : KioskShowControlsOperation} {t : KioskShowControlsTargetLedger}
      → IsSound hub
      → kiosk_operation hub id ≡ ok o
      → target o device_id ≡ ok t
      → is_inflight t.lifecycle ≡ true
      → require_monotonic_time o now_ms ≡ ok tt
      → is_blank reason ≡ false
      → is_blank message ≡ false
      → Ends
          (fail_kiosk_show_controls hub id device_id reason message now_ms)
          device_id
          CommandLifecycle.failed
        × Ends
            (expire_kiosk_show_controls hub id device_id reason message now_ms)
            device_id
            CommandLifecycle.expired
  unfolding fail_kiosk_show_controls expire_kiosk_show_controls
  attempt_can_end hub id device_id reason message now_ms s known at flying time r m = (
    finish-Ends hub id device_id reason message now_ms CommandLifecycle.failed refl s known at
        flying time r m,
    finish-Ends hub id device_id reason message now_ms CommandLifecycle.expired refl s known at
        flying time r m,
  )
