-- ===== src/Hub/Kiosk/Changes.antt =====
-- crates/fleet-hub/src/kiosk.rs: the changes that the operations make to the ledger of a target, and to
-- the list of them.
use Prim.Native.String.{String}
use rusty_fleet.Prelude.{
  ℕ, ◌<◌, ◌≡◌, refl, sym, ◌⊎◌, inl, inr, Bool, true, false, some, List, [], ◌∷◌, map, arith,
  if◌then◌else◌, Bool-cases, Option-cases, ℤ, find, is_err,
}
use mathlib.Core.Path.{subst}
use rusty_fleet.Contracts.Command.{CommandLifecycle}
use rusty_fleet.Contracts.Kiosk.{KioskShowControlsTargetLedger, KioskEffectiveReceipt, is_inflight}
use rusty_fleet.Contracts.KioskOwner.{validate_effective_receipt}
use rusty_fleet.Hub.Observe.{contains}
use rusty_fleet.Hub.Kiosk.Guards.{change_first, has_device}
use rusty_fleet.Hub.Kiosk.Confirm.{accepted_ledger, confirmed_ledger}
use rusty_fleet.Hub.Kiosk.Dispatch.{dispatched_ledger, is_dispatchable}
use rusty_fleet.Hub.Kiosk.Attempt.{
  inflight_ledger, applied_ledger, finished_ledger, is_binding_wrong,
}
use rusty_fleet.Hub.Kiosk.Cancel.{cancelling_ledger, cancelled_ledger}

-- How a target that an owner attempt did not apply ends.
abbrev pub is_ended : CommandLifecycle → Bool
is_ended CommandLifecycle.failed = true
is_ended CommandLifecycle.expired = true
is_ended _ = false

-- One change of a ledger, with what its handler has tested.
pub data Change (max_attempts : ℕ)
    : KioskShowControlsTargetLedger → KioskShowControlsTargetLedger → Type 0 where
  confirm :
      (t : KioskShowControlsTargetLedger) (now_ms : ℤ)
      → t.preflight.eligible ≡ true
      → Change max_attempts t (accepted_ledger now_ms t)
  dispatch :
      (t : KioskShowControlsTargetLedger) (request_id : String) (now_ms deadline : ℤ)
      → is_dispatchable t.lifecycle ≡ true
      → t.attempt_count < max_attempts
      → contains request_id t.owner_request_ids ≡ false
      → Change max_attempts t (dispatched_ledger request_id now_ms deadline max_attempts t)
  run :
      (t : KioskShowControlsTargetLedger) (now_ms : ℤ) (reason message : String)
      → t.lifecycle ≡ CommandLifecycle.dispatched
      → Change max_attempts t (inflight_ledger now_ms CommandLifecycle.running reason message t)
  apply :
      (t : KioskShowControlsTargetLedger) (receipt : KioskEffectiveReceipt) (now_ms : ℤ)
      → is_inflight t.lifecycle ≡ true
      → is_err (validate_effective_receipt receipt) ≡ false
      → is_binding_wrong t receipt ≡ false
      → Change max_attempts t (applied_ledger receipt now_ms t)
  finish :
      (t : KioskShowControlsTargetLedger) (now_ms : ℤ) (lifecycle : CommandLifecycle)
      (reason message : String)
      → is_inflight t.lifecycle ≡ true
      → is_ended lifecycle ≡ true
      → Change max_attempts t (finished_ledger now_ms lifecycle reason message max_attempts t)
  ask_cancel :
      (t : KioskShowControlsTargetLedger) (now_ms : ℤ)
      → t.lifecycle ≡ CommandLifecycle.accepted
      → Change max_attempts t (cancelling_ledger now_ms t)
  cancel :
      (t : KioskShowControlsTargetLedger) (now_ms : ℤ)
      → t.lifecycle ≡ CommandLifecycle.cancellation_requested
      → Change max_attempts t (cancelled_ledger now_ms t)

-- Two lists of one length whose elements at each place are related.
pub data Pairwise {ℓ κ} {A : Type ℓ} (R : A → A → Type κ) : List A → List A → Type (ℓ ⊔ κ) where
  done : Pairwise R [] []
  both : (x y : A) (xs ys : List A) → R x y → Pairwise R xs ys → Pairwise R (x ∷ xs) (y ∷ ys)

pub Pairwise-same {ℓ κ} :
    {A : Type ℓ} (R : A → A → Type κ) → ((x : A) → R x x) → (xs : List A) → Pairwise R xs xs
Pairwise-same R r [] = done
Pairwise-same R r (x ∷ xs) = both x x xs xs (r x) (Pairwise-same R r xs)

pub Pairwise-map {ℓ κ} :
    {A : Type ℓ} (R : A → A → Type κ) (f : A → A)
    → ((x : A) → R x (f x))
    → (xs : List A) → Pairwise R xs (map f xs)
Pairwise-map R f r [] = done
Pairwise-map R f r (x ∷ xs) = both x (f x) xs (map f xs) (r x) (Pairwise-map R f r xs)

-- A ledger as it was, or after one change.
abbrev pub Changed : ℕ → KioskShowControlsTargetLedger → KioskShowControlsTargetLedger → Type 0
Changed max t next = (next ≡ t) ⊎ Change max t next

pub confirmed_ledger-Changed :
    (max : ℕ) (now_ms : ℤ) (t : KioskShowControlsTargetLedger)
    → Changed max t (confirmed_ledger now_ms t)
unfolding confirmed_ledger
confirmed_ledger-Changed max now_ms t = go t.preflight.eligible refl
  where
    go :
        (b : Bool)
        → t.preflight.eligible ≡ b
        → Changed max t (if b then accepted_ledger now_ms t else t)
    go true e = inr (Change.confirm t now_ms e)
    go false e = inl refl

-- The change of the first target of a device changes one place of the list.
pub change_first-Pairwise :
    (max : ℕ) (device_id : String)
    (change : KioskShowControlsTargetLedger → KioskShowControlsTargetLedger)
    (ts : List KioskShowControlsTargetLedger) {t : KioskShowControlsTargetLedger}
    {next : List KioskShowControlsTargetLedger}
    → find (has_device device_id) ts ≡ some t
    → Change max t (change t)
    → change_first device_id change ts ≡ some next
    → Pairwise (Changed max) ts next
unfolding change_first
change_first-Pairwise max d f [] h c e = cc
change_first-Pairwise max d f (x ∷ xs) {t} {next} h c e = elim (Bool-cases (has_device d x)) [
  | inl here ↦
      let found : x ≡ t = ground arith in
      let same : f x ∷ xs ≡ next = ground arith in
      subst (Pairwise (Changed max) (x ∷ xs)) same (
        both x (f x) xs xs (inr (subst (λ y. Change max y (f y)) (sym found) c))
          (Pairwise-same (Changed max) (λ y. inl refl) xs))
  | inr other ↦ elim (Option-cases (change_first d f xs)) [
    | inl missing ↦ absurd (ground arith)
    | inr (ys, kept) ↦
        let later : find (has_device d) xs ≡ some t = ground arith in
        let same : x ∷ ys ≡ next = ground arith in
        subst (Pairwise (Changed max) (x ∷ xs)) same
          (both x x xs ys (inl refl) (change_first-Pairwise max d f xs later c kept))
  ]
]
