-- ===== src/Hub/RestoreFacts.antt =====
-- What the tests of `restore` on the log and on the Kiosk operations come to, as propositions:
-- crates/fleet-hub/src/lib.rs.
use Prim.Native.String.{String}
use rusty_fleet.Prelude.{
  ℕ, ◌<◌, ◌≡◌, refl, ◌⊎◌, inl, inr, true, false, Option, none, some, List, [], ◌∷◌, arith, ◌==◌,
  is_some_and, is_none_or, Bool-cases, any, last, All, Result, ok, err, is_err, str_eq, str_eq_iff,
  not,
}
use rusty_fleet.BTreeMap
use rusty_fleet.BTreeMap.{BTreeMap}
use rusty_fleet.Order.{text_ord}
use rusty_fleet.Contracts.Command.{CommandLifecycle}
use rusty_fleet.Contracts.Condition.{StatusCondition, validate_condition}
use rusty_fleet.Contracts.Kiosk.{KioskShowControlsTargetLedger}
use rusty_fleet.Contracts.SavedView.{SavedView}
use rusty_fleet.Hub.State.{DeviceRecord, WatchEvent}
use rusty_fleet.Hub.Observe.{watch_event_schema}
use rusty_fleet.Hub.Rows.{is_kiosk_terminal}
use rusty_fleet.Hub.Restore.{any_window_bad, is_target_stray}

pub no_err {ℓ} : {F : Type ℓ} (r : Result (Unit {0}) F) → is_err r ≡ false → r ≡ ok tt
no_err (ok tt) h = refl
no_err (err _) h = cc

-- The numbers of the events increase strictly.
abbrev pub IsIncreasing : List WatchEvent → Type 0
IsIncreasing [] = Unit
IsIncreasing (e ∷ []) = Unit
IsIncreasing (e ∷ f ∷ rest) = (e.event_sequence < f.event_sequence) × IsIncreasing (f ∷ rest)

abbrev pub IsWatchEvent : WatchEvent → Type 0
IsWatchEvent e = e.schema ≡ "rusty.fleet.watch_event.v1"

pub windows_in_order : (es : List WatchEvent) → any_window_bad es ≡ false → IsIncreasing es
unfolding any_window_bad
windows_in_order [] h = tt
windows_in_order (e ∷ []) h = tt
windows_in_order (e ∷ f ∷ rest) h = (ground arith, windows_in_order (f ∷ rest) (ground arith))

-- The windows test every schema but that of the last event.
pub events_named :
    (es : List WatchEvent)
    → any_window_bad es ≡ false
    → is_some_and (last es) (λ event. not (str_eq event.schema watch_event_schema)) ≡ false
    → All IsWatchEvent es
unfolding any_window_bad
events_named [] h k = tt
events_named (e ∷ []) h k = ((str_eq_iff e.schema watch_event_schema).0 (ground arith), tt)
events_named (e ∷ f ∷ rest) h k = (
  (str_eq_iff e.schema watch_event_schema).0 (ground arith),
  events_named (f ∷ rest) (ground arith) (ground arith),
)

pub valid_conditions :
    {V : Type 0} (cs : List (StatusCondition V))
    → any (λ c. is_err (validate_condition c)) cs ≡ false
    → All (λ c. validate_condition c ≡ ok tt) cs
valid_conditions [] h = tt
valid_conditions (c ∷ cs) h =
    (no_err (validate_condition c) (ground arith), valid_conditions cs (ground arith))

-- The states in which a target is settled.
abbrev pub IsSettled : CommandLifecycle → Type 0
IsSettled s =
    (s ≡ CommandLifecycle.rejected)
    ⊎ ((s ≡ CommandLifecycle.applied)
        ⊎ ((s ≡ CommandLifecycle.failed)
            ⊎ ((s ≡ CommandLifecycle.expired) ⊎ (s ≡ CommandLifecycle.cancelled))))

terminal-IsSettled : (s : CommandLifecycle) → is_kiosk_terminal s ≡ true → IsSettled s
unfolding is_kiosk_terminal
terminal-IsSettled CommandLifecycle.rejected h = inl refl
terminal-IsSettled CommandLifecycle.applied h = inr (inl refl)
terminal-IsSettled CommandLifecycle.failed h = inr (inr (inl refl))
terminal-IsSettled CommandLifecycle.expired h = inr (inr (inr (inl refl)))
terminal-IsSettled CommandLifecycle.cancelled h = inr (inr (inr (inr refl)))
terminal-IsSettled _ h = ground arith

-- The target is settled, or its device has a record under the same identity revision.
abbrev pub IsKnown :
    {V S : Type 0} → BTreeMap String (DeviceRecord V S) → KioskShowControlsTargetLedger → Type 0
IsKnown {V} {S} devices t =
    IsSettled t.lifecycle
    ⊎ ((r : DeviceRecord V S) × (BTreeMap.get t.device_id devices ≡ some r)
        × (r.observation.identity.identity_revision ≡ t.identity_revision))

same_revision :
    {V S : Type 0} (n : ℕ) (found : Option (DeviceRecord V S))
    → is_none_or found (λ r. not (r.observation.identity.identity_revision == n)) ≡ false
    → (r : DeviceRecord V S) × (found ≡ some r) × (r.observation.identity.identity_revision ≡ n)
same_revision n none h = ground arith
same_revision n (some r) h = (r, refl, ground arith)

target-IsKnown :
    {V S : Type 0} (devices : BTreeMap String (DeviceRecord V S))
    (t : KioskShowControlsTargetLedger)
    → is_target_stray devices t ≡ false
    → IsKnown devices t
unfolding is_target_stray
target-IsKnown devices t h = elim (Bool-cases (is_kiosk_terminal t.lifecycle)) [
  | inl done ↦ inl (terminal-IsSettled t.lifecycle done)
  | inr going ↦
      inr (same_revision t.identity_revision (BTreeMap.get t.device_id devices) (ground arith))
]

pub targets-IsKnown :
    {V S : Type 0} (devices : BTreeMap String (DeviceRecord V S))
    (ts : List KioskShowControlsTargetLedger)
    → any (is_target_stray devices) ts ≡ false
    → All (IsKnown devices) ts
targets-IsKnown devices [] h = tt
targets-IsKnown devices (t ∷ ts) h =
    (target-IsKnown devices t (ground arith), targets-IsKnown devices ts (ground arith))

pub views_named :
    (m : BTreeMap String SavedView)
    → any (λ e. not (str_eq e.1.view_id e.0)) m ≡ false
    → All (λ e. e.1.view_id ≡ e.0) m
views_named [] h = tt
views_named ((id, view) ∷ rest) h =
    ((str_eq_iff view.view_id id).0 (ground arith), views_named rest (ground arith))
