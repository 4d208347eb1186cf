-- ===== src/Contracts/Lifecycle.antt =====
-- The lifecycle of a command as a state machine: crates/fleet-contracts/src/command.rs.
use rusty_fleet.Prelude.{◌≡◌, refl, ◌⊎◌, inl, inr, Bool, true, false, arith}
use rusty_fleet.Contracts.Command.{CommandLifecycle, can_transition_to}

-- A run of the transitions that are allowed.
pub data Run : CommandLifecycle → CommandLifecycle → Type 0 where
  here : (s : CommandLifecycle) → Run s s
  via : (s t u : CommandLifecycle) → can_transition_to s t ≡ true → Run t u → Run s u

-- The command is proposed or accepted, and neither refused nor settled.
abbrev pub is_open : CommandLifecycle → Bool
is_open CommandLifecycle.proposed = true
is_open CommandLifecycle.accepted = true
is_open CommandLifecycle.dispatched = true
is_open CommandLifecycle.running = true
is_open CommandLifecycle.cancellation_requested = true
is_open _ = false

closed_step :
    (s t : CommandLifecycle) → is_open s ≡ false → can_transition_to s t ≡ true → is_open t ≡ false
unfolding can_transition_to
closed_step s t h k = ground arith

-- Along the transitions that `can_transition_to` allows, a command that is settled or refused
-- never becomes active again. This says nothing of the Kiosk operations, which do not use that
-- table.
pub settled_stays : (s t : CommandLifecycle) → is_open s ≡ false → Run s t → is_open t ≡ false
settled_stays _ _ h (here s) = h
settled_stays _ _ h (via s t u k rest) = settled_stays t u (closed_step s t h k) rest

-- The states that a command can only be in once its owner has accepted it.
abbrev pub needs_acceptance : CommandLifecycle → Bool
needs_acceptance CommandLifecycle.accepted = true
needs_acceptance CommandLifecycle.dispatched = true
needs_acceptance CommandLifecycle.running = true
needs_acceptance CommandLifecycle.applied = true
needs_acceptance CommandLifecycle.cancellation_requested = true
needs_acceptance CommandLifecycle.cancelled = true
needs_acceptance _ = false

-- The states that a command which was never accepted can be in after it was proposed.
abbrev is_refused : CommandLifecycle → Bool
is_refused CommandLifecycle.rejected = true
is_refused CommandLifecycle.expired = true
is_refused CommandLifecycle.cleanup_pending = true
is_refused CommandLifecycle.cleaned = true
is_refused CommandLifecycle.failed = true
is_refused _ = false

refused_step :
    (s t : CommandLifecycle)
    → is_refused s ≡ true
    → can_transition_to s t ≡ true
    → is_refused t ≡ true
unfolding can_transition_to
refused_step s t h k = ground arith

refused_stays : (s t : CommandLifecycle) → is_refused s ≡ true → Run s t → is_refused t ≡ true
refused_stays _ _ h (here s) = h
refused_stays _ _ h (via s t u k rest) = refused_stays t u (refused_step s t h k) rest

first_step :
    (t : CommandLifecycle)
    → can_transition_to CommandLifecycle.proposed t ≡ true
    → (t ≡ CommandLifecycle.accepted) ⊎ (is_refused t ≡ true)
unfolding can_transition_to
first_step t h = ground arith

exclusive : (t : CommandLifecycle) → is_refused t ≡ true → needs_acceptance t ≡ true → ⊥
exclusive t h k = ground arith

-- The run passes through a state, its first and its last included.
abbrev pub Passes : (u : CommandLifecycle) → {s t : CommandLifecycle} → Run s t → Type 0
Passes u (here s) = s ≡ u
Passes u (via s m t k rest) = (s ≡ u) ⊎ Passes u rest

Passes-start : (s t u : CommandLifecycle) → s ≡ u → (run : Run s t) → Passes u run
Passes-start _ _ u e (here s) = e
Passes-start _ _ u e (via s m t k rest) = inl e

from_proposed :
    (s t : CommandLifecycle)
    → s ≡ CommandLifecycle.proposed
    → (run : Run s t) → needs_acceptance t ≡ true
    → Passes CommandLifecycle.accepted run
from_proposed _ _ p (here s) h = ground arith
from_proposed _ _ p (via s u t k rest) h = elim (first_step u (rw p at k)) [
  | inl at_accepted ↦ inr (Passes-start u t CommandLifecycle.accepted at_accepted rest)
  | inr refused ↦ absurd (exclusive t (refused_stays u t refused rest) h)
]

-- Every run of allowed transitions by which a proposed command comes to be accepted, dispatched,
-- running, applied, asked to be cancelled or cancelled passes through its acceptance.
pub acceptance_comes_first :
    (t : CommandLifecycle) (run : Run CommandLifecycle.proposed t)
    → needs_acceptance t ≡ true
    → Passes CommandLifecycle.accepted run
acceptance_comes_first t run h = from_proposed CommandLifecycle.proposed t refl run h
