-- ===== src/Contracts/Command.antt =====
-- crates/fleet-contracts/src/command.rs: the lifecycle of a command.
use rusty_fleet.Prelude.{Bool, true, false}

pub data CommandLifecycle : Type 0 where
  proposed accepted rejected dispatched running applied : CommandLifecycle
  failed expired cancellation_requested cancelled cleanup_pending cleaned : CommandLifecycle

pub lifecycle_discrete : Discrete CommandLifecycle
lifecycle_discrete = hlevel

unfoldable pub is_terminal : CommandLifecycle → Bool
is_terminal rejected = true
is_terminal failed = true
is_terminal expired = true
is_terminal cancelled = true
is_terminal cleaned = true
is_terminal _ = false

-- The table of `can_transition_to`.
unfoldable pub can_transition_to : CommandLifecycle → CommandLifecycle → Bool
can_transition_to proposed accepted = true
can_transition_to proposed rejected = true
can_transition_to proposed expired = true
can_transition_to accepted dispatched = true
can_transition_to accepted cancellation_requested = true
can_transition_to accepted expired = true
can_transition_to accepted failed = true
can_transition_to dispatched running = true
can_transition_to dispatched applied = true
can_transition_to dispatched cancellation_requested = true
can_transition_to dispatched failed = true
can_transition_to dispatched expired = true
can_transition_to running applied = true
can_transition_to running cancellation_requested = true
can_transition_to running failed = true
can_transition_to running expired = true
can_transition_to cancellation_requested cancelled = true
can_transition_to cancellation_requested applied = true
can_transition_to cancellation_requested failed = true
can_transition_to cancellation_requested cleanup_pending = true
can_transition_to applied cleanup_pending = true
can_transition_to applied cleaned = true
can_transition_to failed cleanup_pending = true
can_transition_to failed cleaned = true
can_transition_to cancelled cleanup_pending = true
can_transition_to cancelled cleaned = true
can_transition_to expired cleanup_pending = true
can_transition_to expired cleaned = true
can_transition_to cleanup_pending cleaned = true
can_transition_to cleanup_pending failed = true
can_transition_to _ _ = false
