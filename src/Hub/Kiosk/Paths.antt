-- ===== src/Hub/Kiosk/Paths.antt =====
-- The protocol of a target over many moves: crates/fleet-hub/src/kiosk.rs.
use rusty_fleet.Prelude.{
  ℕ, suc, ◌+◌, ◌-◌, ◌*◌, ◌≤◌, ◌<◌, ◌≡◌, refl, ap, ◌∙◌, Bool, true, false, arith,
}
use rusty_fleet.Contracts.Command.{CommandLifecycle}
use rusty_fleet.Hub.Kiosk.Protocol.{Moves}

-- `k` moves, one after the other.
pub data Moving (max : ℕ) (l : CommandLifecycle) (n : ℕ) : CommandLifecycle → ℕ → ℕ → Type 0 where
  stay : Moving max l n l n 0
  then_move :
      (j k : CommandLifecycle) (m p c : ℕ)
      → Moving max l n j m c
      → Moves max j m k p
      → Moving max l n k p (suc c)

weight : CommandLifecycle → ℕ
weight CommandLifecycle.proposed = 3
weight CommandLifecycle.accepted = 2
weight CommandLifecycle.dispatched = 2
weight CommandLifecycle.running = 1
weight CommandLifecycle.cancellation_requested = 1
weight _ = 0

-- No more moves than this are left.
potential : ℕ → CommandLifecycle → ℕ → ℕ
potential max l n = 3 * (max - n) + weight l

Moves-potential :
    (max : ℕ) (l k : CommandLifecycle) (n m : ℕ)
    → Moves max l n k m
    → potential max k m < potential max l n
unfolding potential weight
Moves-potential max _ _ _ _ Moves.accept = omega arith
Moves-potential max _ _ _ _ (Moves.begin h) = omega (arith, h)
Moves-potential max _ _ _ _ (Moves.retry l n e h) = ground arith
Moves-potential max _ _ _ _ (Moves.run n) = omega arith
Moves-potential max _ _ _ _ (Moves.apply l n e) = ground arith
Moves-potential max _ _ _ _ (Moves.finish l k n e f) = ground arith
Moves-potential max _ _ _ _ Moves.ask_cancel = omega arith
Moves-potential max _ _ _ _ Moves.cancel = omega arith

Moving-potential :
    (max : ℕ) (l : CommandLifecycle) (n : ℕ) (k : CommandLifecycle) (m c : ℕ)
    → Moving max l n k m c
    → c + potential max k m ≤ potential max l n
Moving-potential max l n _ _ _ Moving.stay = omega arith
Moving-potential max l n _ _ _ (Moving.then_move j k m p c before move) =
    omega (arith, Moving-potential max l n j m c before, Moves-potential max j k m p move)

weight_bound : (l : CommandLifecycle) → weight l ≤ 3
unfolding weight
weight_bound l = ground arith

pub Moving-bound :
    (max : ℕ) (l : CommandLifecycle) (n : ℕ) (k : CommandLifecycle) (m c : ℕ)
    → Moving max l n k m c
    → c ≤ 3 * max + 3
unfolding potential
Moving-bound max l n k m c h = omega (arith, Moving-potential max l n k m c h, weight_bound l)

-- The states that a target never leaves.
abbrev pub is_final : CommandLifecycle → Bool
is_final CommandLifecycle.applied = true
is_final CommandLifecycle.rejected = true
is_final CommandLifecycle.cancelled = true
is_final _ = false

Moves-not_final :
    (max : ℕ) (l k : CommandLifecycle) (n m : ℕ) → Moves max l n k m → is_final l ≡ false
Moves-not_final max _ _ _ _ Moves.accept = refl
Moves-not_final max _ _ _ _ (Moves.begin h) = refl
Moves-not_final max _ _ _ _ (Moves.retry l n e h) = ground arith
Moves-not_final max _ _ _ _ (Moves.run n) = refl
Moves-not_final max _ _ _ _ (Moves.apply l n e) = ground arith
Moves-not_final max _ _ _ _ (Moves.finish l k n e f) = ground arith
Moves-not_final max _ _ _ _ Moves.ask_cancel = refl
Moves-not_final max _ _ _ _ Moves.cancel = refl

pub Moving-final :
    (max : ℕ) (l : CommandLifecycle) (n : ℕ) (k : CommandLifecycle) (m c : ℕ)
    → is_final l ≡ true
    → Moving max l n k m c
    → (k ≡ l) × (m ≡ n)
Moving-final max l n _ _ _ f Moving.stay = (refl, refl)
Moving-final max l n _ _ _ f (Moving.then_move j k m p c before move) =
    let (same, _) = Moving-final max l n j m c f before in
    let open_state = Moves-not_final max j k m p move in
    let final_state : is_final j ≡ true = ap is_final same ∙ f in cc

Moves-attempts : (max : ℕ) (l k : CommandLifecycle) (n m : ℕ) → Moves max l n k m → n ≤ m
Moves-attempts max _ _ _ _ Moves.accept = omega arith
Moves-attempts max _ _ _ _ (Moves.begin h) = omega arith
Moves-attempts max _ _ _ _ (Moves.retry l n e h) = omega arith
Moves-attempts max _ _ _ _ (Moves.run n) = omega arith
Moves-attempts max _ _ _ _ (Moves.apply l n e) = omega arith
Moves-attempts max _ _ _ _ (Moves.finish l k n e f) = omega arith
Moves-attempts max _ _ _ _ Moves.ask_cancel = omega arith
Moves-attempts max _ _ _ _ Moves.cancel = omega arith

pub Moving-attempts :
    (max : ℕ) (l : CommandLifecycle) (n : ℕ) (k : CommandLifecycle) (m c : ℕ)
    → Moving max l n k m c
    → n ≤ m
Moving-attempts max l n _ _ _ Moving.stay = omega arith
Moving-attempts max l n _ _ _ (Moving.then_move j k m p c before move) =
    omega (arith, Moving-attempts max l n j m c before, Moves-attempts max j k m p move)
