-- ===== src/Prelude/Words.antt =====
-- Unsigned 64-bit revision counters: a number below 2 ^ 64, with the two ways the program adds to one.
use Prim.Native.Nat.{ℕ, ◌+◌, ◌≤◌, ◌<◌}
use mathlib.Core.Path.{◌≡◌}
use mathlib.Core.Option.{Option, none, some}
use native.Mathlib.Omega.{arith}
use rusty_fleet.Prelude.Tests.{ltb, if◌then◌else◌}

abbrev pub u64_max : ℕ
u64_max = 18446744073709551615

-- `saturating_add` and `checked_add` of u64 (and of usize on a 64-bit host).
unfoldable pub saturating_add : ℕ → ℕ → ℕ
saturating_add a b = if ltb u64_max (a + b) then u64_max else a + b

unfoldable pub checked_add : ℕ → ℕ → Option ℕ
checked_add a b = if ltb u64_max (a + b) then none else some (a + b)

pub saturating_add_below : (a b : ℕ) → a + b ≤ u64_max → saturating_add a b ≡ a + b
unfolding saturating_add
saturating_add_below a b h = ground arith

pub le-saturating_add : (a b : ℕ) → a ≤ u64_max → a ≤ saturating_add a b
unfolding saturating_add
le-saturating_add a b h = ground arith

pub saturating_add-le : (a b : ℕ) → saturating_add a b ≤ u64_max
unfolding saturating_add
saturating_add-le a b = ground arith

pub checked_add_iff : (a b n : ℕ) → checked_add a b ≡ some n → (n ≡ a + b) × (n ≤ u64_max)
unfolding checked_add
checked_add_iff a b n h = ground arith

pub saturating_add_pos : (a : ℕ) → a ≤ u64_max → 0 < saturating_add a 1
unfolding saturating_add
saturating_add_pos a h = ground arith
