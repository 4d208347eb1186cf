-- ===== src/Hub/RowOrder.antt =====
-- The order of the rows that a query lists, stated by itself: crates/fleet-hub/src/lib.rs,
-- `compare_rows` and `list`.
use Prim.Native.String.{String, compare as compare_text, then as then_with}
use rusty_fleet.Prelude.{
  Ordering, ◌≡◌, refl, ap, ◌⊎◌, inl, inr, true, false, Option, none, some, List, [], ◌∷◌, arith, ℤ,
  filter, All,
}
use text.Mathlib.TextEquality.{path_by_compare}
use rusty_fleet.Order.{
  text_ord, IsComparison, pull_back-IsComparison, is_gt, compare_text-IsComparison,
}
use rusty_fleet.Contracts.Query.{FleetQuery, QueryExpression, SortKey}
use rusty_fleet.Contracts.Projection.{DeviceRowProjection}
use mathlib.Core.List.{Perm}
use mathlib.Core.Path.{subst}
use rusty_fleet.Hub.State.{FleetHub}
use rusty_fleet.Hub.Query.{evaluate}
use rusty_fleet.Hub.List.{
  compare_field, compare_by, compare_rows, directed, selects, all_rows, sorted_rows,
}
use rusty_fleet.Hub.Sorting.{
  IsSorted, FollowsAll, sort_by-IsSorted, sort_by-Perm, compare_field-IsComparison,
  directed-IsComparison, compare_by-IsComparison,
}
use rusty_fleet.Hub.FieldOrder.{Decides, TextBefore, text_decides, KeyBefore, key_decides}

module _ {V : Type 0} where
  -- A row may stand ahead of another: by the first sort key that tells them apart, else by the display
  -- name, else by the device.
  abbrev pub MayPrecede : List SortKey → DeviceRowProjection V → DeviceRowProjection V → Type 0
  MayPrecede [] a b =
      TextBefore a.identity.display_name b.identity.display_name
      ⊎ ((a.identity.display_name ≡ b.identity.display_name)
          × ¬ TextBefore b.identity.device_id a.identity.device_id)
  MayPrecede (key ∷ sort) a b = KeyBefore key a b ⊎ ((¬ KeyBefore key b a) × MayPrecede sort a b)

  -- What an answer other than `Greater` says.
  not_after :
      (cmp : DeviceRowProjection V → DeviceRowProjection V → Ordering)
      (before : DeviceRowProjection V → DeviceRowProjection V → Type 0) (rest : Ordering)
      → IsComparison cmp
      → Decides cmp before
      → (a b : DeviceRowProjection V) → is_gt (then_with (cmp a b) rest) ≡ false
      → before a b ⊎ ((¬ before b a) × (cmp a b ≡ Ordering.eq) × (is_gt rest ≡ false))
  not_after cmp before rest law d a b h = split (cmp a b) refl
    where
      split :
          (x : Ordering)
          → cmp a b ≡ x
          → before a b ⊎ ((¬ before b a) × (cmp a b ≡ Ordering.eq) × (is_gt rest ≡ false))
      split Ordering.lt e = inl ((d a b).0 e)
      split Ordering.gt e = ground arith
      split Ordering.eq e = inr ((λ k. ground (arith, (d b a).1 k, law.flip a b)), e, ground arith)

  compare_by-MayPrecede :
      (sort : List SortKey) (a b : DeviceRowProjection V)
      → is_gt (compare_by sort a b) ≡ false
      → MayPrecede sort a b
  unfolding compare_by
  compare_by-MayPrecede [] a b h =
      elim (not_after (λ x y. compare_text x.identity.display_name y.identity.display_name)
        (λ x y. TextBefore x.identity.display_name y.identity.display_name)
        (compare_text a.identity.device_id b.identity.device_id)
        (pull_back-IsComparison (λ x. x.identity.display_name) compare_text-IsComparison)
        (λ x y. text_decides x.identity.display_name y.identity.display_name) a b h) [
          | inl first ↦ inl first
          | inr (_, level, rest) ↦ inr (
            path_by_compare _ _ level,
            λ k.
                ground
                  (arith, compare_text-IsComparison.flip a.identity.device_id b.identity.device_id),
          )
        ]
  compare_by-MayPrecede (key ∷ sort) a b h =
      elim (not_after (λ x y. directed key.direction (compare_field key.field key.qualifier x y))
        (KeyBefore key) (compare_by sort a b)
        (directed-IsComparison key.direction (compare_field-IsComparison key.field key.qualifier))
        (key_decides key) a b h) [
          | inl first ↦ inl first
          | inr (other, _, rest) ↦ inr (other, compare_by-MayPrecede sort a b rest)
        ]

  abbrev pub InOrder : List SortKey → List (DeviceRowProjection V) → Type 0
  InOrder sort [] = Unit
  InOrder sort (r ∷ rs) = All (MayPrecede sort r) rs × InOrder sort rs

  follows-MayPrecede :
      (sort : List SortKey) (r : DeviceRowProjection V) (rs : List (DeviceRowProjection V))
      → FollowsAll (compare_by sort) r rs
      → All (MayPrecede sort r) rs
  follows-MayPrecede sort r [] h = tt
  follows-MayPrecede sort r (x ∷ xs) h =
      (compare_by-MayPrecede sort r x h.0, follows-MayPrecede sort r xs h.1)

  IsSorted-InOrder :
      (sort : List SortKey) (rs : List (DeviceRowProjection V))
      → IsSorted (compare_by sort) rs
      → InOrder sort rs
  IsSorted-InOrder sort [] h = tt
  IsSorted-InOrder sort (r ∷ rs) h =
      (follows-MayPrecede sort r rs h.0, IsSorted-InOrder sort rs h.1)

filter_all {ℓ} : {A : Type ℓ} (rows : List A) → filter (λ _. true) rows ≡ rows
filter_all [] = refl
filter_all (r ∷ rs) = ap (λ l. r ∷ l) (filter_all rs)

module _ {V : Type 0} (to_lowercase : String → String) where
  -- The rows that the query asks for: all of them, or those of which its expression holds.
  abbrev pub wanted :
      Option QueryExpression → List (DeviceRowProjection V) → List (DeviceRowProjection V)
  wanted none rows = rows
  wanted (some expression) rows = filter (evaluate to_lowercase expression) rows

  selected_wanted :
      (expression : Option QueryExpression) (rows : List (DeviceRowProjection V))
      → filter (selects to_lowercase expression) rows ≡ wanted expression rows
  selected_wanted none rows = filter_all rows
  selected_wanted (some e) rows = refl

module _ {V S : Type 0} (to_lowercase : String → String) where
  -- The rows from which a query's window is cut are all rows of the Hub if the query has no
  -- expression, and else exactly those of which its expression holds. Each may stand ahead of
  -- those after it: the first sort key that tells two rows apart puts it first in the direction of
  -- the key, a missing value being the least; else it comes first by display name; else, of the
  -- same display name, it does not come after by device.
  pub sorted_rows-InOrder :
      (hub : FleetHub V S) (query : FleetQuery) (now_ms : ℤ)
      → InOrder query.sort (sorted_rows to_lowercase hub query now_ms)
        × Perm
            (sorted_rows to_lowercase hub query now_ms)
            (wanted to_lowercase query.expression (all_rows hub now_ms))
  unfolding sorted_rows compare_rows
  sorted_rows-InOrder hub query now_ms =
      let selected = filter (selects to_lowercase query.expression) (all_rows hub now_ms) in
      (
        IsSorted-InOrder query.sort _ (
            sort_by-IsSorted (compare_by query.sort) (compare_by-IsComparison query.sort) selected),
        subst (Perm _) (selected_wanted to_lowercase query.expression (all_rows hub now_ms))
            (sort_by-Perm (compare_by query.sort) selected),
      )
