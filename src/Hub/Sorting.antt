-- ===== src/Hub/Sorting.antt =====
-- The comparison of the rows that a query lists, and its sort: crates/fleet-hub/src/lib.rs, `compare_rows` and `list`.
use Prim.Native.String.{String}
use rusty_fleet.Prelude.{
  suc, Ordering, ◌≡◌, refl, ap, ◌∙◌, inl, inr, true, false, Option, none, some, List, [], ◌∷◌,
  arith, Bool-cases, length, All,
}
use rusty_fleet.Order.{
  text_ord, IsComparison, is_gt, compare_text-IsComparison, compare_nat-IsComparison,
  compare_option-IsComparison, then-IsComparison, pull_back-IsComparison, reverse-IsComparison,
  always_eq-IsComparison,
}
use rusty_fleet.BTreeMap
use rusty_fleet.Contracts.Query.{QueryField, SortKey, SortDirection}
use rusty_fleet.Contracts.Projection.{DeviceRowProjection}
use mathlib.Core.List.{Perm}
use mathlib.Core.List.Perm
use rusty_fleet.Hub.Query.{freshness_rank}
use rusty_fleet.Hub.List.{insert_sorted, sort_by, compare_field, compare_by, directed}

length-insert_sorted {ℓ} :
    {A : Type ℓ} (cmp : A → A → Ordering) (x : A) (ys : List A)
    → length (insert_sorted cmp x ys) ≡ suc (length ys)
unfolding insert_sorted
length-insert_sorted cmp x [] = refl
length-insert_sorted cmp x (y ∷ ys) = ground (arith, length-insert_sorted cmp x ys)

pub length-sort_by {ℓ} :
    {A : Type ℓ} (cmp : A → A → Ordering) (xs : List A) → length (sort_by cmp xs) ≡ length xs
unfolding sort_by
length-sort_by cmp [] = refl
length-sort_by cmp (x ∷ xs) =
    length-insert_sorted cmp x (sort_by cmp xs) ∙ ap suc (length-sort_by cmp xs)

-- No element comes before the one in front of it.
module _ {ℓ} {A : Type ℓ} (cmp : A → A → Ordering) where
  abbrev pub FollowsAll : A → List A → Type 0
  FollowsAll x ys = All (λ y. is_gt (cmp x y) ≡ false) ys

  abbrev pub IsSorted : List A → Type 0
  IsSorted [] = Unit
  IsSorted (x ∷ xs) = FollowsAll x xs × IsSorted xs

  module _ (law : IsComparison cmp) where
    at_most_trans :
        (x y z : A) → is_gt (cmp x y) ≡ false → is_gt (cmp y z) ≡ false → is_gt (cmp x z) ≡ false
    at_most_trans x y z h k = ground (
      arith,
      law.trans x y z,
      law.same x y z,
      law.same y z x,
      law.flip x y,
      law.flip y z,
      law.flip x z,
    )

    below_all :
        (x y : A) (ys : List A) → is_gt (cmp x y) ≡ false → FollowsAll y ys → FollowsAll x ys
    below_all x y [] h k = tt
    below_all x y (z ∷ zs) h k = (at_most_trans x y z h k.0, below_all x y zs h k.1)

    insert_below :
        (x y : A) (ys : List A)
        → is_gt (cmp x y) ≡ true
        → FollowsAll y ys
        → FollowsAll y (insert_sorted cmp x ys)
    unfolding insert_sorted
    insert_below x y [] h k = (ground (arith, law.flip x y), tt)
    insert_below x y (z ∷ zs) h k = elim (Bool-cases (is_gt (cmp x z))) [
      | inl above ↦ rw above (k.0, insert_below x y zs h k.1)
      | inr below ↦ rw below (ground (arith, law.flip x y), k)
    ]

    insert_sorted-IsSorted : (x : A) (ys : List A) → IsSorted ys → IsSorted (insert_sorted cmp x ys)
    unfolding insert_sorted
    insert_sorted-IsSorted x [] h = (tt, tt)
    insert_sorted-IsSorted x (y ∷ ys) h = elim (Bool-cases (is_gt (cmp x y))) [
      | inl above ↦ rw above (insert_below x y ys above h.0, insert_sorted-IsSorted x ys h.1)
      | inr below ↦ rw below ((below, below_all x y ys below h.0), h)
    ]

    pub sort_by-IsSorted : (xs : List A) → IsSorted (sort_by cmp xs)
    unfolding sort_by
    sort_by-IsSorted [] = tt
    sort_by-IsSorted (x ∷ xs) = insert_sorted-IsSorted x (sort_by cmp xs) (sort_by-IsSorted xs)

module _ {ℓ} {A : Type ℓ} (cmp : A → A → Ordering) where
  insert_sorted-Perm : (x : A) (ys : List A) → Perm (insert_sorted cmp x ys) (x ∷ ys)
  unfolding insert_sorted
  insert_sorted-Perm x [] = Perm.refl (x ∷ [])
  insert_sorted-Perm x (y ∷ ys) = elim (Bool-cases (is_gt (cmp x y))) [
    | inl above ↦ rw above (Perm.trans (Perm.cons y (insert_sorted-Perm x ys)) (Perm.swap x y ys))
    | inr below ↦ rw below (Perm.refl (x ∷ y ∷ ys))
  ]

  pub sort_by-Perm : (xs : List A) → Perm (sort_by cmp xs) xs
  unfolding sort_by
  sort_by-Perm [] = Perm.refl []
  sort_by-Perm (x ∷ xs) =
      Perm.trans (insert_sorted-Perm x (sort_by cmp xs)) (Perm.cons x (sort_by-Perm xs))

module _ {V : Type 0} where
  compare_tag-IsComparison :
      (qualifier : Option String) → IsComparison (compare_field {V = V} QueryField.tag qualifier)
  unfolding compare_field
  compare_tag-IsComparison none = always_eq-IsComparison
  compare_tag-IsComparison (some key) =
      pull_back-IsComparison (λ r. BTreeMap.get key r.identity.tags)
        (compare_option-IsComparison compare_text-IsComparison)

  pub compare_field-IsComparison :
      (field : QueryField) (qualifier : Option String)
      → IsComparison (compare_field {V = V} field qualifier)
  unfolding compare_field
  compare_field-IsComparison QueryField.device_id qualifier =
      pull_back-IsComparison (λ r. r.identity.device_id) compare_text-IsComparison
  compare_field-IsComparison QueryField.display_name qualifier =
      pull_back-IsComparison (λ r. r.identity.display_name) compare_text-IsComparison
  compare_field-IsComparison QueryField.model qualifier =
      pull_back-IsComparison (λ r. r.identity.model) compare_text-IsComparison
  compare_field-IsComparison QueryField.freshness qualifier =
      pull_back-IsComparison (λ r. freshness_rank r.freshness) compare_nat-IsComparison
  compare_field-IsComparison QueryField.battery_percent qualifier =
      pull_back-IsComparison (λ r. r.battery_percent)
        (compare_option-IsComparison compare_nat-IsComparison)
  compare_field-IsComparison QueryField.foreground_app qualifier =
      pull_back-IsComparison (λ r. r.foreground_app)
        (compare_option-IsComparison compare_text-IsComparison)
  compare_field-IsComparison QueryField.kiosk_state qualifier =
      pull_back-IsComparison (λ r. r.kiosk_state) compare_text-IsComparison
  compare_field-IsComparison QueryField.tag qualifier = compare_tag-IsComparison qualifier
  compare_field-IsComparison QueryField.capability qualifier = always_eq-IsComparison
  compare_field-IsComparison QueryField.condition_family qualifier = always_eq-IsComparison
  compare_field-IsComparison QueryField.condition_state qualifier = always_eq-IsComparison

  pub directed-IsComparison :
      (direction : SortDirection) {cmp : DeviceRowProjection V → DeviceRowProjection V → Ordering}
      → IsComparison cmp
      → IsComparison (λ a b. directed direction (cmp a b))
  directed-IsComparison SortDirection.ascending law = law
  directed-IsComparison SortDirection.descending law = reverse-IsComparison law

  pub compare_by-IsComparison : (sort : List SortKey) → IsComparison (compare_by {V = V} sort)
  unfolding compare_by
  compare_by-IsComparison [] =
      then-IsComparison
        (pull_back-IsComparison (λ r. r.identity.display_name) compare_text-IsComparison)
        (pull_back-IsComparison (λ r. r.identity.device_id) compare_text-IsComparison)
  compare_by-IsComparison (key ∷ sort) =
      then-IsComparison
        (directed-IsComparison key.direction (compare_field-IsComparison key.field key.qualifier))
        (compare_by-IsComparison sort)
