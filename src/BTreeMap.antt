-- ===== src/BTreeMap.antt =====
-- The standard library's ordered map, as the list of its entries in the order of the keys, which is
-- the order in which the program iterates over it.
pub mod Laws
use rusty_fleet.Prelude.{
  ℕ, ◌≡◌, Bool, true, false, Option, none, some, List, [], ◌∷◌, map, length, Ordering, is_some, All,
}
use rusty_fleet.Order.{Ord}

-- A map with keys in `K` and values in `V`.
abbrev pub BTreeMap {ℓ κ} : (K : Type ℓ) (V : Type κ) → Type (ℓ ⊔ κ)
BTreeMap K V = List (K × V)

module _ {ℓ κ} {K : Type ℓ} {V : Type κ} where
  abbrev pub keys : BTreeMap K V → List K
  keys [] = []
  keys ((k, v) ∷ m) = k ∷ keys m

  abbrev pub values : BTreeMap K V → List V
  values [] = []
  values ((k, v) ∷ m) = v ∷ values m

module _ {ℓ κ} {K : Type ℓ} {V : Type κ} ⦃o : Ord K⦄ where
  unfoldable pub get : K → BTreeMap K V → Option V
  get k [] = none
  get k ((j, v) ∷ m) = let rest = get k m in elim (o.cmp k j) [ Ordering.eq ↦ some v | _ ↦ rest ]

  abbrev pub contains_key : K → BTreeMap K V → Bool
  contains_key k m = is_some (get k m)

  unfoldable pub insert : K → V → BTreeMap K V → BTreeMap K V
  insert k v [] = (k, v) ∷ []
  insert k v ((j, w) ∷ m) =
      let rest = insert k v m in
      elim (o.cmp k j) [
        | Ordering.lt ↦ (k, v) ∷ (j, w) ∷ m
        | Ordering.eq ↦ (k, v) ∷ m
        | Ordering.gt ↦ (j, w) ∷ rest
      ]

  unfoldable pub remove : K → BTreeMap K V → BTreeMap K V
  remove k [] = []
  remove k ((j, w) ∷ m) =
      let rest = remove k m in elim (o.cmp k j) [ Ordering.eq ↦ m | _ ↦ (j, w) ∷ rest ]

  -- The keys are strictly increasing.
  abbrev pub Sorted : BTreeMap K V → Type (ℓ ⊔ κ)
  Sorted [] = Unit
  Sorted ((k, v) ∷ m) = All (λ e. o.cmp k e.0 ≡ Ordering.lt) m × Sorted m

-- `iter().collect::<BTreeSet<_>>()`: a set is a map to the type with one value.
unfoldable pub collect_set {ℓ} : {K : Type ℓ} ⦃o : Ord K⦄ → List K → BTreeMap K (Unit {0})
collect_set [] = []
collect_set (x ∷ xs) = insert x tt (collect_set xs)
