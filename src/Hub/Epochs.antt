-- ===== src/Hub/Epochs.antt =====
-- The seen source epochs of a device as a list without repetition, and as the set that `restore`
-- counts: crates/fleet-hub/src/lib.rs.
use Prim.Native.String.{String}
use rusty_fleet.Prelude.{
  ◌≡◌, refl, sym, ◌∙◌, inl, inr, true, false, none, List, [], ◌∷◌, ◌++◌, arith, if◌then◌else◌,
  Bool-cases, length, str_eq, str_eq_iff, str_eq_refl,
}
use rusty_fleet.BTreeMap
use rusty_fleet.BTreeMap.{BTreeMap, collect_set}
use rusty_fleet.BTreeMap.Laws.{get-insert_ne, length-insert_new}
use rusty_fleet.Order.{text_ord}
use rusty_fleet.Hub.Observe.{contains}

abbrev pub Distinct : List String → Type 0
Distinct [] = Unit
Distinct (x ∷ xs) = (contains x xs ≡ false) × Distinct xs

str_eq_sym : (s t : String) → str_eq s t ≡ false → str_eq t s ≡ false
str_eq_sym s t h = elim (Bool-cases (str_eq t s)) [
  | inl e ↦ cc (h, (str_eq_iff s t).1 (sym ((str_eq_iff t s).0 e)))
  | inr e ↦ e
]

contains_snoc :
    (x y : String) (xs : List String)
    → contains x xs ≡ false
    → str_eq x y ≡ false
    → contains x (xs ++ y ∷ []) ≡ false
contains_snoc x y [] h e = ground arith
contains_snoc x y (z ∷ xs) h e = ground (arith, contains_snoc x y xs)

pub contains_self : (x : String) (xs : List String) → contains x (xs ++ x ∷ []) ≡ true
contains_self x [] = ground (arith, str_eq_refl x)
contains_self x (z ∷ xs) = ground (arith, contains_self x xs)

pub Distinct-snoc :
    (y : String) (xs : List String) → contains y xs ≡ false → Distinct xs → Distinct (xs ++ y ∷ [])
Distinct-snoc y [] h d = (refl, tt)
Distinct-snoc y (x ∷ xs) h d = (
  contains_snoc x y xs d.0 (str_eq_sym y x (ground arith)),
  Distinct-snoc y xs (ground arith) d.1,
)

get-collect_set :
    (x : String) (xs : List String) → contains x xs ≡ false → BTreeMap.get x (collect_set xs) ≡ none
unfolding collect_set BTreeMap.get
get-collect_set x [] h = refl
get-collect_set x (y ∷ xs) h =
    get-insert_ne y x tt (collect_set xs) (λ e. cc ((str_eq_iff x y).1 e, unequal))
    ∙ get-collect_set x xs (ground arith)
  where
    unequal : str_eq x y ≡ false
    unequal = ground arith

-- The set of a list without repetition has as many elements as the list.
pub length-collect_set : (xs : List String) → Distinct xs → length (collect_set xs) ≡ length xs
unfolding collect_set
length-collect_set [] d = refl
length-collect_set (x ∷ xs) d = omega (
  arith,
  length-insert_new x tt (collect_set xs) (get-collect_set x xs d.0),
  length-collect_set xs d.1,
)

-- Pushing an epoch that is not there yet: what `accept_observation` does.
pub push_epoch :
    (e : String) (xs : List String)
    → Distinct xs
    → Distinct (if contains e xs then xs else xs ++ e ∷ [])
      × (contains e (if contains e xs then xs else xs ++ e ∷ []) ≡ true)
push_epoch e xs d = elim (Bool-cases (contains e xs)) [
  | inl old ↦ rw old (d, old)
  | inr new ↦ rw new (Distinct-snoc e xs new d, contains_self e xs)
]
