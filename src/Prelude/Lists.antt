-- ===== src/Prelude/Lists.antt =====
-- Lists measured by native numbers, under the library's names, and the list operations of the
-- program's standard library.
use Prim.Native.Nat.{ℕ, zero, suc, ◌+◌, ◌-◌, ◌≤◌, min}
use mathlib.Core.Path.{◌≡◌, refl, ap}
use mathlib.Core.Logic.{inl, inr}
use mathlib.Core.Bool.{Bool, true, false, ◌&&◌, ◌||◌}
use mathlib.Core.List.{List, [], ◌∷◌, ◌++◌}
use mathlib.Core.Option.{Option, none, some}
use native.Mathlib.Omega.{arith}
use rusty_fleet.Prelude.Tests.{if◌then◌else◌, ltb, Bool-cases}

module _ {ℓ} {A : Type ℓ} where
  abbrev pub length : List A → ℕ
  length [] = 0
  length (x ∷ xs) = suc (length xs)

  abbrev pub take : ℕ → List A → List A
  take zero xs = []
  take (suc n) [] = []
  take (suc n) (x ∷ xs) = x ∷ take n xs

  abbrev pub drop : ℕ → List A → List A
  drop zero xs = xs
  drop (suc n) [] = []
  drop (suc n) (x ∷ xs) = drop n xs

  -- `iter().any(p)`, `iter().all(p)`, `iter().filter(p)`, `iter().find(p)` and `last()`.
  abbrev pub any : (A → Bool) → List A → Bool
  any p [] = false
  any p (x ∷ xs) = p x || any p xs

  abbrev pub all : (A → Bool) → List A → Bool
  all p [] = true
  all p (x ∷ xs) = p x && all p xs

  abbrev pub filter : (A → Bool) → List A → List A
  filter p [] = []
  filter p (x ∷ xs) = let rest = filter p xs in if p x then x ∷ rest else rest

  abbrev pub find : (A → Bool) → List A → Option A
  find p [] = none
  find p (x ∷ xs) = let rest = find p xs in if p x then some x else rest

  abbrev pub last : List A → Option A
  last [] = none
  last (x ∷ []) = some x
  last (x ∷ y ∷ xs) = last (y ∷ xs)

  -- Every element satisfies a predicate.
  abbrev pub All {κ} : (A → Type κ) → List A → Type κ
  All P [] = Unit
  All P (x ∷ xs) = P x × All P xs

  pub length-append : (xs ys : List A) → length (xs ++ ys) ≡ length xs + length ys
  length-append [] ys = omega arith
  length-append (x ∷ xs) ys = omega (arith, length-append xs ys)

  pub length-take : (n : ℕ) (xs : List A) → length (take n xs) ≡ min n (length xs)
  length-take zero xs = omega arith
  length-take (suc n) [] = omega arith
  length-take (suc n) (x ∷ xs) = omega (arith, length-take n xs)

  pub length-drop : (n : ℕ) (xs : List A) → length (drop n xs) ≡ length xs - n
  length-drop zero xs = omega arith
  length-drop (suc n) [] = omega arith
  length-drop (suc n) (x ∷ xs) = omega (arith, length-drop n xs)

  pub length-filter-le : (p : A → Bool) (xs : List A) → length (filter p xs) ≤ length xs
  length-filter-le p [] = omega arith
  length-filter-le p (x ∷ xs) = ground (arith, length-filter-le p xs)

module _ {ℓ κ} {A : Type ℓ} (P : A → Type κ) where
  pub All-append : (xs ys : List A) → All P xs → All P ys → All P (xs ++ ys)
  All-append [] ys h k = k
  All-append (x ∷ xs) ys h k = (h.0, All-append xs ys h.1 k)

  pub All-drop : (n : ℕ) (xs : List A) → All P xs → All P (drop n xs)
  All-drop zero xs h = h
  All-drop (suc n) [] h = h
  All-drop (suc n) (x ∷ xs) h = All-drop n xs h.1

-- `if v.len() > limit { v.drain(..v.len() - limit); }`: the newest `limit` entries stay.
unfoldable pub keep_last {ℓ} : {A : Type ℓ} → ℕ → List A → List A
keep_last limit xs = if ltb limit (length xs) then drop (length xs - limit) xs else xs

pub length-keep_last {ℓ} :
    {A : Type ℓ} (limit : ℕ) (xs : List A) → length (keep_last limit xs) ≡ min limit (length xs)
unfolding keep_last
length-keep_last limit xs = ground (arith, length-drop (length xs - limit) xs)

pub All-keep_last {ℓ κ} :
    {A : Type ℓ} (P : A → Type κ) (limit : ℕ) (xs : List A) → All P xs → All P (keep_last limit xs)
unfolding keep_last
All-keep_last P limit xs h =
    elim (ltb limit (length xs)) as (λ b. All P (if b then drop (length xs - limit) xs else xs)) [
      | true ↦ All-drop P (length xs - limit) xs h
      | false ↦ h
    ]

-- The last part of a list, as long as a limit allows.
pub record IsLatest {ℓ} {A : Type ℓ} (limit : ℕ) (whole kept : List A) : Type ℓ where
  pub dropped : List A
  pub joined : dropped ++ kept ≡ whole
  pub size : length kept ≡ min limit (length whole)

take-drop {ℓ} : {A : Type ℓ} (n : ℕ) (xs : List A) → take n xs ++ drop n xs ≡ xs
take-drop zero xs = refl
take-drop (suc n) [] = refl
take-drop (suc n) (x ∷ xs) = ap (λ l. x ∷ l) (take-drop n xs)

pub keep_last-IsLatest {ℓ} :
    {A : Type ℓ} (limit : ℕ) (xs : List A) → IsLatest limit xs (keep_last limit xs)
unfolding keep_last
keep_last-IsLatest limit xs = elim (Bool-cases (ltb limit (length xs))) [
  | inl over ↦ rw over (record {
    dropped = take (length xs - limit) xs;
    joined = take-drop (length xs - limit) xs;
    size = ground (arith, length-drop (length xs - limit) xs);
  })
  | inr fits ↦ rw fits (record { dropped = []; joined = refl; size = ground arith })
]
