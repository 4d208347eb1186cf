-- ===== src/BTreeMap/Laws.antt =====
-- What `get` reads after `insert` and `remove`, and that they keep the keys in order.
use mathlib.Core.Path.{subst₂}
use rusty_fleet.Prelude.{
  ◌+◌, ◌≤◌, Ordering, ◌≡◌, refl, sym, ap, ◌∙◌, ◌≢◌, none, some, [], ◌∷◌, arith, length, All,
}
use rusty_fleet.Order.{Ord, reverse}
use rusty_fleet.BTreeMap.{BTreeMap, get, insert, remove, Sorted}

pub cmp_self {ℓ} : {K : Type ℓ} ⦃o : Ord K⦄ (k : K) → o.cmp k k ≡ Ordering.eq
cmp_self ⦃o⦄ k = ground (arith, o.lawful.flip k k)

module _ {ℓ κ} {K : Type ℓ} {V : Type κ} ⦃o : Ord K⦄ where
  pub get-insert :
      (k j : K) (v : V) (m : BTreeMap K V)
      → get j (insert k v m) ≡ elim (o.cmp j k) [ Ordering.eq ↦ some v | _ ↦ get j m ]
  unfolding get insert
  get-insert k j v [] = refl
  get-insert k j v ((i, w) ∷ m) = ground (
    arith,
    get-insert k j v m,
    o.lawful.flip j k,
    o.lawful.same j k i,
    o.lawful.same k i j,
    o.lawful.flip k i,
    o.lawful.flip j i,
    o.lawful.same k j i,
  )

  pub get-insert_self : (k : K) (v : V) (m : BTreeMap K V) → get k (insert k v m) ≡ some v
  get-insert_self k v m = rw (get-insert k k v m) (rw (cmp_self k))

  pub get-insert_ne : (k j : K) (v : V) (m : BTreeMap K V) → j ≢ k → get j (insert k v m) ≡ get j m
  get-insert_ne k j v m h = ground (arith, get-insert k j v m, o.eq_of_cmp j k)

  All-insert :
      (i k : K) (v : V) (m : BTreeMap K V)
      → o.cmp i k ≡ Ordering.lt
      → All (λ e. o.cmp i e.0 ≡ Ordering.lt) m
      → All (λ e. o.cmp i e.0 ≡ Ordering.lt) (insert k v m)
  unfolding insert
  All-insert i k v [] h a = (h, tt)
  All-insert i k v ((j, w) ∷ m) h a = ground (arith, All-insert i k v m h a.1)

  All-lt_trans :
      (i k : K) (m : BTreeMap K V)
      → o.cmp i k ≡ Ordering.lt
      → All (λ e. o.cmp k e.0 ≡ Ordering.lt) m
      → All (λ e. o.cmp i e.0 ≡ Ordering.lt) m
  All-lt_trans i k [] h a = tt
  All-lt_trans i k (e ∷ m) h a = (o.lawful.trans i k e.0 h a.0, All-lt_trans i k m h a.1)

  All-lt_same :
      (i k : K) (m : BTreeMap K V)
      → o.cmp i k ≡ Ordering.eq
      → All (λ e. o.cmp k e.0 ≡ Ordering.lt) m
      → All (λ e. o.cmp i e.0 ≡ Ordering.lt) m
  All-lt_same i k [] h a = tt
  All-lt_same i k (e ∷ m) h a = (o.lawful.same i k e.0 h ∙ a.0, All-lt_same i k m h a.1)

  pub insert-Sorted : (k : K) (v : V) (m : BTreeMap K V) → Sorted m → Sorted (insert k v m)
  unfolding insert
  insert-Sorted k v [] s = (tt, tt)
  insert-Sorted k v ((j, w) ∷ m) s = go (insert-Sorted k v m s.1) (o.cmp k j) refl
    where
      go :
          Sorted (insert k v m)
          → (r : Ordering) → o.cmp k j ≡ r
          → Sorted (elim r [
            | Ordering.lt ↦ (k, v) ∷ (j, w) ∷ m
            | Ordering.eq ↦ (k, v) ∷ m
            | Ordering.gt ↦ (j, w) ∷ insert k v m
          ])
      go ih Ordering.lt e = ((e, All-lt_trans k j m e s.0), s)
      go ih Ordering.eq e = (All-lt_same k j m e s.0, s.1)
      go ih Ordering.gt e = (All-insert j k v m (o.lawful.flip k j ∙ ap reverse e) s.0, ih)

  pub All-remove {μ} :
      (P : K × V → Type μ) (k : K) (m : BTreeMap K V) → All P m → All P (remove k m)
  unfolding remove
  All-remove P k [] a = a
  All-remove P k ((j, w) ∷ m) a =
      elim (o.cmp k j) as (λ r. All P (elim r [ Ordering.eq ↦ m | _ ↦ (j, w) ∷ remove k m ])) [
        | Ordering.eq ↦ a.1
        | _ ↦ (a.0, All-remove P k m a.1)
      ]

  pub remove-Sorted : (k : K) (m : BTreeMap K V) → Sorted m → Sorted (remove k m)
  unfolding remove
  remove-Sorted k [] s = s
  remove-Sorted k ((j, w) ∷ m) s =
      elim (o.cmp k j) as (λ r. Sorted (elim r [ Ordering.eq ↦ m | _ ↦ (j, w) ∷ remove k m ])) [
        | Ordering.eq ↦ s.1
        | _ ↦ (All-remove (λ e. o.cmp j e.0 ≡ Ordering.lt) k m s.0, remove-Sorted k m s.1)
      ]

  pub get-none_of_lt :
      (k : K) (m : BTreeMap K V) → All (λ e. o.cmp k e.0 ≡ Ordering.lt) m → get k m ≡ none
  unfolding get
  get-none_of_lt k [] a = refl
  get-none_of_lt k ((j, w) ∷ m) a = ground (arith, get-none_of_lt k m a.1, a.0)

  pub get-remove_self : (k : K) (m : BTreeMap K V) → Sorted m → get k (remove k m) ≡ none
  unfolding get remove
  get-remove_self k [] s = refl
  get-remove_self k ((j, w) ∷ m) s =
      ground (arith, get-remove_self k m s.1, get-none_of_lt k m, All-lt_same k j m)

  pub get-remove_ne : (k j : K) (m : BTreeMap K V) → j ≢ k → get j (remove k m) ≡ get j m
  unfolding get remove
  get-remove_ne k j [] h = refl
  get-remove_ne k j ((i, w) ∷ m) h = ground (
    arith,
    get-remove_ne k j m h,
    o.lawful.same k i j,
    o.lawful.flip k j,
    o.lawful.flip i j,
    o.eq_of_cmp j k,
  )

  pub length-remove : (k : K) (m : BTreeMap K V) → length (remove k m) ≤ length m
  unfolding remove
  length-remove k [] = omega arith
  length-remove k ((j, w) ∷ m) = ground (arith, length-remove k m)

  pub length-insert_new :
      (k : K) (v : V) (m : BTreeMap K V) → get k m ≡ none → length (insert k v m) ≡ length m + 1
  unfolding insert get
  length-insert_new k v [] h = omega arith
  length-insert_new k v ((j, w) ∷ m) h = ground (arith, length-insert_new k v m)

  pub length-insert_old :
      (k : K) (v w : V) (m : BTreeMap K V)
      → Sorted m
      → get k m ≡ some w
      → length (insert k v m) ≡ length m
  unfolding insert get
  length-insert_old k v w [] s h = cc
  length-insert_old k v w ((j, u) ∷ m) s h =
      ground (arith, length-insert_old k v w m s.1, get-none_of_lt k m, All-lt_trans k j m, s.0)

  pub get-All {μ} :
      (P : K × V → Type μ) (k : K) (m : BTreeMap K V) {v : V}
      → All P m
      → get k m ≡ some v
      → P (k, v)
  unfolding get
  get-All P k [] a h = cc
  get-All P k ((j, w) ∷ m) {v} a h = go (get-All P k m a.1) (o.cmp k j) refl h
    where
      go :
          (get k m ≡ some v → P (k, v))
          → (r : Ordering) → o.cmp k j ≡ r
          → elim r [ Ordering.eq ↦ some w | _ ↦ get k m ] ≡ some v
          → P (k, v)
      go ih Ordering.eq e q =
          let same : w ≡ v = cc in subst₂ (λ x y. P (x, y)) (sym (o.eq_of_cmp k j e)) same a.0
      go ih _ e q = ih q

  -- A property of all entries holds after an insertion that satisfies it.
  pub All-insert_entry {μ} :
      (P : K × V → Type μ) (k : K) (v : V) (m : BTreeMap K V)
      → P (k, v)
      → All P m
      → All P (insert k v m)
  unfolding insert
  All-insert_entry P k v [] p a = (p, tt)
  All-insert_entry P k v ((j, w) ∷ m) p a =
      let ih = All-insert_entry P k v m p a.1 in
      elim (o.cmp k j)
        as (λ r. All P (elim r [
          | Ordering.lt ↦ (k, v) ∷ (j, w) ∷ m
          | Ordering.eq ↦ (k, v) ∷ m
          | Ordering.gt ↦ (j, w) ∷ insert k v m
        ])) [ Ordering.lt ↦ (p, a) | Ordering.eq ↦ (p, a.1) | Ordering.gt ↦ (a.0, ih) ]

  pub length-insert-le : (k : K) (v : V) (m : BTreeMap K V) → length (insert k v m) ≤ length m + 1
  unfolding insert
  length-insert-le k v [] = omega arith
  length-insert-le k v ((j, w) ∷ m) = ground (arith, length-insert-le k v m)
