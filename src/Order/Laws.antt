-- ===== src/Order/Laws.antt =====
-- The laws of a comparison function, and that `reverse`, `then`, pulling back along a key and
-- `Option`'s order keep them.
use Prim.Native.String.{then}
use Prim.Native.Nat.{compare as compare_ℕ}
use rusty_fleet.Prelude.{
  ℕ, Ordering, ◌≡◌, refl, ap, arith, Option, none, some, compare_ℤ, Bool, true, false,
}

-- `Ordering::reverse`.
abbrev pub reverse : Ordering → Ordering
reverse Ordering.lt = Ordering.gt
reverse Ordering.eq = Ordering.eq
reverse Ordering.gt = Ordering.lt

abbrev pub is_eq : Ordering → Bool
is_eq Ordering.eq = true
is_eq _ = false

abbrev pub is_lt : Ordering → Bool
is_lt Ordering.lt = true
is_lt _ = false

abbrev pub is_gt : Ordering → Bool
is_gt Ordering.gt = true
is_gt _ = false

-- A total preorder by its three-way comparison.
pub record IsComparison {ℓ} {A : Type ℓ} (cmp : A → A → Ordering) : Type ℓ where
  pub flip : (a b : A) → cmp b a ≡ reverse (cmp a b)
  pub same : (a b c : A) → cmp a b ≡ Ordering.eq → cmp a c ≡ cmp b c
  pub trans : (a b c : A) → cmp a b ≡ Ordering.lt → cmp b c ≡ Ordering.lt → cmp a c ≡ Ordering.lt

-- A type with its canonical order, in which "equal" is equality.
pub record Ord {ℓ} (A : Type ℓ) : Type ℓ where
  pub cmp : A → A → Ordering
  pub lawful : IsComparison cmp
  pub eq_of_cmp : (a b : A) → cmp a b ≡ Ordering.eq → a ≡ b

module _ {ℓ} {A : Type ℓ} where
  pub always_eq-IsComparison : IsComparison {A = A} (λ _ _. Ordering.eq)
  always_eq-IsComparison = record {
    flip = λ _ _. refl;
    same = λ _ _ _ _. refl;
    trans = λ _ _ _ h _. h;
  }

  pub reverse-IsComparison :
      {cmp : A → A → Ordering} → IsComparison cmp → IsComparison (λ a b. reverse (cmp a b))
  reverse-IsComparison {cmp} law = record {
    flip = λ a b. ap reverse (law.flip a b);
    same = λ a b c h. ground (arith, law.same a b c);
    trans = λ a b c h k. ground (arith, law.trans c b a, law.flip a b, law.flip b c, law.flip a c);
  }

  pub then-IsComparison :
      {f g : A → A → Ordering}
      → IsComparison f
      → IsComparison g
      → IsComparison (λ a b. then (f a b) (g a b))
  then-IsComparison {f} {g} p q = record {
    flip = λ a b. ground (arith, p.flip a b, q.flip a b);
    same = λ a b c h. ground (arith, p.same a b c, q.same a b c);
    trans = λ a b c h k. ground (
      arith,
      p.trans a b c,
      q.trans a b c,
      p.same a b c,
      p.same c b a,
      p.flip b c,
      p.flip a b,
      p.flip a c,
    );
  }

  pub pull_back-IsComparison {κ} :
      {B : Type κ} {cmp : B → B → Ordering} (key : A → B)
      → IsComparison cmp
      → IsComparison (λ a b. cmp (key a) (key b))
  pull_back-IsComparison key law = record {
    flip = λ a b. law.flip (key a) (key b);
    same = λ a b c. law.same (key a) (key b) (key c);
    trans = λ a b c. law.trans (key a) (key b) (key c);
  }

-- `None` is less than every `Some`.
abbrev pub compare_option {ℓ} : {A : Type ℓ} → (A → A → Ordering) → Option A → Option A → Ordering
compare_option cmp none none = Ordering.eq
compare_option cmp none (some _) = Ordering.lt
compare_option cmp (some _) none = Ordering.gt
compare_option cmp (some a) (some b) = cmp a b

module _ {ℓ} {A : Type ℓ} {cmp : A → A → Ordering} (law : IsComparison cmp) where
  option_flip : (a b : Option A) → compare_option cmp b a ≡ reverse (compare_option cmp a b)
  option_flip none none = refl
  option_flip none (some _) = refl
  option_flip (some _) none = refl
  option_flip (some a) (some b) = law.flip a b

  option_same :
      (a b c : Option A)
      → compare_option cmp a b ≡ Ordering.eq
      → compare_option cmp a c ≡ compare_option cmp b c
  option_same none none c h = refl
  option_same none (some _) c h = cc
  option_same (some _) none c h = cc
  option_same (some a) (some b) none h = refl
  option_same (some a) (some b) (some c) h = law.same a b c h

  option_trans :
      (a b c : Option A)
      → compare_option cmp a b ≡ Ordering.lt
      → compare_option cmp b c ≡ Ordering.lt
      → compare_option cmp a c ≡ Ordering.lt
  option_trans none b none h k = ground arith
  option_trans none b (some _) h k = refl
  option_trans (some _) none c h k = cc
  option_trans (some _) (some _) none h k = cc
  option_trans (some a) (some b) (some c) h k = law.trans a b c h k

  pub compare_option-IsComparison : IsComparison (compare_option cmp)
  compare_option-IsComparison = record {
    flip = option_flip;
    same = option_same;
    trans = option_trans;
  }

pub compare_nat-IsComparison : IsComparison compare_ℕ
compare_nat-IsComparison = record {
  flip = λ a b. ground arith;
  same = λ a b c h. ground arith;
  trans = λ a b c h k. ground arith;
}

pub compare_int-IsComparison : IsComparison compare_ℤ
compare_int-IsComparison = record {
  flip = λ a b. ground arith;
  same = λ a b c h. ground arith;
  trans = λ a b c h k. ground arith;
}

pub nat_eq_of_cmp : (a b : ℕ) → compare_ℕ a b ≡ Ordering.eq → a ≡ b
nat_eq_of_cmp a b h = ground arith

instance abbrev pub nat_ord : Ord ℕ
nat_ord = record { cmp = compare_ℕ; lawful = compare_nat-IsComparison; eq_of_cmp = nat_eq_of_cmp }
