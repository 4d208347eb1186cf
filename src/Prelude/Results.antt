-- ===== src/Prelude/Results.antt =====
-- Rust's `Result`, with `?` as the bind of a `do` block.
use mathlib.Core.Bool.{Bool, true, false}
use mathlib.Core.Path.{◌≡◌, refl, subst}

pub data Result {ℓ κ} (T : Type ℓ) (F : Type κ) : Type (ℓ ⊔ κ) where
  ok : T → Result T F
  err : F → Result T F

module _ {ℓ κ} {T : Type ℓ} {F : Type κ} where
  abbrev pub is_err : Result T F → Bool
  is_err (err _) = true
  is_err (ok _) = false

  abbrev pub is_ok : Result T F → Bool
  is_ok (err _) = false
  is_ok (ok _) = true

-- `outcome?`, with what comes after it.
infixl 5 ◌>>=◌ ◌>>◌
abbrev pub ◌>>=◌ {ℓ κ μ} :
    {T : Type ℓ} {U : Type μ} {F : Type κ} → Result T F → (T → Result U F) → Result U F
(err failure) >>= after = err failure
(ok value) >>= after = after value

abbrev pub ◌>>◌ {κ μ} : {U : Type μ} {F : Type κ} → Result (Unit {0}) F → Result U F → Result U F
outcome >> after = outcome >>= (λ _. after)

-- `if test { return Err(failure) }`.
abbrev pub fail_if {κ} : {F : Type κ} → Bool → F → Result (Unit {0}) F
fail_if true failure = err failure
fail_if false failure = ok tt

-- What a sequence that succeeds has passed through.
module _ {ℓ κ μ} {T : Type ℓ} {U : Type μ} {F : Type κ} where
  pub bind_inv :
      (r : Result T F) (f : T → Result U F) {u : U}
      → r >>= f ≡ ok u
      → (t : T) × (r ≡ ok t) × (f t ≡ ok u)
  bind_inv (err failure) f h = cc
  bind_inv (ok t) f h = (t, refl, h)

pub then_inv {κ μ} :
    {U : Type μ} {F : Type κ} (r : Result (Unit {0}) F) (after : Result U F) {u : U}
    → r >> after ≡ ok u
    → (r ≡ ok tt) × (after ≡ ok u)
then_inv (err failure) after h = cc
then_inv (ok _) after h = (refl, h)

pub fail_if_inv {κ} : {F : Type κ} (b : Bool) (failure : F) → fail_if b failure ≡ ok tt → b ≡ false
fail_if_inv true failure h = cc
fail_if_inv false failure h = refl

-- The same for a sequence that begins with a guard.
pub guard_inv {κ μ} :
    {U : Type μ} {F : Type κ} (b : Bool) (failure : F) (after : Result U F) {u : U}
    → fail_if b failure >> after ≡ ok u
    → (b ≡ false) × (after ≡ ok u)
guard_inv true failure after h = cc
guard_inv false failure after h = (refl, h)

-- What comes after a value that is known.
pub bind_at {ℓ κ μ} :
    {T : Type ℓ} {U : Type μ} {F : Type κ} (r : Result T F) (f : T → Result U F) {t : T} {u : U}
    → r ≡ ok t
    → r >>= f ≡ ok u
    → f t ≡ ok u
bind_at (err failure) f e h = cc
bind_at {T} {U} {F} (ok s) f {t} {u} e h = let same : s ≡ t = cc in subst (λ x. f x ≡ ok u) same h
